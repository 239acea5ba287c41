-- ===== src/Tests/Distr.antt =====
-- A central authority with two nodes.
use outcome.Prelude.{
  ℕ, ◌<◌, ◌≤◌, ◌≡◌, refl, [], ◌∷◌, List, Option, none, some, All, arith, contains, length, ◌==◌,
  nat_eq, string_eq, if◌then◌else◌, ◌⊎◌, String,
}
use outcome.Prelude.Assoc.{get, insert}
use outcome.Prelude.Result.{ok, err, panic}
use outcome.Data.{other}
use outcome.Machine.{empty_location}
use outcome.Machine.Command.{CentralRemoteCommand}
use outcome.Machine.Exec.{ExecutionContext, Central}
use outcome.Entity
use outcome.Sim.Remote.{execute_central_ext}
use outcome.Sim
use outcome.Sim.Step.{step_entities}
use outcome.Distr.{Signal}
use outcome.Distr.Node
use outcome.Distr.Node.{SimNode, process, add_entity, read_central}
use outcome.Distr.Central
use outcome.Distr.Central.{SimCentral, DistributionPolicy, enqueue}
use outcome.Distr.Central.Commands.{execute_all}
use outcome.Distr.Central.Network.{signal, would_block, Inboxes, gather, answer, Sent}
use outcome.Distr.Central.Inbox.{Item, sent, Ends, weigh, total}
use outcome.Distr.Central.Gather.{gather-sent}
use outcome.Distr.Central.Rounds.{left}
use outcome.Distr.Central.Mirror.{Rest, mirror, execute_all-mirror}
use outcome.Distr.Central.Spawned.{spawn_entity-mirror}
use outcome.Distr.Central.Nodeless.{spawn_entity-nodeless}
use outcome.Distr.Node.Batches.{concat, FullButLast, concat-batches}
use outcome.Distr.Union.{received, signals_for, spawn_all, sent-process, read_central-answer}
use outcome.Tests.{test_std}
use outcome.Tests.Sim.{harbour, ships, ship, idle_ship, count_up, no_extend}

abbrev on_ship : ExecutionContext
on_ship = record { ent = 0; comp = "hull"; location = empty_location }

abbrev storm : Item
storm = (on_ship, CentralRemoteCommand.register_event "storm")

abbrev calm : Item
calm = (on_ship, CentralRemoteCommand.invoke ("calm" ∷ []))

concat-batches_example :
    (concat (Node.batches 0 [] (storm ∷ calm ∷ [])) ≡ storm ∷ calm ∷ [])
    × All (λ b. (0 < length b) × (length b ≤ 1000)) (Node.batches 0 [] (storm ∷ calm ∷ []))
    × FullButLast (Node.batches 0 [] (storm ∷ calm ∷ []))
concat-batches_example = concat-batches (storm ∷ calm ∷ [])

-- The second node is slower, and the first still has a signal of its last step to send.
abbrev two_inboxes : Inboxes
two_inboxes n =
    if n == 1
    then signal (Signal.execute_central_ext_cmds (storm ∷ []))
      ∷ signal Signal.end_of_messages
      ∷ signal Signal.process_step_finished
      ∷ []
    else would_block
      ∷ signal (Signal.execute_central_ext_cmd calm)
      ∷ signal Signal.end_of_messages
      ∷ []

abbrev two_nodes : List ℕ
two_nodes = 1 ∷ 2 ∷ []

gather-sent_example :
    (net : Inboxes) × (cmds : Central) × (gather 7 two_inboxes
        (record { do_nodes = two_nodes; node_counter = 0; cext_cmds = [] })
      ≡ some (ok (net, cmds)))
    × ((w : Item → ℕ) → weigh w cmds ≡ total (λ rs. weigh w (sent rs)) two_inboxes two_nodes)
    × ((n : ℕ) → net n ≡ (if contains two_nodes n then left (two_inboxes n) else two_inboxes n))
gather-sent_example =
    gather-sent two_inboxes two_nodes 7 ((omega arith, tt), (tt, tt)) (tt, (tt, tt)) (omega arith)

-- The local phase of a ship whose state machine has nothing to do for the rest of the world.
abbrev node : SimNode
node = record {
  clock = 0;
  model = ships;
  event_queue = [];
  entities = (0, ship) ∷ [];
  entities_idx = ("anna", 0) ∷ [];
}

sent-process_example :
    (signals : List Signal) × (process ⦃std = test_std⦄ 10 node ("step" ∷ [])
      ≡ some (ok (Node.with_entities node ((0, idle_ship) ∷ []), signals)))
    × (sent (received signals) ≡ [])
    × Ends (received signals)
unfolding step_entities get insert
sent-process_example =
    sent-process ⦃std = test_std⦄ 10 node ("step" ∷ []) ((0, idle_ship) ∷ []) [] [] refl

abbrev two_ports : Rest
two_ports = record { clock = 0; node_entities = (1, 0 ∷ []) ∷ (2, []) ∷ []; ent_spawn_queue = [] }

abbrev same_order : List ℕ → List ℕ
same_order nodes = nodes

execute_all-mirror_example :
    (execute_all count_up same_order (storm ∷ calm ∷ []) (mirror harbour two_ports) ≡ panic)
    ⊎ ((sim : Sim.Sim ℕ) × (execute_central_ext count_up no_extend (storm ∷ calm ∷ []) harbour
          ≡ ok sim)
        × (execute_all count_up same_order (storm ∷ calm ∷ []) (mirror harbour two_ports)
            ≡ ok (mirror sim two_ports)))
execute_all-mirror_example =
    execute_all-mirror count_up same_order no_extend two_ports (storm ∷ calm ∷ []) harbour
      (tt, (tt, tt))

abbrev harbour_with_bert : Sim.Sim ℕ
harbour_with_bert = record {
  model = ships;
  clock = 0;
  event_queue = "step" ∷ [];
  entities = (0, ship) ∷ (1, Entity.empty) ∷ [];
  entity_idx = ("anna", 0) ∷ ("bert", 1) ∷ [];
  entity_pool = 2;
}

spawn_entity-mirror_example :
    (Central.spawn_entity count_up same_order
        (mirror harbour two_ports)
        none
        (some "bert")
        DistributionPolicy.random
      ≡ (
        mirror harbour_with_bert (record {
          clock = 0;
          node_entities = two_ports.node_entities;
          ent_spawn_queue = enqueue 1 (1, none, some "bert") [];
        }),
        ok tt,
      ))
    × ((n : SimNode)
        → n.model ≡ ships
        → (n' : SimNode) × (add_entity n (1, none, some "bert") ≡ ok n')
          × (get 1 n'.entities ≡ get 1 harbour_with_bert.entities))
unfolding get insert Sim.spawn_entity
spawn_entity-mirror_example =
    spawn_entity-mirror count_up same_order two_ports harbour harbour_with_bert none (some "bert") 1
      1 (2 ∷ []) refl (omega arith) refl

-- The central authority after it has spawned an entity for its second node.
abbrev busy : SimCentral ℕ
busy = mirror harbour (record {
  clock = 0;
  node_entities = two_ports.node_entities;
  ent_spawn_queue = (2, (1, none, some "bert") ∷ []) ∷ [];
})

read_central-answer_example :
    (sent : List Sent) × (answer count_up same_order [] busy
      ≡ ok (Central.with_queue busy [], sent))
    × ((n : SimNode) (i : ℕ)
        → read_central n (signals_for i sent)
          ≡ some (spawn_all (Node.with_node_model n ships) (get i busy.ent_spawn_queue)))
unfolding execute_all
read_central-answer_example = read_central-answer count_up same_order [] busy busy refl (tt, tt)

abbrev alone : SimCentral ℕ
alone = Central.from_model ships 0

spawn_entity-nodeless_example :
    (c' : SimCentral ℕ) × (Central.spawn_entity count_up same_order alone none
        (some "bert")
        DistributionPolicy.random
      ≡ (c', err (other "no nodes available")))
    × ((prefab' : Option String) (policy : DistributionPolicy)
        → (Central.spawn_entity count_up same_order c' prefab' (some "bert") policy).1
          ≡ err (other "Failed to add entity"))
unfolding get
spawn_entity-nodeless_example =
    spawn_entity-nodeless count_up same_order alone none "bert" 0 1 1 2 refl refl refl refl
