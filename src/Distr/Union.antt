-- ===== src/Distr/Union.antt =====
-- The central authority and its nodes together: what one side sends in a step, as the other side reads it.
use outcome.Prelude.{
  ℕ, String, List, [], ◌∷◌, ◌++◌, Option, none, some, nat_eq, ◌==◌, ◌≡◌, ◌≢◌, refl, ap, ◌∙◌,
  Bool-cases, inl, inr, eqb_iff, if◌then◌else◌, arith, All,
}
use mathlib.Core.Path.{subst}
use outcome.Prelude.Assoc
use outcome.Prelude.Assoc.{Assoc, keys}
use outcome.Prelude.Result.{Result, ok, err, panic}
use outcome.Std.{Std}
use outcome.Data.{Error}
use outcome.Entity.{Entity}
use outcome.Machine.Exec.{Ext, Central}
use outcome.Sim.Step.{step_entities}
use outcome.Distr.{Signal, Spawning}
use outcome.Distr.Node
use outcome.Distr.Node.{
  SimNode, process, batches, batch_signals, read_central, add_entities, with_node_model,
}
use outcome.Distr.Node.Batches.{concat, concat-batches}
use outcome.Distr.Central.{SimCentral, spawn_signals, flush_queue, with_queue}
use outcome.Distr.Central.Commands.{execute_all}
use outcome.Distr.Central.Network.{Received, signal, Sent, broadcast, to_node, to_nodes, answer}
use outcome.Distr.Central.Inbox.{sent, Ends, Distinct}

-- The signals of a node, as the central authority receives them.
abbrev pub received : List Signal → List Received
received [] = []
received (s ∷ ss) = signal s ∷ received ss

-- The signals of the central authority that get to a node.
abbrev pub signals_for : ℕ → List Sent → List Signal
signals_for n [] = []
signals_for n (broadcast s ∷ rest) = s ∷ signals_for n rest
signals_for n (to_node m s ∷ rest) =
    let others = signals_for n rest in if m == n then s ∷ others else others

sent_batches : (bs : List Central) → sent (received (batch_signals bs)) ≡ concat bs
unfolding batch_signals
sent_batches [] = refl
sent_batches (b ∷ bs) = ap (λ cs. b ++ cs) (sent_batches bs)

Ends-batches : (bs : List Central) → Ends (received (batch_signals bs))
unfolding batch_signals
Ends-batches [] = tt
Ends-batches (b ∷ bs) = Ends-batches bs

-- What a node sends after the local phase of its step ends its messages, and what the central authority
-- gathers from it are the central commands of the local phase, all of them and in their order.
pub sent-process :
    ⦃std : Std⦄ (fuel : ℕ) (n : SimNode) (events : List String) (ents : Assoc ℕ Entity) (ext : Ext)
    (cmds : Central)
    → step_entities fuel n.model events n.entities [] [] ≡ some (ok (ents, ext, cmds))
    → (signals : List Signal) × (process fuel n events
        ≡ some (ok (Node.with_entities n ents, signals)))
      × (sent (received signals) ≡ cmds)
      × Ends (received signals)
unfolding process
sent-process fuel n events ents ext cmds h =
    let bs = batches 0 [] cmds in
    (
      batch_signals bs,
      rw (h, process) refl,
      sent_batches bs ∙ (concat-batches cmds).0,
      Ends-batches bs,
    )

-- What a node does with the spawnings for it.
abbrev pub spawn_all : SimNode → Option (List Spawning) → Result Error SimNode
spawn_all n none = ok n
spawn_all n (some ss) = add_entities n ss

-- The spawnings of a queue and the end of the messages.
abbrev spawns_sent : Assoc ℕ (List Spawning) → List Sent
spawns_sent queue = to_nodes (spawn_signals queue) ++ (broadcast Signal.end_of_messages ∷ [])

others_only :
    (node : ℕ) (queue : Assoc ℕ (List Spawning))
    → All (λ k. node ≢ k) (keys queue)
    → signals_for node (spawns_sent queue) ≡ Signal.end_of_messages ∷ []
unfolding spawn_signals
others_only node [] h = refl
others_only node ((k, ss) ∷ queue) (hk, h) =
    ground (arith, eqb_iff k node, others_only node queue h)

read_last :
    (n : SimNode) (r : Result Error SimNode)
    → (elim r [
      | ok n' ↦ read_central n' (Signal.end_of_messages ∷ [])
      | err e ↦ some (err e)
      | panic ↦ some panic
    ])
      ≡ some r
unfolding read_central
read_last n (ok n') = refl
read_last n (err e) = refl
read_last n panic = refl

read_spawns :
    (n : SimNode) (node : ℕ) (queue : Assoc ℕ (List Spawning))
    → Distinct (keys queue)
    → read_central n (signals_for node (spawns_sent queue))
      ≡ some (spawn_all n (Assoc.get node queue))
unfolding read_central spawn_signals Assoc.get
read_spawns n node [] h = refl
read_spawns n node ((k, ss) ∷ queue) (fresh, h) = elim (Bool-cases (k == node)) [
  | inl e ↦
      let fresh' = subst (λ i. All (λ j. i ≢ j) (keys queue)) ((eqb_iff k node).0 e) fresh in
      rw (e, others_only node queue fresh') (read_last n (add_entities n ss))
  | inr e ↦ rw e (read_spawns n node queue h)
]

-- Once the central authority has executed the gathered commands, each node that reads what it then sends has
-- its model, has spawned the entities that were queued for it, and reads no further; if it fails, it is by a
-- spawning. It is supposed that no node has two queues.
pub read_central-answer :
    {Pool : Type 0} (request_id : Pool → Option (ℕ × Pool)) (shuffle : List ℕ → List ℕ)
    (cmds : Central) (c c' : SimCentral Pool)
    → execute_all request_id shuffle cmds c ≡ ok c'
    → Distinct (keys c'.ent_spawn_queue)
    → (sent : List Sent) × (answer request_id shuffle cmds c ≡ ok (with_queue c' [], sent))
      × ((n : SimNode) (node : ℕ)
          → read_central n (signals_for node sent)
            ≡ some (spawn_all (with_node_model n c'.model) (Assoc.get node c'.ent_spawn_queue)))
unfolding answer flush_queue read_central
read_central-answer request_id shuffle cmds c c' h distinct = (
  broadcast (Signal.update_model c'.model) ∷ spawns_sent c'.ent_spawn_queue,
  rw (h, answer) refl,
  λ n node. read_spawns (with_node_model n c'.model) node c'.ent_spawn_queue distinct,
)
