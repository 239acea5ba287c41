-- ===== src/Distr/Central/Network.antt =====
-- `step_network` of outcome-core/src/distr/central.rs.
use outcome.Prelude.{
  ℕ, zero, suc, ◌+◌, String, List, [], ◌∷◌, ◌++◌, Option, none, some, get_elem?, length, remove,
  leb, nat_eq, ◌==◌, if◌then◌else◌,
}
use outcome.Prelude.Result.{Result, ok, err, panic}
use outcome.Data.{Error}
use outcome.Machine.Exec.{Central}
use outcome.Distr.{Signal}
use outcome.Distr.Central.{SimCentral, flush_queue}
use outcome.Distr.Central.Commands.{execute_all}

-- What one attempt to read from a node gives: `would_block` is the error `WouldBlock`, and `failed` is any
-- other.
pub data Received : Type 0 where
  signal : Signal → Received
  would_block failed : Received

-- What the attempts to read from each node will give. After the last one they give `would_block`.
abbrev pub Inboxes : Type 0
Inboxes = ℕ → List Received

abbrev pub update : Inboxes → ℕ → List Received → Inboxes
update net node rs m = if node == m then rs else net m

-- The loop's variables: `do_nodes`, `node_counter` and `cext_cmds`.
pub record Gathering : Type 0 where
  pub do_nodes : List ℕ
  pub node_counter : ℕ
  pub cext_cmds : Central

-- The end of a round: the next node, or the first one again.
unfoldable pub next_node : List ℕ → ℕ → Central → Gathering
next_node nodes counter cmds = record {
  do_nodes = nodes;
  node_counter = if leb (length nodes) (counter + 1) then 0 else counter + 1;
  cext_cmds = cmds;
}

-- What a round does with what it received.
unfoldable pub receive : Received → Gathering → Gathering
unfolding next_node
receive would_block g = g
receive failed g = next_node g.do_nodes g.node_counter g.cext_cmds
receive (signal (Signal.execute_central_ext_cmd c)) g =
    next_node g.do_nodes g.node_counter (g.cext_cmds ++ (c ∷ []))
receive (signal (Signal.execute_central_ext_cmds cs)) g =
    next_node g.do_nodes g.node_counter (g.cext_cmds ++ cs)
receive (signal Signal.end_of_messages) g =
    next_node (remove g.node_counter g.do_nodes) g.node_counter g.cext_cmds
receive (signal Signal.process_step_finished) g =
    next_node (remove g.node_counter g.do_nodes) g.node_counter g.cext_cmds
receive (signal (Signal.spawn_entities ss)) g = next_node g.do_nodes g.node_counter g.cext_cmds
receive (signal (Signal.start_process_step es)) g = next_node g.do_nodes g.node_counter g.cext_cmds
receive (signal (Signal.update_model m)) g = next_node g.do_nodes g.node_counter g.cext_cmds
receive (signal Signal.other) g = next_node g.do_nodes g.node_counter g.cext_cmds

-- The loop that reads what the nodes send, for as many rounds as the first argument. `none`: they were
-- too few.
unfoldable pub gather : ℕ → Inboxes → Gathering → Option (Result Error (Inboxes × Central))
unfolding receive
gather zero net g = none
gather (suc fuel) net g = elim g.do_nodes [
  | [] ↦ some (ok (net, g.cext_cmds))
  | _ ∷ _ ↦ elim (get_elem? g.do_nodes g.node_counter) [
    | none ↦ some panic
    | some node ↦ elim (net node) [
      | [] ↦ gather fuel net g
      | r ∷ rs ↦ gather fuel (update net node rs) (receive r g)
    ]
  ]
]

-- The last loop reads, from whichever node, until one has finished its step. `none`: more is waited for.
unfoldable pub await : List Received → Option (List Received)
await [] = none
await (would_block ∷ rs) = await rs
await (failed ∷ rs) = await rs
await (signal Signal.process_step_finished ∷ rs) = some rs
await (signal Signal.end_of_messages ∷ rs) = await rs
await (signal Signal.other ∷ rs) = await rs
await (signal (Signal.spawn_entities ss) ∷ rs) = await rs
await (signal (Signal.start_process_step es) ∷ rs) = await rs
await (signal (Signal.update_model m) ∷ rs) = await rs
await (signal (Signal.execute_central_ext_cmd c) ∷ rs) = await rs
await (signal (Signal.execute_central_ext_cmds cs) ∷ rs) = await rs

-- A signal to all the nodes, or to one.
pub data Sent : Type 0 where
  broadcast : Signal → Sent
  to_node : ℕ → Signal → Sent

abbrev pub to_nodes : List (ℕ × Signal) → List Sent
to_nodes [] = []
to_nodes ((node, s) ∷ rest) = to_node node s ∷ to_nodes rest

module _ {Pool : Type 0} (request_id : Pool → Option (ℕ × Pool)) (shuffle : List ℕ → List ℕ) where
  -- What is executed and sent once the nodes' signals are read.
  unfoldable pub answer : Central → SimCentral Pool → Result Error (SimCentral Pool × List Sent)
  unfolding execute_all flush_queue
  answer cmds c = elim (execute_all request_id shuffle cmds c) [
    | err e ↦ err e
    | panic ↦ panic
    | ok c' ↦
        let (c'', spawns) = flush_queue c' in
        ok (
          c'',
          broadcast (Signal.update_model c'.model)
              ∷ (to_nodes spawns ++ (broadcast Signal.end_of_messages ∷ [])),
        )
  ]

  -- `step_network`, given the nodes, what can be read from each, and what is read in the end. A failure to
  -- send is not modelled.
  unfoldable pub step_network :
      ℕ
      → Inboxes
      → List Received
      → List ℕ
      → List String
      → SimCentral Pool
      → Option (Result Error (SimCentral Pool × List Sent))
  unfolding gather answer await
  step_network fuel net last nodes events c =
      elim (gather fuel net (record { do_nodes = nodes; node_counter = 0; cext_cmds = [] })) [
        | none ↦ none
        | some (err e) ↦ some (err e)
        | some panic ↦ some panic
        | some (ok (net', cmds)) ↦ elim (answer cmds c) [
          | err e ↦ some (err e)
          | panic ↦ some panic
          | ok (c', sent) ↦ elim (await last) [
            | none ↦ none
            | some rest ↦ some (ok (c', broadcast (Signal.start_process_step events) ∷ sent))
          ]
        ]
      ]
