-- ===== src/Distr/Node.antt =====
-- A node of a distributed simulation: outcome-core/src/distr/node.rs.
pub mod Batches
use outcome.Prelude.{
  ℕ, ◌+◌, ◌-◌, ◌%◌, ◌^◌, String, true, false, List, [], ◌∷◌, ◌++◌, Option, none, some, leb,
  string_eq, nat_eq,
}
use outcome.Prelude.Assoc
use outcome.Prelude.Assoc.{Assoc}
use outcome.Prelude.Decimal.{parse_unsigned}
use outcome.Prelude.Result.{Result, ok, err, panic, ◌>>=◌, ok_or}
use outcome.Data.{Error, Var, Address, parsing_error, failed_getting_var_from_sim}
use outcome.Std.{Std}
use outcome.Address.{storage_index}
use outcome.Storage
use outcome.Model.{SimModel}
use outcome.Entity
use outcome.Entity.{Entity, from_prefab_name}
use outcome.Machine.{MachineError}
use outcome.Machine.Exec.{Central}
use outcome.Sim.{with_storage}
use outcome.Sim.Step.{step_entities}
use outcome.Distr.{Signal, Spawning}

pub record SimNode : Type 0 where
  pub clock : ℕ
  pub model : SimModel
  pub event_queue : List String
  pub entities : Assoc ℕ Entity
  pub entities_idx : Assoc String ℕ

-- `SimNode::from_model`
abbrev pub from_model : SimModel → SimNode
from_model model = record {
  clock = 0;
  model = model;
  event_queue = "_scr_init" ∷ [];
  entities = [];
  entities_idx = [];
}

abbrev pub with_entities : SimNode → Assoc ℕ Entity → SimNode
with_entities n entities = record {
  clock = n.clock;
  model = n.model;
  event_queue = n.event_queue;
  entities = entities;
  entities_idx = n.entities_idx;
}

-- The entity whose id is spelled by the name in the address.
unfoldable pub entity_by_id : SimNode → Address → Result Error (Option (ℕ × Entity))
unfolding parse_unsigned
entity_by_id n addr = do
  id ← ok_or parsing_error (parse_unsigned (2 ^ 32 - 1) addr.entity)
  elim (Assoc.get id n.entities) [ none ↦ ok none | some ent ↦ ok (some (id, ent)) ]

-- The entity that `get_var` reads: a name that leads nowhere is tried as an id.
unfoldable pub read_entity : SimNode → Address → Result Error (Option (ℕ × Entity))
unfolding entity_by_id
read_entity n addr = elim (Assoc.get addr.entity n.entities_idx) [
  | none ↦ entity_by_id n addr
  | some id ↦ elim (Assoc.get id n.entities) [
    | none ↦ entity_by_id n addr
    | some ent ↦ ok (some (id, ent))
  ]
]

-- The entity that `get_var_mut` writes: a name that leads nowhere is not.
unfoldable pub written_entity : SimNode → Address → Result Error (Option (ℕ × Entity))
unfolding entity_by_id
written_entity n addr = elim (Assoc.get addr.entity n.entities_idx) [
  | none ↦ entity_by_id n addr
  | some id ↦ elim (Assoc.get id n.entities) [ none ↦ ok none | some ent ↦ ok (some (id, ent)) ]
]

unfoldable pub get_var : SimNode → Address → Result Error Var
unfolding read_entity Storage.get_var
get_var n addr = do
  found ← read_entity n addr
  elim found [
    | none ↦ err (failed_getting_var_from_sim addr)
    | some (id, ent) ↦ Storage.get_var ent.storage (storage_index addr)
  ]

-- `*sim_node.get_var_mut(addr)? = v`
unfoldable pub set_var : SimNode → Address → Var → Result Error SimNode
unfolding written_entity Storage.set_var
set_var n addr v = do
  found ← written_entity n addr
  elim found [
    | none ↦ err (failed_getting_var_from_sim addr)
    | some (id, ent) ↦ do
      s ← Storage.set_var ent.storage (storage_index addr) v
      ok (with_entities n (Assoc.insert id (with_storage ent s) n.entities))
  ]

-- The entity of `add_entity`.
abbrev pub new_entity : SimModel → Option String → Result Error Entity
new_entity model none = ok Entity.empty
new_entity model (some p) = from_prefab_name p model

-- The name of `add_entity`.
abbrev pub name_entity : Option String → ℕ → Assoc String ℕ → Assoc String ℕ
name_entity none uid idx = idx
name_entity (some t) uid idx = Assoc.insert t uid idx

unfoldable pub add_entity : SimNode → Spawning → Result Error SimNode
unfolding from_prefab_name
add_entity n (uid, prefab, target) = do
  entity ← new_entity n.model prefab
  ok (record {
    clock = n.clock;
    model = n.model;
    event_queue = n.event_queue;
    entities = Assoc.insert uid entity n.entities;
    entities_idx = name_entity target uid n.entities_idx;
  })

unfoldable pub add_entities : SimNode → List Spawning → Result Error SimNode
unfolding add_entity
add_entities n [] = ok n
add_entities n (s ∷ ss) = do n' ← add_entity n s; add_entities n' ss

-- The loop that cuts the queue of central commands into parts, given the counter and the part that is
-- being filled.
unfoldable pub batches : ℕ → Central → Central → List Central
batches counter [] [] = []
batches counter (c ∷ part) [] = (c ∷ part) ∷ []
batches counter part (cmd ∷ cmds) = elim (leb 1000 (counter + 1)) [
  | true ↦ (part ++ (cmd ∷ [])) ∷ batches 0 [] cmds
  | false ↦ batches (counter + 1) (part ++ (cmd ∷ [])) cmds
]

unfoldable pub batch_signals : List Central → List Signal
batch_signals [] = Signal.end_of_messages ∷ []
batch_signals (b ∷ bs) = Signal.execute_central_ext_cmds b ∷ batch_signals bs

abbrev pub with_node_model : SimNode → SimModel → SimNode
with_node_model n model = record {
  clock = n.clock;
  model = model;
  event_queue = n.event_queue;
  entities = n.entities;
  entities_idx = n.entities_idx;
}

-- The loop that reads the signals of the central authority up to the end of its messages. `none`: more
-- signals are waited for.
unfoldable pub read_central : SimNode → List Signal → Option (Result Error SimNode)
unfolding add_entities
read_central n [] = none
read_central n (Signal.end_of_messages ∷ signals) = some (ok n)
read_central n (Signal.update_model model ∷ signals) =
    read_central (with_node_model n model) signals
read_central n (Signal.spawn_entities ss ∷ signals) = elim (add_entities n ss) [
  | ok n' ↦ read_central n' signals
  | err e ↦ some (err e)
  | panic ↦ some panic
]
read_central n (Signal.start_process_step events ∷ signals) = read_central n signals
read_central n (Signal.process_step_finished ∷ signals) = read_central n signals
read_central n (Signal.execute_central_ext_cmd c ∷ signals) = read_central n signals
read_central n (Signal.execute_central_ext_cmds cs ∷ signals) = read_central n signals
read_central n (Signal.other ∷ signals) = read_central n signals

abbrev pub ticked_node : SimNode → SimNode
ticked_node n = record {
  clock = (n.clock + 1) % 2 ^ 64;
  model = n.model;
  event_queue = n.event_queue;
  entities = n.entities;
  entities_idx = n.entities_idx;
}

module _ ⦃std : Std⦄ where
  -- The first half of `SimNode::step`: the local phase, and what it sends to the central authority. The
  -- external commands of the entities are not executed.
  unfoldable pub process :
      ℕ → SimNode → List String → Option (Result MachineError (SimNode × List Signal))
  unfolding step_entities batches batch_signals
  process fuel n events = elim (step_entities fuel n.model events n.entities [] []) [
    | none ↦ none
    | some (err e) ↦ some (err e)
    | some panic ↦ some panic
    | some (ok (entities, ext, central)) ↦
        some (ok (with_entities n entities, batch_signals (batches 0 [] central)))
  ]

-- The second half of `SimNode::step`, given the signals that come in: the node, and what it sends.
unfoldable pub finish : SimNode → List Signal → Option (Result Error (SimNode × List Signal))
unfolding read_central
finish n signals = elim (read_central n signals) [
  | none ↦ none
  | some (err e) ↦ some (err e)
  | some panic ↦ some panic
  | some (ok n') ↦ some (ok (ticked_node n', Signal.process_step_finished ∷ []))
]
