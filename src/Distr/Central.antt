-- ===== src/Distr/Central.antt =====
-- The central authority of a distributed simulation: outcome-core/src/distr/central.rs. The starter, which
-- a step does not read, and the queue of model changes, which nothing reads, are left out. The pool of ids is
-- the crate `id_pool`'s, and the shuffle that a node is drawn by is the crate `rand`'s: both are parameters.
pub mod Commands
pub mod Network
pub mod Inbox
pub mod Rounds
pub mod Gather
pub mod Mirror
pub mod Spawned
pub mod Nodeless
use outcome.Prelude.{ℕ, String, List, [], ◌∷◌, ◌++◌, Option, none, some, string_eq, nat_eq}
use outcome.Prelude.Assoc
use outcome.Prelude.Assoc.{Assoc, keys}
use outcome.Prelude.Result.{Result, ok, err, panic}
use outcome.Data.{Error, other}
use outcome.Model.{SimModel}
use outcome.Distr.{Signal, Spawning}

-- The policies but `BindToNode` and `Random` are unimplemented.
pub data DistributionPolicy : Type 0 where
  bind_to_node : ℕ → DistributionPolicy
  random unsupported : DistributionPolicy

pub record SimCentral (Pool : Type 0) : Type 0 where
  pub model : SimModel
  pub clock : ℕ
  pub event_queue : List String
  pub node_entities : Assoc ℕ (List ℕ)
  pub entities_idx : Assoc String ℕ
  pub entity_idpool : Pool
  pub ent_spawn_queue : Assoc ℕ (List Spawning)

-- The spawning joins the queue of the node, which is made where there is none.
unfoldable pub enqueue : ℕ → Spawning → Assoc ℕ (List Spawning) → Assoc ℕ (List Spawning)
enqueue node s queue = elim (Assoc.get node queue) [
  | none ↦ Assoc.insert node (s ∷ []) queue
  | some ss ↦ Assoc.insert node (ss ++ (s ∷ [])) queue
]

-- `flush_queue`: each node with the signal for it. A failure to send is not modelled.
unfoldable pub spawn_signals : Assoc ℕ (List Spawning) → List (ℕ × Signal)
spawn_signals [] = []
spawn_signals ((node, ss) ∷ queue) = (node, Signal.spawn_entities ss) ∷ spawn_signals queue

module _ {Pool : Type 0} where
  -- `SimCentral::from_model`, given a fresh pool
  abbrev pub from_model : SimModel → Pool → SimCentral Pool
  from_model model pool = record {
    model = model;
    clock = 0;
    event_queue = "step" ∷ [];
    node_entities = [];
    entities_idx = [];
    entity_idpool = pool;
    ent_spawn_queue = [];
  }

  abbrev pub with_pool : SimCentral Pool → Pool → SimCentral Pool
  with_pool c pool = record {
    model = c.model;
    clock = c.clock;
    event_queue = c.event_queue;
    node_entities = c.node_entities;
    entities_idx = c.entities_idx;
    entity_idpool = pool;
    ent_spawn_queue = c.ent_spawn_queue;
  }

  abbrev pub with_index : SimCentral Pool → Assoc String ℕ → SimCentral Pool
  with_index c idx = record {
    model = c.model;
    clock = c.clock;
    event_queue = c.event_queue;
    node_entities = c.node_entities;
    entities_idx = idx;
    entity_idpool = c.entity_idpool;
    ent_spawn_queue = c.ent_spawn_queue;
  }

  abbrev pub with_queue : SimCentral Pool → Assoc ℕ (List Spawning) → SimCentral Pool
  with_queue c queue = record {
    model = c.model;
    clock = c.clock;
    event_queue = c.event_queue;
    node_entities = c.node_entities;
    entities_idx = c.entities_idx;
    entity_idpool = c.entity_idpool;
    ent_spawn_queue = queue;
  }

  -- The first of the shuffled nodes.
  unfoldable pub assign_random :
      List ℕ → SimCentral Pool → Spawning → SimCentral Pool × Result Error (Unit {0})
  unfolding enqueue
  assign_random [] c s = (c, panic)
  assign_random (node ∷ nodes) c s = (with_queue c (enqueue node s c.ent_spawn_queue), ok tt)

  -- The node for a spawning, by the policy.
  unfoldable pub assign :
      (List ℕ → List ℕ)
      → DistributionPolicy
      → SimCentral Pool
      → Spawning
      → SimCentral Pool × Result Error (Unit {0})
  unfolding enqueue assign_random
  assign shuffle (DistributionPolicy.bind_to_node node) c s =
      (with_queue c (enqueue node s c.ent_spawn_queue), ok tt)
  assign shuffle DistributionPolicy.random c s = elim c.node_entities [
    | [] ↦ (c, err (other "no nodes available"))
    | e ∷ es ↦ assign_random (shuffle (keys (e ∷ es))) c s
  ]
  assign shuffle DistributionPolicy.unsupported c s = (c, panic)

  -- The name of the new entity, once the id was requested. The error is that of a name that is taken.
  unfoldable pub register_name :
      SimCentral Pool → Option String → ℕ → SimCentral Pool × Result Error (Unit {0})
  register_name c none id = (c, ok tt)
  register_name c (some n) id = elim (Assoc.get n c.entities_idx) [
    | some taken ↦ (c, err (other "Failed to add entity"))
    | none ↦ (with_index c (Assoc.insert n id c.entities_idx), ok tt)
  ]

  -- The assignment, unless the name was taken.
  abbrev pub then_assign :
      SimCentral Pool × Result Error (Unit {0})
      → (SimCentral Pool → SimCentral Pool × Result Error (Unit {0}))
      → SimCentral Pool × Result Error (Unit {0})
  then_assign (c, ok _) k = k c
  then_assign (c, err e) k = (c, err e)
  then_assign (c, panic) k = (c, panic)

  -- `SimCentral::spawn_entity`, with the central authority as it is left, also by an error.
  unfoldable pub spawn_entity :
      (Pool → Option (ℕ × Pool))
      → (List ℕ → List ℕ)
      → SimCentral Pool
      → Option String
      → Option String
      → DistributionPolicy
      → SimCentral Pool × Result Error (Unit {0})
  unfolding register_name assign
  spawn_entity request_id shuffle c prefab name policy = elim (request_id c.entity_idpool) [
    | none ↦ (c, panic)
    | some (id, pool) ↦
        then_assign (register_name (with_pool c pool) name id)
          (λ c'. assign shuffle policy c' (id, prefab, name))
  ]

  unfoldable pub flush_queue : SimCentral Pool → SimCentral Pool × List (ℕ × Signal)
  unfolding spawn_signals
  flush_queue c = (with_queue c [], spawn_signals c.ent_spawn_queue)
