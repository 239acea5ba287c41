-- ===== src/Distr/Central/Spawned.antt =====
-- Spawning an entity at the central authority beside spawning it in a local simulation.
use outcome.Prelude.{
  ℕ, String, List, ◌∷◌, Option, none, some, string_eq, nat_eq, ◌≡◌, refl, sym, ap, ◌∙◌, arith, ◌<◌,
  length,
}
use outcome.Prelude.Assoc
use outcome.Prelude.Assoc.{keys, Assoc, get-insert_self}
use outcome.Prelude.Result.{Result, ok, err, panic}
use outcome.Data.{Error}
use outcome.Entity.{Entity, from_prefab_name}
use outcome.Model.{SimModel}
use outcome.Sim
use outcome.Sim.{Sim, insert_entity}
use outcome.Distr.{Spawning}
use outcome.Distr.Central.{
  SimCentral, DistributionPolicy, spawn_entity, enqueue, assign, assign_random, register_name,
  with_index, with_pool, with_queue,
}
use outcome.Distr.Central.Mirror.{Rest, mirror}
use outcome.Distr.Node
use outcome.Distr.Node.{SimNode, add_entity, name_entity}

-- The simulation with one more entity.
abbrev with_spawned : {Pool : Type 0} → Sim Pool → Entity → ℕ → Pool → Option String → Sim Pool
with_spawned sim ent id pool name = record {
  model = sim.model;
  clock = sim.clock;
  event_queue = sim.event_queue;
  entities = Assoc.insert id ent sim.entities;
  entity_idx = name_entity name id sim.entity_idx;
  entity_pool = pool;
}

abbrev Free : Option String → Assoc String ℕ → Type 0
Free none idx = Unit
Free (some n) idx = Assoc.get n idx ≡ none

module _ {Pool : Type 0} (request_id : Pool → Option (ℕ × Pool)) where
  -- What a successful spawning was made of.
  abbrev Made :
      Sim Pool → Sim Pool → Result Error Entity → Option (ℕ × Pool) → Option String → ℕ → Type 0
  Made sim sim' r req name id =
      (ent : Entity) × (pool : Pool) × (r ≡ ok ent)
      × (req ≡ some (id, pool))
      × Free name sim.entity_idx
      × (sim' ≡ with_spawned sim ent id pool name)

  named_inv :
      (sim sim' : Sim Pool) (ent : Entity) (i id : ℕ) (pool : Pool) (n : String) (taken : Option ℕ)
      → Assoc.get n sim.entity_idx ≡ taken
      → Sim.insert_named sim ent i pool n taken ≡ (sim', ok id)
      → Made sim sim' (ok ent) (some (i, pool)) (some n) id
  unfolding Sim.insert_named
  named_inv sim sim' ent i id pool n none e h =
      let same : i ≡ id = cc in
      (
        ent,
        pool,
        refl,
        ap (λ j. some (j, pool)) same,
        e,
        sym (ap (λ (p : Sim Pool × Result Error ℕ). p.0) h)
            ∙ ap (λ j. with_spawned sim ent j pool (some n)) same,
      )
  named_inv sim sim' ent i id pool n (some taken) e h = cc

  inserted_inv :
      (sim sim' : Sim Pool) (name : Option String) (r : Result Error Entity)
      (req : Option (ℕ × Pool)) (id : ℕ)
      → insert_entity sim name r req ≡ (sim', ok id)
      → Made sim sim' r req name id
  unfolding insert_entity
  inserted_inv sim sim' name (err e) req id h = cc
  inserted_inv sim sim' name panic req id h = cc
  inserted_inv sim sim' name (ok ent) none id h = cc
  inserted_inv sim sim' none (ok ent) (some (i, pool)) id h =
      let same : i ≡ id = cc in
      (
        ent,
        pool,
        refl,
        ap (λ j. some (j, pool)) same,
        tt,
        sym (ap (λ (p : Sim Pool × Result Error ℕ). p.0) h)
            ∙ ap (λ j. with_spawned sim ent j pool none) same,
      )
  inserted_inv sim sim' (some n) (ok ent) (some (i, pool)) id h =
      named_inv sim sim' ent i id pool n (Assoc.get n sim.entity_idx) refl h

  spawned_inv :
      (sim sim' : Sim Pool) (prefab name : Option String) (id : ℕ)
      → Sim.spawn_entity request_id sim prefab name ≡ (sim', ok id)
      → Made sim sim' (Sim.new_entity sim prefab) (request_id sim.entity_pool) name id
  unfolding Sim.spawn_entity
  spawned_inv sim sim' prefab name id h =
      inserted_inv sim sim' name (Sim.new_entity sim prefab) (request_id sim.entity_pool) id h

new_entity_same :
    {Pool : Type 0} (m : SimModel) (sim : Sim Pool) (prefab : Option String)
    → m ≡ sim.model
    → Node.new_entity m prefab ≡ Sim.new_entity sim prefab
new_entity_same m sim none h = refl
new_entity_same m sim (some p) h = ap (from_prefab_name p) h

add-made :
    (n : SimNode) (id : ℕ) (prefab name : Option String) (ent : Entity)
    → Node.new_entity n.model prefab ≡ ok ent
    → add_entity n (id, prefab, name)
      ≡ ok (record {
        clock = n.clock;
        model = n.model;
        event_queue = n.event_queue;
        entities = Assoc.insert id ent n.entities;
        entities_idx = name_entity name id n.entities_idx;
      })
unfolding add_entity
add-made n id prefab name ent h = rw h refl

register_name-Free :
    {Pool : Type 0} (c : SimCentral Pool) (name : Option String) (id : ℕ)
    → Free name c.entities_idx
    → register_name c name id ≡ (with_index c (name_entity name id c.entities_idx), ok tt)
unfolding register_name
register_name-Free c none id h = refl
register_name-Free c (some n) id h = rw (h, register_name) refl

module _ {Pool : Type 0} (request_id : Pool → Option (ℕ × Pool)) (shuffle : List ℕ → List ℕ)
    (rest : Rest) where
  assign-drawn :
      (c : SimCentral Pool) (s : Spawning) (node : ℕ) (nodes : List ℕ)
      → 0 < length c.node_entities
      → shuffle (keys c.node_entities) ≡ node ∷ nodes
      → assign shuffle DistributionPolicy.random c s
        ≡ (with_queue c (enqueue node s c.ent_spawn_queue), ok tt)
  unfolding assign assign_random
  assign-drawn c s node nodes h drawn = ground arith

  central_spawned :
      (sim : Sim Pool) (ent : Entity) (id : ℕ) (pool : Pool) (prefab name : Option String)
      (node : ℕ) (nodes : List ℕ)
      → request_id sim.entity_pool ≡ some (id, pool)
      → Free name sim.entity_idx
      → 0 < length rest.node_entities
      → shuffle (keys rest.node_entities) ≡ node ∷ nodes
      → spawn_entity request_id shuffle (mirror sim rest) prefab name DistributionPolicy.random ≡ (
        mirror (with_spawned sim ent id pool name) (record {
          clock = rest.clock;
          node_entities = rest.node_entities;
          ent_spawn_queue = enqueue node (id, prefab, name) rest.ent_spawn_queue;
        }),
        ok tt,
      )
  unfolding spawn_entity
  central_spawned sim ent id pool prefab name node nodes requested free has_node drawn =
      let c : SimCentral Pool = with_pool (mirror sim rest) pool in
      rw (requested, spawn_entity, register_name-Free c name id free)
        (assign-drawn (with_index c (name_entity name id sim.entity_idx)) (id, prefab, name) node
          nodes has_node drawn)

  -- Where a local simulation spawns an entity, the central authority that knows what the simulation knows, and
  -- that has a node, registers the same name under the same id, puts the spawning last in the queue of the
  -- first node that was drawn, and again knows what the simulation knows. A node with the same model that gets
  -- the spawning then holds under that id the entity that the simulation holds.
  pub spawn_entity-mirror :
      (sim sim' : Sim Pool) (prefab name : Option String) (id node : ℕ) (nodes : List ℕ)
      → Sim.spawn_entity request_id sim prefab name ≡ (sim', ok id)
      → (0 < length rest.node_entities)
      → shuffle (keys rest.node_entities) ≡ node ∷ nodes
      → (spawn_entity request_id shuffle (mirror sim rest) prefab name DistributionPolicy.random ≡ (
        mirror sim' (record {
          clock = rest.clock;
          node_entities = rest.node_entities;
          ent_spawn_queue = enqueue node (id, prefab, name) rest.ent_spawn_queue;
        }),
        ok tt,
      ))
        × ((n : SimNode)
            → n.model ≡ sim.model
            → (n' : SimNode) × (add_entity n (id, prefab, name) ≡ ok n')
              × (Assoc.get id n'.entities ≡ Assoc.get id sim'.entities))
  unfolding spawn_entity Sim.spawn_entity add_entity
  spawn_entity-mirror sim sim' prefab name id node nodes h has_node drawn =
      let (ent, pool, made, requested, free, result) =
        spawned_inv request_id sim sim' prefab name id h in
      rw result (
        central_spawned sim ent id pool prefab name node nodes requested free has_node drawn,
        λ n same. (
          record {
            clock = n.clock;
            model = n.model;
            event_queue = n.event_queue;
            entities = Assoc.insert id ent n.entities;
            entities_idx = name_entity name id n.entities_idx;
          },
          add-made n id prefab name ent (new_entity_same n.model sim prefab same ∙ made),
          get-insert_self id ent n.entities ∙ sym (get-insert_self id ent sim.entities),
        ),
      )
