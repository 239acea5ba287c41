-- ===== src/Sim/Spawn.antt =====
-- What spawning an entity and invoking events do to a simulation.
use outcome.Prelude.{
  ℕ, String, Bool, true, false, not, ◌&&◌, ◌||◌, List, [], ◌∷◌, ◌++◌, Option, none, some, contains,
  string_eq, nat_eq, ◌==◌, ◌≡◌, refl, ap, ◌∙◌, arith, eq_iff, if◌then◌else◌, Bool-cases, inl, inr,
}
use outcome.Prelude.Assoc
use outcome.Prelude.Assoc.{Assoc, get-insert, get-insert_self}
use outcome.Prelude.Result.{ok, err}
use outcome.Data.{other}
use outcome.Entity.{Entity, from_prefab_name}
use outcome.Sim.{
  Sim, spawn_entity, new_entity, with_pool, with_index, with_entities, get_entity_by_name,
}
use outcome.Sim.Remote.{invoke_all}

module _ {Pool : Type 0} (request_id : Pool → Option (ℕ × Pool)) where
  -- An entity that is spawned under a name that is not taken is found by that name, with the id that the pool
  -- gave; the other names lead to the ids that they led to.
  pub get_entity_by_name-spawn_entity :
      (sim : Sim Pool) (prefab : Option String) (n k : String) (ent : Entity) (id : ℕ) (pool : Pool)
      → new_entity sim prefab ≡ ok ent
      → request_id sim.entity_pool ≡ some (id, pool)
      → Assoc.get n sim.entity_idx ≡ none
      → (sim' : Sim Pool) × (spawn_entity request_id sim prefab (some n) ≡ (sim', ok id))
        × (get_entity_by_name sim' n ≡ ok ent)
        × (Assoc.get k sim'.entity_idx ≡ (if n == k then some id else Assoc.get k sim.entity_idx))
  unfolding spawn_entity
  get_entity_by_name-spawn_entity sim prefab n k ent id pool he hp hn = (
    with_entities (with_index (with_pool sim pool) (Assoc.insert n id sim.entity_idx))
        (Assoc.insert id ent sim.entities),
    ground arith,
    ground (arith, get-insert_self n id sim.entity_idx, get-insert_self id ent sim.entities),
    get-insert n k id sim.entity_idx,
  )

  model_only :
      (sim sim' : Sim Pool) (prefab : Option String)
      → sim'.model ≡ sim.model
      → new_entity sim' prefab ≡ new_entity sim prefab
  model_only sim sim' none e = refl
  model_only sim sim' (some p) e = ap (from_prefab_name p) e

  -- The attempt to spawn under a name that is taken.
  refused :
      (sim : Sim Pool) (prefab : Option String) (n : String) (ent : Entity) (id taken : ℕ)
      (pool : Pool)
      → new_entity sim prefab ≡ ok ent
      → request_id sim.entity_pool ≡ some (id, pool)
      → Assoc.get n sim.entity_idx ≡ some taken
      → spawn_entity request_id sim prefab (some n)
        ≡ (with_pool sim pool, err (other "Failed to add entity"))
  unfolding spawn_entity
  refused sim prefab n ent id taken pool he hp hn = ground arith

  -- Once an entity is spawned under a free name, a second attempt under the same name fails, whatever its prefab
  -- is: the entity is still found by the name, with the id of the first attempt, nothing but the pool has
  -- changed, and the id that the pool gave for the second attempt is gone from it. It is supposed that the
  -- prefabs are known and that the pool has an id for each attempt.
  pub spawn_entity-twice :
      (sim : Sim Pool) (prefab prefab' : Option String) (n : String) (ent ent' : Entity)
      (id next : ℕ) (pool pool' : Pool)
      → new_entity sim prefab ≡ ok ent
      → new_entity sim prefab' ≡ ok ent'
      → request_id sim.entity_pool ≡ some (id, pool)
      → request_id pool ≡ some (next, pool')
      → Assoc.get n sim.entity_idx ≡ none
      → (sim' : Sim Pool) × (spawn_entity request_id sim prefab (some n) ≡ (sim', ok id))
        × (spawn_entity request_id sim' prefab' (some n)
            ≡ (with_pool sim' pool', err (other "Failed to add entity")))
        × (get_entity_by_name (with_pool sim' pool') n ≡ ok ent)
        × (Assoc.get n sim'.entity_idx ≡ some id)
  unfolding spawn_entity
  spawn_entity-twice sim prefab prefab' n ent ent' id next pool pool' he he' first second free =
      let sim' =
        with_entities (with_index (with_pool sim pool) (Assoc.insert n id sim.entity_idx))
          (Assoc.insert id ent sim.entities) in
      (
        sim',
        ground arith,
        refused sim' prefab' n ent' next id pool' (model_only sim sim' prefab' refl ∙ he') second
            (get-insert_self n id sim.entity_idx),
        ground (arith, get-insert_self n id sim.entity_idx, get-insert_self id ent sim.entities),
        get-insert_self n id sim.entity_idx,
      )

-- Every event once.
abbrev pub distinct : List String → Bool
distinct [] = true
distinct (e ∷ es) = not (contains es e) && distinct es

pub contains-append :
    (xs ys : List String) (e : String) → contains (xs ++ ys) e ≡ (contains xs e || contains ys e)
contains-append [] ys e = refl
contains-append (x ∷ xs) ys e = ground (arith, contains-append xs ys e)

distinct-append :
    (xs : List String) (e : String)
    → contains xs e ≡ false
    → distinct (xs ++ (e ∷ [])) ≡ distinct xs
distinct-append [] e h = refl
distinct-append (x ∷ xs) e h =
    ground (arith, contains-append xs (e ∷ []) x, distinct-append xs e, eq_iff x e, eq_iff e x)

contains-invoke_all :
    (es queue : List String) (e : String)
    → contains (invoke_all es queue) e ≡ (contains queue e || contains es e)
unfolding invoke_all
contains-invoke_all [] queue e = ground arith
contains-invoke_all (x ∷ es) queue e = elim (Bool-cases (contains queue x)) [
  | inl h ↦ ground (arith, contains-invoke_all es queue e, eq_iff x e)
  | inr h ↦
      ground (arith, contains-invoke_all es (queue ++ (x ∷ [])) e, contains-append queue (x ∷ []) e)
]

distinct-invoke_all :
    (es queue : List String) → distinct queue ≡ true → distinct (invoke_all es queue) ≡ true
unfolding invoke_all
distinct-invoke_all [] queue h = h
distinct-invoke_all (e ∷ es) queue h = elim (Bool-cases (contains queue e)) [
  | inl c ↦ ground (arith, distinct-invoke_all es queue h)
  | inr c ↦
      ground (arith, distinct-invoke_all es (queue ++ (e ∷ [])) (distinct-append queue e c ∙ h))
]

-- Invoking events leaves in a queue without duplicates what was there and each of the events, and no
-- duplicate.
pub invoke_all-queue :
    (es queue : List String) (e : String)
    → distinct queue ≡ true
    → (distinct (invoke_all es queue) ≡ true)
      × (contains (invoke_all es queue) e ≡ (contains queue e || contains es e))
invoke_all-queue es queue e h = (distinct-invoke_all es queue h, contains-invoke_all es queue e)
