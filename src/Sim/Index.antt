-- ===== src/Sim/Index.antt =====
-- The index of entity names over all that a step does.
use outcome.Prelude.{
  ℕ, String, Bool, true, false, [], ◌∷◌, Option, none, some, string_eq, nat_eq, ◌==◌, ◌≡◌, refl,
  arith, All, Bool-cases, inl, inr,
}
use outcome.Prelude.Assoc
use outcome.Prelude.Assoc.{Assoc, get, insert, get-insert}
use outcome.Prelude.Result.{Result, ok, err, panic, Ensures}
use outcome.Data.{Error}
use outcome.Entity.{Entity}
use outcome.Model.{SimModel}
use outcome.Machine.{MachineError}
use outcome.Machine.Command.{CentralRemoteCommand, Extend}
use outcome.Machine.Exec.{Central}
use outcome.Sim.{Sim, spawn_entity, new_entity, insert_named, insert_entity}
use outcome.Sim.Remote.{
  Remote, execute_central, execute_central_ext, logged, remodelled, spawned, add_component,
}

abbrev pub is_some {ℓ} : {A : Type ℓ} → Option A → Bool
is_some none = false
is_some (some a) = true

-- The entry of the index leads to an entity.
abbrev pub Leads : Assoc ℕ Entity → String × ℕ → Type 0
Leads ents (name, id) = is_some (get id ents) ≡ true

-- Every name in the index leads to an entity.
abbrev pub IsIndexed : {Pool : Type 0} → Sim Pool → Type 0
IsIndexed sim = All (Leads sim.entities) sim.entity_idx

Leads-insert :
    (ents : Assoc ℕ Entity) (i : ℕ) (ent : Entity) (e : String × ℕ)
    → Leads ents e
    → Leads (insert i ent ents) e
Leads-insert ents i ent (n, id) h = elim (Bool-cases (i == id)) [
  | inl e ↦ rw (get-insert, e) refl
  | inr e ↦ rw (get-insert, e) h
]

Leads-insert_self :
    (ents : Assoc ℕ Entity) (i : ℕ) (ent : Entity) (n : String) → Leads (insert i ent ents) (n, i)
Leads-insert_self ents i ent n = let e : (i == i) ≡ true = ground arith in rw (get-insert, e) refl

pub All-Leads-insert :
    (ents : Assoc ℕ Entity) (i : ℕ) (ent : Entity) (idx : Assoc String ℕ)
    → All (Leads ents) idx
    → All (Leads (insert i ent ents)) idx
All-Leads-insert ents i ent [] h = h
All-Leads-insert ents i ent (e ∷ idx) (he, h) =
    (Leads-insert ents i ent e he, All-Leads-insert ents i ent idx h)

All-insert :
    (P : String × ℕ → Type 0) (n : String) (id : ℕ) (idx : Assoc String ℕ)
    → All P idx
    → P (n, id)
    → All P (insert n id idx)
unfolding insert
All-insert P n id [] h p = (p, tt)
All-insert P n id ((k, j) ∷ idx) (hk, h) p = elim (Bool-cases (k == n)) [
  | inl e ↦ rw (e) (p, h)
  | inr e ↦ rw (e) (hk, All-insert P n id idx h p)
]

module _ {Pool : Type 0} where
  -- The clock shows the time, and the index is sound.
  abbrev pub Sound : ℕ → Sim Pool → Type 0
  Sound time sim = (sim.clock ≡ time) × IsIndexed sim

  Sound-insert_named :
      (time : ℕ) (sim : Sim Pool) (ent : Entity) (id : ℕ) (pool : Pool) (n : String)
      (taken : Option ℕ)
      → Sound time sim
      → Sound time (insert_named sim ent id pool n taken).0
  unfolding insert_named
  Sound-insert_named time sim ent id pool n (some taken) h = h
  Sound-insert_named time sim ent id pool n none (ht, h) = (
    ht,
    All-insert (Leads (insert id ent sim.entities)) n id sim.entity_idx
        (All-Leads-insert sim.entities id ent sim.entity_idx h)
        (Leads-insert_self sim.entities id ent n),
  )

  Sound-insert_entity :
      (time : ℕ) (sim : Sim Pool) (name : Option String) (ent : Result Error Entity)
      (request : Option (ℕ × Pool))
      → Sound time sim
      → Sound time (insert_entity sim name ent request).0
  unfolding insert_entity
  Sound-insert_entity time sim name (err e) request h = h
  Sound-insert_entity time sim name panic request h = h
  Sound-insert_entity time sim name (ok ent) none h = h
  Sound-insert_entity time sim none (ok ent) (some (id, pool)) (ht, h) =
      (ht, All-Leads-insert sim.entities id ent sim.entity_idx h)
  Sound-insert_entity time sim (some n) (ok ent) (some (id, pool)) h =
      Sound-insert_named time sim ent id pool n (Assoc.get n sim.entity_idx) h

  -- Spawning an entity keeps the index sound, whether it succeeds or not, and leaves the clock.
  pub Sound-spawn_entity :
      (request_id : Pool → Option (ℕ × Pool)) (time : ℕ) (sim : Sim Pool)
      (prefab name : Option String)
      → Sound time sim
      → Sound time (spawn_entity request_id sim prefab name).0
  unfolding spawn_entity
  Sound-spawn_entity request_id time sim prefab name h =
      Sound-insert_entity time sim name (new_entity sim prefab) (request_id sim.entity_pool) h

  -- A queue goes on with a sound simulation.
  pub Sound-logged :
      (time : ℕ) (r : Remote Pool) (k : Sim Pool → Result MachineError (Sim Pool))
      → Sound time r.0
      → ((sim : Sim Pool) → Sound time sim → Ensures (Sound time) (k sim))
      → Ensures (Sound time) (logged r k)
  Sound-logged time (sim, ok x) k h more = more sim h
  Sound-logged time (sim, err e) k h more = more sim h
  Sound-logged time (sim, panic) k h more = tt

  module _ (request_id : Pool → Option (ℕ × Pool)) (extend : Extend → Sim Pool → ℕ → Remote Pool)
      (time : ℕ) where
    Sound-remodelled :
        (sim : Sim Pool) (m : Result MachineError SimModel)
        → Sound time sim
        → Sound time (remodelled request_id extend sim m).0
    Sound-remodelled sim (ok m) h = h
    Sound-remodelled sim (err e) h = h
    Sound-remodelled sim panic h = h

    Sound-spawned :
        (r : Sim Pool × Result Error ℕ)
        → Sound time r.0
        → Sound time (spawned request_id extend r).0
    Sound-spawned (sim, ok id) h = h
    Sound-spawned (sim, err e) h = h
    Sound-spawned (sim, panic) h = h

    Sound-execute_central :
        (c : CentralRemoteCommand) (sim : Sim Pool) (ent : ℕ) (comp : String)
        → ((c : Extend) (sim : Sim Pool) (ent : ℕ)
            → Sound time sim
            → Sound time (extend c sim ent).0)
        → Sound time sim
        → Sound time (execute_central request_id extend c sim ent comp).0
    unfolding execute_central
    Sound-execute_central (CentralRemoteCommand.sim []) sim ent comp he h = h
    Sound-execute_central (CentralRemoteCommand.sim (arg ∷ args)) sim ent comp he h = h
    Sound-execute_central (CentralRemoteCommand.spawn c) sim ent comp he h =
        Sound-spawned (spawn_entity request_id sim c.prefab c.spawn_id)
          (Sound-spawn_entity request_id time sim c.prefab c.spawn_id h)
    Sound-execute_central (CentralRemoteCommand.extend c) sim ent comp he h = he c sim ent h
    Sound-execute_central (CentralRemoteCommand.component c) sim ent comp he h =
        Sound-remodelled sim (add_component c sim.model) h
    Sound-execute_central _ sim ent comp he h = h

    pub Sound-execute_central_ext :
        (cs : Central) (sim : Sim Pool)
        → ((c : Extend) (sim : Sim Pool) (ent : ℕ)
            → Sound time sim
            → Sound time (extend c sim ent).0)
        → Sound time sim
        → Ensures (Sound time) (execute_central_ext request_id extend cs sim)
    unfolding execute_central_ext
    Sound-execute_central_ext [] sim he h = h
    Sound-execute_central_ext ((ctx, c) ∷ cs) sim he h =
        Sound-logged time (execute_central request_id extend c sim ctx.ent ctx.comp)
          (λ sim'. execute_central_ext request_id extend cs sim')
          (Sound-execute_central c sim ctx.ent ctx.comp he h)
          (λ sim'. Sound-execute_central_ext cs sim' he)
