-- ===== src/Sim/Access.antt =====
-- Reading a variable of a simulation after writing one.
use outcome.Prelude.{
  ℕ, Option, none, some, string_eq, nat_eq, pair_eq, ◌≡◌, refl, ◌∙◌, ap, arith, eq_self,
  if◌then◌else◌,
}
use outcome.Prelude.Assoc
use outcome.Prelude.Assoc.{Assoc, get-insert, get-insert_self}
use outcome.Prelude.Result.{Result, ok, err, panic}
use outcome.Std.{Std}
use outcome.Data.{Error, Var, Address}
use outcome.Address.{storage_index}
use outcome.Entity.{Entity}
use outcome.Storage
use outcome.Storage.Laws.{get_var-set_var}
use outcome.Sim.{Sim, entity_of, get_var, set_var, with_entities, with_storage}

module _ {Pool : Type 0} ⦃std : Std⦄ where
  -- The same where the entity is known.
  known :
      (sim : Sim Pool) (a : Address) (v w : Var) (i : ℕ) (ent : Entity)
      → entity_of sim a ≡ ok (some i)
      → Assoc.get i sim.entities ≡ some ent
      → Storage.get_var ent.storage (storage_index a) ≡ ok w
      → (sim' : Sim Pool) × (set_var sim a v ≡ ok sim') × (get_var sim' a ≡ ok v)
  unfolding get_var set_var entity_of
  known sim a v w i ent hi he hw =
      let (s, hs, hr) = get_var-set_var ent.storage (storage_index a) (storage_index a) v w hw in
      let read : Storage.get_var s (storage_index a) ≡ ok v =
        hr
        ∙ ap (λ b. if b then ok v else Storage.get_var ent.storage (storage_index a))
            (eq_self (storage_index a)) in
      (
        with_entities sim (Assoc.insert i (with_storage ent s) sim.entities),
        ground arith,
        ground (arith, get-insert_self i (with_storage ent s) sim.entities),
      )

  in_entity :
      (sim : Sim Pool) (a : Address) (v w : Var) (i : ℕ) (o : Option Entity)
      → entity_of sim a ≡ ok (some i)
      → Assoc.get i sim.entities ≡ o
      → get_var sim a ≡ ok w
      → (sim' : Sim Pool) × (set_var sim a v ≡ ok sim') × (get_var sim' a ≡ ok v)
  unfolding get_var
  in_entity sim a v w i none hi he h = absurd (ground arith)
  in_entity sim a v w i (some ent) hi he h = known sim a v w i ent hi he (ground arith)

  at_address :
      (sim : Sim Pool) (a : Address) (v w : Var) (r : Result Error (Option ℕ))
      → entity_of sim a ≡ r
      → get_var sim a ≡ ok w
      → (sim' : Sim Pool) × (set_var sim a v ≡ ok sim') × (get_var sim' a ≡ ok v)
  unfolding get_var
  at_address sim a v w (ok none) hr h = absurd (ground arith)
  at_address sim a v w (ok (some i)) hr h =
      in_entity sim a v w i (Assoc.get i sim.entities) hr refl h
  at_address sim a v w (err e) hr h = absurd (ground arith)
  at_address sim a v w panic hr h = absurd (ground arith)

  -- A variable that can be read can be written, and then reads as what was written.
  pub get_var-set_var_sim :
      (sim : Sim Pool) (a : Address) (v w : Var)
      → get_var sim a ≡ ok w
      → (sim' : Sim Pool) × (set_var sim a v ≡ ok sim') × (get_var sim' a ≡ ok v)
  get_var-set_var_sim sim a v w h = at_address sim a v w (entity_of sim a) refl h
