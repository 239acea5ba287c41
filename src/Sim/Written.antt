-- ===== src/Sim/Written.antt =====
-- The clock and the index of names through the remote commands of a step.
use outcome.Prelude.{ℕ, Bool, true, false, [], ◌∷◌, Option, none, some, string_eq, nat_eq}
use outcome.Prelude.Assoc.{get}
use outcome.Prelude.Result.{Result, ok, err, panic, Ensures, Ensures->>=, Ensures-Option}
use outcome.Std.{Std}
use outcome.Data.{Error, Var, Address}
use outcome.Storage
use outcome.Address.{storage_index}
use outcome.Var.Convert.{coerce}
use outcome.Machine.{MachineError, LocationInfo, empty_location}
use outcome.Machine.Command.{ExtCommand, ExtSet}
use outcome.Machine.Exec.{Ext}
use outcome.Sim.{Sim, set_var, get_var, entity_of, with_storage}
use outcome.Sim.Remote.{
  execute_ext, execute_ext_set, report, located_error, failed, succeeded, finish_set, write_value,
}
use outcome.Sim.Index.{Sound, All-Leads-insert, Sound-logged}

module _ {Pool : Type 0} ⦃std : Std⦄ (time : ℕ) where
  Sound-set_var :
      (sim : Sim Pool) (a : Address) (v : Var)
      → Sound time sim
      → Ensures (Sound time) (set_var sim a v)
  unfolding set_var
  Sound-set_var sim a v (ht, h) = Ensures->>= (Sound time) (entity_of sim a) _ (λ id.
      Ensures-Option (Sound time) id _ _ tt (λ i.
        Ensures-Option (Sound time) (get i sim.entities) _ _ tt (λ ent.
          Ensures->>= (Sound time) (Storage.set_var ent.storage (storage_index a) v) _
            (λ s. (ht, All-Leads-insert sim.entities i (with_storage ent s) sim.entity_idx h)))))

  -- An error is passed on with another location.
  Sound-relocated :
      (r : Result Error (Sim Pool)) (f : Error → MachineError)
      → Ensures (Sound time) r
      → Ensures (Sound time) (elim r [ ok sim ↦ ok sim | err e ↦ err (f e) | panic ↦ panic ])
  Sound-relocated (ok sim) f h = h
  Sound-relocated (err e) f h = tt
  Sound-relocated panic f h = tt

  reported :
      (out : Address) (sim : Sim Pool) (f : Error → MachineError) (r : Result Error Var)
      → Sound time sim
      → Ensures (Sound time) (elim r [
        | err e ↦ err (f e)
        | panic ↦ panic
        | ok v ↦ elim (set_var sim out v) [ ok sim' ↦ ok sim' | err e ↦ err (f e) | panic ↦ panic ]
      ])
  reported out sim f (ok v) h = Sound-relocated (set_var sim out v) f (Sound-set_var sim out v h)
  reported out sim f (err e) h = tt
  reported out sim f panic h = tt

  Sound-report :
      (out : Option Address) (b : Bool) (sim : Sim Pool)
      → Sound time sim
      → Ensures (Sound time) (report out b sim)
  unfolding report
  Sound-report none b sim h = h
  Sound-report (some out) b sim h =
      reported out sim (located_error empty_location) (coerce (Var.bool b) out.var_type) h

  Sound-failed :
      (sim : Sim Pool) (e : MachineError) (r : Result MachineError (Sim Pool))
      → Sound time sim
      → Ensures (Sound time) r
      → Sound time (failed sim e r).0
  Sound-failed sim e (ok sim') h hr = hr
  Sound-failed sim e (err f) h hr = h
  Sound-failed sim e panic h hr = h

  Sound-succeeded :
      (sim : Sim Pool) (r : Result MachineError (Sim Pool))
      → Sound time sim
      → Ensures (Sound time) r
      → Sound time (succeeded sim r).0
  Sound-succeeded sim (ok sim') h hr = hr
  Sound-succeeded sim (err f) h hr = h
  Sound-succeeded sim panic h hr = h

  Sound-finish_set :
      (c : ExtSet) (sim : Sim Pool) (location : LocationInfo) (r : Result Error (Sim Pool))
      → Sound time sim
      → Ensures (Sound time) r
      → Sound time (finish_set c sim location r).0
  unfolding finish_set
  Sound-finish_set c sim location (ok sim') h hr =
      Sound-succeeded sim' (report c.out true sim') hr (Sound-report c.out true sim' hr)
  Sound-finish_set c sim location (err e) h hr =
      Sound-failed sim (located_error location e) (report c.out false sim) h
        (Sound-report c.out false sim h)
  Sound-finish_set c sim location panic h hr = h

  Sound-write_value :
      (c : ExtSet) (sim : Sim Pool) (location : LocationInfo) (r : Result Error Var)
      → Sound time sim
      → Sound time (write_value c sim location r).0
  unfolding write_value
  Sound-write_value c sim location (ok v) h =
      Sound-finish_set c sim location (set_var sim c.target v) h (Sound-set_var sim c.target v h)
  Sound-write_value c sim location (err e) h =
      Sound-failed sim (located_error location e) (report c.out false sim) h
        (Sound-report c.out false sim h)
  Sound-write_value c sim location panic h = h

  pub Sound-execute_ext :
      (cs : Ext) (sim : Sim Pool) → Sound time sim → Ensures (Sound time) (execute_ext cs sim)
  unfolding execute_ext execute_ext_set
  Sound-execute_ext [] sim h = h
  Sound-execute_ext ((ctx, ExtCommand.set c) ∷ cs) sim h =
      Sound-logged time (execute_ext_set c sim ctx.location) (λ sim'. execute_ext cs sim')
        (Sound-write_value c sim ctx.location (get_var sim c.source) h)
        (λ sim'. Sound-execute_ext cs sim')
