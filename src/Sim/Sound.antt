-- ===== src/Sim/Sound.antt =====
-- The clock, the event queue and the index of names after a step.
use outcome.Prelude.{
  ℕ, ◌+◌, ◌%◌, ◌^◌, String, true, List, [], ◌∷◌, Option, none, some, contains, string_eq, nat_eq,
  ◌==◌, ◌≡◌, refl, ◌∙◌, ap, arith, All, Bool-cases, inl, inr,
}
use mathlib.Core.Path.{subst}
use outcome.Sim.Spawn.{contains-append}
use outcome.Prelude.Assoc.{Assoc, get}
use outcome.Prelude.Result.{ok, err, panic, Ensures, Ensures-then}
use outcome.Std.{Std}
use outcome.Entity.{Entity}
use outcome.Model.{SimModel}
use outcome.Machine.Command.{Extend}
use outcome.Machine.Exec.{Ext, Central}
use outcome.Sim.{Sim, with_entities, with_events}
use outcome.Sim.Remote.{Remote, execute_ext}
use outcome.Sim.Step.{Work, and_then, step_entity_local, step_entities, with_step, post_phase, step}
use outcome.Sim.Index.{is_some, Leads, IsIndexed, Sound, Sound-execute_central_ext}
use outcome.Sim.Written.{Sound-execute_ext}

-- The answer, where the fuel is enough and nothing panics, satisfies the predicate.
abbrev pub Yields {ℓ κ} : {A : Type ℓ} → (A → Type κ) → Work A → Type κ
Yields P none = Unit
Yields P (some r) = Ensures P r

Yields-and_then {ℓ κ μ ν} :
    {A : Type ℓ} {B : Type κ} (Q : A → Type μ) (P : B → Type ν) (w : Work A) (k : A → Work B)
    → Yields Q w
    → ((a : A) → Q a → Yields P (k a))
    → Yields P (and_then w k)
Yields-and_then Q P none k h more = tt
Yields-and_then Q P (some (ok a)) k h more = more a h
Yields-and_then Q P (some (err e)) k h more = tt
Yields-and_then Q P (some panic) k h more = tt

Yields-answer {ℓ κ} :
    {A : Type ℓ} (P : A → Type κ) (w : Work A) (a : A) → w ≡ some (ok a) → Yields P w → P a
Yields-answer P w a h y = subst (λ x. Yields P x) h y

Yields-anything {ℓ} : {A : Type ℓ} (w : Work A) → Yields (λ (a : A). Unit {0}) w
Yields-anything none = tt
Yields-anything (some (ok a)) = tt
Yields-anything (some (err e)) = tt
Yields-anything (some panic) = tt

is_some-put :
    (id i : ℕ) (x y : Entity) (m n : Assoc ℕ Entity)
    → is_some (get i n) ≡ is_some (get i m)
    → is_some (get i ((id, y) ∷ n)) ≡ is_some (get i ((id, x) ∷ m))
unfolding get
is_some-put id i x y m n h = elim (Bool-cases (id == i)) [ inl e ↦ rw (e) refl | inr e ↦ rw (e) h ]

All-Leads-same :
    (ents ents' : Assoc ℕ Entity) (idx : Assoc String ℕ)
    → ((i : ℕ) → is_some (get i ents') ≡ is_some (get i ents))
    → All (Leads ents) idx
    → All (Leads ents') idx
All-Leads-same ents ents' [] same h = h
All-Leads-same ents ents' ((n, id) ∷ idx) same (hk, h) =
    (same id ∙ hk, All-Leads-same ents ents' idx same h)

contains-with_step : (queue : List String) → contains (with_step queue) "step" ≡ true
contains-with_step queue = elim (Bool-cases (contains queue "step")) [
  | inl e ↦ rw (e) e
  | inr e ↦ rw (e, contains-append queue ("step" ∷ []) "step") (ground arith)
]

module _ ⦃std : Std⦄ where
  -- The local phase keeps the ids.
  same_ids :
      (fuel : ℕ) (model : SimModel) (queue : List String) (ents : Assoc ℕ Entity) (ext : Ext)
      (central : Central)
      → Yields
          (λ (r : Assoc ℕ Entity × Ext × Central).
            (i : ℕ) → is_some (get i r.0) ≡ is_some (get i ents))
          (step_entities fuel model queue ents ext central)
  unfolding step_entities get
  same_ids fuel model queue [] ext central = λ i. refl
  same_ids fuel model queue ((id, ent) ∷ ents) ext central =
      Yields-and_then (λ done. Unit {0}) _
        (step_entity_local fuel model id queue
          (record { entity = ent; ext_cmds = ext; central_ext_cmds = central }))
        _ (Yields-anything _)
        (λ done _.
          Yields-and_then
            (λ (r : Assoc ℕ Entity × Ext × Central).
              (i : ℕ) → is_some (get i r.0) ≡ is_some (get i ents))
            _ (step_entities fuel model queue ents done.0.ext_cmds done.0.central_ext_cmds) _
            (same_ids fuel model queue ents done.0.ext_cmds done.0.central_ext_cmds)
            (λ rest same i. is_some-put id i ent done.0.entity ents rest.0 (same i)))

  module _ {Pool : Type 0} (request_id : Pool → Option (ℕ × Pool))
      (extend : Extend → Sim Pool → ℕ → Remote Pool) where
    Sound-post_phase :
        (time : ℕ) (sim : Sim Pool) (ext : Ext) (central : Central)
        → ((c : Extend) (sim : Sim Pool) (ent : ℕ)
            → Sound time sim
            → Sound time (extend c sim ent).0)
        → Sound time sim
        → Ensures (Sound time) (post_phase request_id extend sim ext central)
    unfolding post_phase
    Sound-post_phase time sim ext central he h =
        Ensures-then (Sound time) (Sound time) (execute_ext ext sim) _
          (Sound-execute_ext time ext sim h)
          (λ sim' h'. Sound-execute_central_ext request_id extend time central sim' he h')

    -- What a step comes to.
    abbrev pub Ticked : Sim Pool → Sim Pool → Type 0
    Ticked sim sim' =
        (sim'.clock ≡ (sim.clock + 1) % 2 ^ 64)
        × (contains sim'.event_queue "step" ≡ true)
        × IsIndexed sim'

    pub Ticked-step :
        (fuel : ℕ) (sim : Sim Pool)
        → ((c : Extend) (s : Sim Pool) (ent : ℕ)
            → Sound sim.clock s
            → Sound sim.clock (extend c s ent).0)
        → IsIndexed sim
        → Yields (Ticked sim) (step request_id extend fuel sim)
    unfolding step
    Ticked-step fuel sim he h =
        Yields-and_then
          (λ (r : Assoc ℕ Entity × Ext × Central).
            (i : ℕ) → is_some (get i r.0) ≡ is_some (get i sim.entities))
          (Ticked sim) (step_entities fuel sim.model (with_step sim.event_queue) sim.entities [] [])
          _ (same_ids fuel sim.model (with_step sim.event_queue) sim.entities [] [])
          (λ done same.
            Yields-and_then (Sound sim.clock) (Ticked sim)
              (some (
                post_phase request_id extend (with_entities (with_events sim []) done.0) done.1
                  done.2))
              _
              (Sound-post_phase sim.clock (with_entities (with_events sim []) done.0) done.1 done.2
                he (refl, All-Leads-same sim.entities done.0 sim.entity_idx same h))
              (λ sim' sound.
                (ap (λ t. (t + 1) % 2 ^ 64) sound.0, contains-with_step sim'.event_queue, sound.1)))

    -- After a step that ends without a panic the clock is one further, wrapping at 64 bits, the event
    -- "step" is queued, and every name in the index leads to an entity, if so it was before. It is supposed
    -- that `extend` keeps the clock and the index.
    pub IsIndexed-step :
        (fuel : ℕ) (sim sim' : Sim Pool)
        → ((c : Extend) (s : Sim Pool) (ent : ℕ)
            → Sound sim.clock s
            → Sound sim.clock (extend c s ent).0)
        → IsIndexed sim
        → step request_id extend fuel sim ≡ some (ok sim')
        → (sim'.clock ≡ (sim.clock + 1) % 2 ^ 64)
          × (contains sim'.event_queue "step" ≡ true)
          × IsIndexed sim'
    IsIndexed-step fuel sim sim' he h hs =
        Yields-answer (Ticked sim) (step request_id extend fuel sim) sim' hs
          (Ticked-step fuel sim he h)
