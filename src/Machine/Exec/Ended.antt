-- ===== src/Machine/Exec/Ended.antt =====
-- What a frame of an `if` does to the end of a run.
use outcome.Prelude.{
  if◌then◌else◌, ℕ, zero, suc, Bool, true, false, ◌&&◌, leb, List, [], ◌∷◌, Option, none, some,
  get_elem?, ◌≡◌, refl, sym, ◌∙◌, ap, arith, String, ltb, length, Bool-cases, inl, inr,
}
use outcome.Prelude.Result.{
  Result, ok, err, panic, ◌>>=◌, unwrap, Ensures, Ensures->>=, Ensures-then, Ensures-if,
  Ensures-Option, >>=-cong,
}
use outcome.Std.{Std}
use outcome.Storage.{Storage}
use outcome.Model.{SimModel}
use outcome.Machine.{LocationInfo, MachineError, CallInfo}
use outcome.Machine.Command.{
  Command, CommandResult, continue, break, jump_to_line, jump_to_tag, exec_ext, exec_central_ext,
}
use outcome.Machine.Flow.{CallStack, Flow, push}
use outcome.Machine.Execute.{
  Locals, stored, with_stack, execute_at, from_flow, execute, execute_print, component_frame,
}
use outcome.Machine.Exec.{
  Program, Run, Next, again, stop, fail, Ending, no_location, with_locals, at_end, apply_results,
  step, run, round, find_tag, is_empty_stack, at_line,
}
use outcome.Machine.Exec.Frames.{
  has_if, has_if-cons, LeavesIf, LeavesIf-if, LeavesIf-else, LeavesIf-end, LeavesIf-loop,
  LeavesIf-break, LeavesIf-call, LeavesIf-for,
}

abbrev pub EffectKeepsIf : Locals × List CommandResult → Type 0
EffectKeepsIf (l, rs) = has_if l.call_stack ≡ true

abbrev pub has_if_at : Next → Bool
has_if_at (again r) = has_if r.locals.call_stack
has_if_at (stop r) = has_if r.locals.call_stack
has_if_at (fail r e) = has_if r.locals.call_stack

keeps-stored :
    (l : Locals) (r : Result MachineError (Storage × CommandResult))
    → has_if l.call_stack ≡ true
    → Ensures EffectKeepsIf (stored l r)
keeps-stored l (ok done) h = h
keeps-stored l (err e) h = tt
keeps-stored l panic h = tt

keeps-from_flow : (l : Locals) (f : Flow) → LeavesIf f → Ensures EffectKeepsIf (from_flow l f)
keeps-from_flow l (ok done) h = h
keeps-from_flow l (err e) h = tt
keeps-from_flow l panic h = tt

keeps-push :
    (frame : CallInfo) (l : Locals) (rs : List CommandResult)
    → has_if l.call_stack ≡ true
    → Ensures EffectKeepsIf (push frame l.call_stack >>= λ stack. ok (with_stack l stack, rs))
keeps-push frame l rs h = elim (Bool-cases (ltb (length l.call_stack) 32)) [
  | inl e ↦ rw (e) (has_if-cons frame l.call_stack h)
  | inr e ↦ rw (e) tt
]

module _ ⦃std : Std⦄ where
  -- No command takes the last frame of an `if` off the call stack.
  keeps-execute_at :
      (c : Command) (l : Locals) (comp : String) (ent : ℕ) (m : SimModel) (location : LocationInfo)
      (line : ℕ)
      → has_if l.call_stack ≡ true
      → Ensures EffectKeepsIf (execute_at c l comp ent m location line)
  unfolding execute_at
  keeps-execute_at (Command.sim args) l comp ent m location line h = h
  keeps-execute_at (Command.print source) l comp ent m location line h =
      Ensures->>= EffectKeepsIf (execute_print source l.storage) _ (λ r. h)
  keeps-execute_at (Command.print_fmt fmt inserts) l comp ent m location line h = h
  keeps-execute_at (Command.set cmd) l comp ent m location line h = keeps-stored l _ h
  keeps-execute_at (Command.set_int_int_addr cmd) l comp ent m location line h = keeps-stored l _ h
  keeps-execute_at (Command.eval cmd) l comp ent m location line h = keeps-stored l _ h
  keeps-execute_at Command.other l comp ent m location line h = h
  keeps-execute_at (Command.goto s) l comp ent m location line h = h
  keeps-execute_at (Command.jump t) l comp ent m location line h = h
  keeps-execute_at (Command.invoke es) l comp ent m location line h = h
  keeps-execute_at (Command.spawn cmd) l comp ent m location line h = h
  keeps-execute_at (Command.register_event n) l comp ent m location line h = h
  keeps-execute_at (Command.register_entity_prefab cmd) l comp ent m location line h = h
  keeps-execute_at (Command.register_component cmd) l comp ent m location line h = h
  keeps-execute_at (Command.register_trigger cmd) l comp ent m location line h = h
  keeps-execute_at (Command.register_var cmd) l comp ent m location line h = h
  keeps-execute_at (Command.extend cmd) l comp ent m location line h = h
  keeps-execute_at (Command.state cmd) l comp ent m location line h = h
  keeps-execute_at (Command.component cmd) l comp ent m location line h =
      keeps-push (component_frame cmd) l _ h
  keeps-execute_at (Command.if_ cmd) l comp ent m location line h =
      keeps-from_flow l _ (LeavesIf-if cmd l.call_stack l.storage comp h)
  keeps-execute_at Command.else_ l comp ent m location line h =
      keeps-from_flow l _ (LeavesIf-else l.call_stack l.storage location h)
  keeps-execute_at Command.end l comp ent m location line h =
      keeps-from_flow l _ (LeavesIf-end l.call_stack l.storage location h)
  keeps-execute_at (Command.call name) l comp ent m location line h =
      keeps-from_flow l _ (LeavesIf-call name l.call_stack l.storage line m comp location h)
  keeps-execute_at (Command.for_in cmd) l comp ent m location line h =
      keeps-from_flow l _ (LeavesIf-for cmd l.call_stack comp l.storage location h)
  keeps-execute_at (Command.loop cmd) l comp ent m location line h =
      keeps-from_flow l _ (LeavesIf-loop cmd l.call_stack l.storage h)
  keeps-execute_at Command.break l comp ent m location line h =
      keeps-from_flow l _ (LeavesIf-break l.call_stack l.storage location h)
  keeps-execute_at (Command.procedure cmd) l comp ent m location line h = h
  keeps-execute_at (Command.range cmd) l comp ent m location line h = keeps-stored l _ h

  keeps-execute :
      (c : Command) (l : Locals) (comp : String) (ent : ℕ) (m : SimModel) (location : LocationInfo)
      → has_if l.call_stack ≡ true
      → Ensures EffectKeepsIf (execute c l comp ent m location)
  unfolding execute
  keeps-execute c l comp ent m location h =
      Ensures->>= EffectKeepsIf (unwrap location.line) _
        (λ line. keeps-execute_at c l comp ent m location line h)

keeps-apply_results :
    (p : Program) (location : LocationInfo) (rs : List CommandResult) (r : Run)
    → has_if r.locals.call_stack ≡ true
    → has_if_at (apply_results p location rs r) ≡ true
unfolding apply_results
keeps-apply_results p location [] r h = h
keeps-apply_results p location (continue ∷ rs) r h = keeps-apply_results p location rs r h
keeps-apply_results p location (break ∷ rs) r h = h
keeps-apply_results p location (jump_to_line n ∷ rs) r h = h
keeps-apply_results p location (jump_to_tag t ∷ rs) r h =
    elim (find_tag t 0 p.locations)
      as (λ x.
        has_if_at
          (elim x [ some line ↦ again (at_line r line) | none ↦ apply_results p location rs r ])
        ≡ true) [ some line ↦ h | none ↦ keeps-apply_results p location rs r h ]
keeps-apply_results p location (exec_ext c ∷ rs) r h = keeps-apply_results p location rs _ h
keeps-apply_results p location (exec_central_ext c ∷ rs) r h = keeps-apply_results p location rs _ h
keeps-apply_results p location (CommandResult.err e ∷ rs) r h =
    keeps-apply_results p location rs r h

option_cong {ℓ κ} :
    {A : Type ℓ} {B : Type κ} (o : Option A) (x : B) (f g : A → B)
    → ((a : A) → f a ≡ g a)
    → (elim o [ none ↦ x | some a ↦ f a ]) ≡ (elim o [ none ↦ x | some a ↦ g a ])
option_cong none x f g h = refl
option_cong (some a) x f g h = h a

abbrev pub without_end : Program → Program
without_end p = record {
  cmds = p.cmds;
  locations = p.locations;
  ent_uid = p.ent_uid;
  comp_uid = p.comp_uid;
  sim_model = p.sim_model;
  end = none;
}

at_end_of :
    (end : Option ℕ) (n : ℕ) (stack : CallStack)
    → has_if stack ≡ true
    → (elim end [ none ↦ false | some e ↦ is_empty_stack stack && leb e n ]) ≡ false
at_end_of none n stack h = refl
at_end_of (some e) n [] h = absurd (ground arith)
at_end_of (some e) n (f ∷ stack) h = refl

at_end-has_if : (p : Program) (r : Run) → has_if r.locals.call_stack ≡ true → at_end p r ≡ false
at_end-has_if p r h = at_end_of p.end r.cmd_n r.locals.call_stack h

apply_results-without_end :
    (p : Program) (location : LocationInfo) (rs : List CommandResult) (r : Run)
    → apply_results (without_end p) location rs r ≡ apply_results p location rs r
unfolding apply_results
apply_results-without_end p location [] r = refl
apply_results-without_end p location (continue ∷ rs) r = apply_results-without_end p location rs r
apply_results-without_end p location (break ∷ rs) r = refl
apply_results-without_end p location (jump_to_line n ∷ rs) r = refl
apply_results-without_end p location (jump_to_tag t ∷ rs) r =
    ap (λ n. elim (find_tag t 0 p.locations) [ some line ↦ again (at_line r line) | none ↦ n ])
      (apply_results-without_end p location rs r)
apply_results-without_end p location (exec_ext c ∷ rs) r = apply_results-without_end p location rs _
apply_results-without_end p location (exec_central_ext c ∷ rs) r =
    apply_results-without_end p location rs _
apply_results-without_end p location (CommandResult.err e ∷ rs) r =
    apply_results-without_end p location rs r

module _ ⦃std : Std⦄ where
  round-without_end :
      (p : Program) (r : Run) (c : Command) → round (without_end p) r c ≡ round p r c
  unfolding round
  round-without_end p r c = option_cong (get_elem? p.locations r.cmd_n) _ _ _ (λ location.
      >>=-cong (execute c r.locals p.comp_uid p.ent_uid p.sim_model location) _ _
        (λ done. ap ok (apply_results-without_end p location done.1 (with_locals r done.0))))

  step-without_end :
      (p : Program) (r : Run)
      → has_if r.locals.call_stack ≡ true
      → step (without_end p) r ≡ step p r
  unfolding step
  step-without_end p r h = option_cong (get_elem? p.cmds r.cmd_n) (ok (stop r)) _ _ (λ c.
      round-without_end p r c
      ∙ sym (ap (λ b. if b then ok (stop r) else round p r c) (at_end-has_if p r h)))

  step-KeepsIf :
      (p : Program) (r : Run)
      → has_if r.locals.call_stack ≡ true
      → Ensures (λ n. has_if_at n ≡ true) (step p r)
  unfolding step round
  step-KeepsIf p r h = Ensures-Option _ (get_elem? p.cmds r.cmd_n) (ok (stop r)) _ h (λ c.
      Ensures-if _ (at_end p r) (ok (stop r)) _ h (
        Ensures-Option _ (get_elem? p.locations r.cmd_n) (ok (fail r no_location)) _ h (λ location.
          Ensures-then EffectKeepsIf _
            (execute c r.locals p.comp_uid p.ent_uid p.sim_model location) _
            (keeps-execute c r.locals p.comp_uid p.ent_uid p.sim_model location h)
            (λ done kept. keeps-apply_results p location done.1 (with_locals r done.0) kept))))

  -- What `run` makes of the answer of a round.
  abbrev pub run_on : ℕ → Program → Result MachineError Next → Option (Result MachineError Ending)
  run_on fuel p x = elim x [
    | ok next ↦ elim next [
      | again r' ↦ run fuel p r'
      | stop r' ↦ some (ok (r', none))
      | fail r' e ↦ some (ok (r', some e))
    ]
    | err e ↦ some (err e)
    | panic ↦ some panic
  ]

  run_on-cong :
      (fuel : ℕ) (p q : Program) (x : Result MachineError Next)
      → ((r : Run) → has_if r.locals.call_stack ≡ true → run fuel p r ≡ run fuel q r)
      → Ensures (λ n. has_if_at n ≡ true) x
      → run_on fuel p x ≡ run_on fuel q x
  run_on-cong fuel p q (ok (again r)) same h = same r h
  run_on-cong fuel p q (ok (stop r)) same h = refl
  run_on-cong fuel p q (ok (fail r e)) same h = refl
  run_on-cong fuel p q (err e) same h = refl
  run_on-cong fuel p q panic same h = refl

  -- From a state whose call stack holds a frame of an `if`, a run is the run without an end of the state.
  pub run-without_end :
      (fuel : ℕ) (p : Program) (r : Run)
      → has_if r.locals.call_stack ≡ true
      → run fuel (without_end p) r ≡ run fuel p r
  unfolding run
  run-without_end zero p r h = refl
  run-without_end (suc fuel) p r h =
      ap (run_on fuel (without_end p)) (step-without_end p r h)
      ∙ run_on-cong fuel (without_end p) p (step p r) (run-without_end fuel p) (step-KeepsIf p r h)
