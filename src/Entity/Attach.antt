-- ===== src/Entity/Attach.antt =====
-- What attaching a component gives an entity.
use outcome.Prelude.{
  String, Bool, true, false, ◌||◌, List, [], ◌∷◌, ◌++◌, some, find, contains, string_eq, pair_eq,
  ◌==◌, ◌≡◌, refl, ◌∙◌, ap, arith, eq_iff, eq_self, inl, inr, Bool-cases,
}
use outcome.Prelude.Assoc
use outcome.Prelude.Assoc.{get-insert, get-insert_self}
use outcome.Prelude.Result.{Result, ok, err, panic}
use outcome.Data.{Var}
use outcome.Storage.{Storage, get_var, insert}
use outcome.Storage.Laws.{get_var-insert}
use outcome.Model.{VarModel, ComponentModel, SimModel, get_component}
use outcome.Entity.{Entity, attach, insert_vars, queue_triggers, var_names, initial}

-- The component's variables are readable after they are inserted; those of the others read as before.
get_var-insert_vars_other :
    (comp : String) (ms : List VarModel) (s : Storage) (c n : String)
    → (comp == c) ≡ false
    → get_var (insert_vars comp ms s) (c, n) ≡ get_var s (c, n)
unfolding insert_vars
get_var-insert_vars_other comp [] s c n h = refl
get_var-insert_vars_other comp (m ∷ ms) s c n h =
    get_var-insert_vars_other comp ms (insert s (comp, m.name) (initial m)) c n h
    ∙ rw (get_var-insert, h) refl

abbrev pub is_ok {ℓ κ} : {E : Type ℓ} {A : Type κ} → Result E A → Bool
is_ok (ok a) = true
is_ok (err e) = false
is_ok panic = false

is_ok-insert :
    (s : Storage) (comp m n : String) (v : Var)
    → is_ok (get_var (insert s (comp, m) v) (comp, n)) ≡ ((m == n) || is_ok (get_var s (comp, n)))
is_ok-insert s comp m n v = elim (Bool-cases (m == n)) [
  | inl e ↦ rw (get_var-insert, eq_self comp, e) refl
  | inr e ↦ rw (get_var-insert, eq_self comp, e) refl
]

or_swap : (a b c : Bool) → (a || (b || c)) ≡ ((b || a) || c)
or_swap a b c = ground arith

-- The variables of the component that can be read after some are inserted.
is_ok-insert_vars :
    (comp : String) (ms : List VarModel) (s : Storage) (n : String)
    → is_ok (get_var (insert_vars comp ms s) (comp, n))
      ≡ (contains (var_names ms) n || is_ok (get_var s (comp, n)))
unfolding insert_vars
is_ok-insert_vars comp [] s n = refl
is_ok-insert_vars comp (m ∷ ms) s n =
    is_ok-insert_vars comp ms (insert s (comp, m.name) (initial m)) n
    ∙ ap (λ b. contains (var_names ms) n || b) (is_ok-insert s comp m.name n (initial m))
    ∙ or_swap (contains (var_names ms) n) (m.name == n) (is_ok (get_var s (comp, n)))

find-holds {ℓ} : {A : Type ℓ} (p : A → Bool) (xs : List A) (a : A) → find p xs ≡ some a → p a ≡ true
find-holds p [] a h = absurd (ground arith)
find-holds p (x ∷ xs) a h = elim (Bool-cases (p x)) [
  | inl e ↦ ground arith
  | inr e ↦ find-holds p xs a (ground arith)
]

name-get_component :
    (model : SimModel) (component : String) (m : ComponentModel)
    → get_component model component ≡ ok m
    → m.name ≡ component
name-get_component model component m h =
    (eq_iff m.name component).0
      (find-holds (λ c. ComponentModel.name c == component) model.components m (ground arith))

-- Attaching a component whose model is known succeeds. The component then is the last of the entity's
-- components and in its start state; of its variables, those of its model and those that were there can
-- be read; and the variables of every other component read as before.
pub attach-known :
    (ent : Entity) (component : String) (model : SimModel) (m : ComponentModel) (n c k : String)
    → get_component model component ≡ ok m
    → (component == c) ≡ false
    → (ent' : Entity) × (attach ent component model ≡ ok ent')
      × (ent'.components ≡ ent.components ++ (component ∷ []))
      × (Assoc.get component ent'.comp_state ≡ some m.logic.start_state)
      × (is_ok (get_var ent'.storage (component, n))
          ≡ (contains (var_names m.vars) n || is_ok (get_var ent.storage (component, n))))
      × (get_var ent'.storage (c, k) ≡ get_var ent.storage (c, k))
unfolding attach
attach-known ent component model m n c k h other =
    let same = name-get_component model component m h in
    let started =
      ap (λ name. Assoc.get component (Assoc.insert name m.logic.start_state ent.comp_state)) same
      ∙ get-insert_self component m.logic.start_state ent.comp_state in
    (
      record {
        storage = insert_vars component m.vars ent.storage;
        components = ent.components ++ (component ∷ []);
        comp_state = Assoc.insert m.name m.logic.start_state ent.comp_state;
        comp_queue = queue_triggers m.name m.triggers ent.comp_queue;
      },
      ground (arith, started),
      refl,
      started,
      is_ok-insert_vars component m.vars ent.storage n,
      get_var-insert_vars_other component m.vars ent.storage c k other,
    )
