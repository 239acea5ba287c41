-- ===== src/Entity.antt =====
-- Entities: outcome-core/src/entity/mod.rs. `EntityNonSer` has no fields and is left out.
pub mod Attach
use outcome.Prelude.{
  ℕ, String, Bool, true, false, List, [], ◌∷◌, ◌++◌, Option, none, some, get_elem?, take, drop, suc,
  find, contains, string_eq, pair_eq, ◌==◌, if◌then◌else◌,
}
use outcome.Prelude.Assoc
use outcome.Prelude.Assoc.{Assoc}
use outcome.Prelude.Result.{Result, ok, err, panic, ◌>>=◌, ok_or, unwrap}
use outcome.Data.{Var, Error, no_entity_prefab}
use outcome.Var.{default_value}
use outcome.Storage.{Storage, insert, remove_comp_vars}
use outcome.Model.{VarModel, ComponentModel, EntityPrefab, SimModel, get_entity, get_component}

pub record Entity : Type 0 where
  pub storage : Storage
  pub components : List String
  pub comp_state : Assoc String String
  pub comp_queue : Assoc String (List String)

-- `Entity::empty`
abbrev pub empty : Entity
empty = record { storage = []; components = []; comp_state = []; comp_queue = [] }

-- The value of a variable of a component: its default, or that of its type.
abbrev pub initial : VarModel → Var
initial m = elim m.default [ none ↦ default_value m.type_ | some v ↦ v ]

unfoldable pub insert_vars : String → List VarModel → Storage → Storage
unfolding insert default_value
insert_vars component [] s = s
insert_vars component (m ∷ ms) s =
    insert_vars component ms (insert s (component, m.name) (initial m))

-- The component joins the queues of its triggers, where the entity has them.
unfoldable pub queue_triggers :
    String → List String → Assoc String (List String) → Assoc String (List String)
queue_triggers name [] queues = queues
queue_triggers name (t ∷ ts) queues = elim (Assoc.get t queues) [
  | none ↦ queue_triggers name ts queues
  | some q ↦ queue_triggers name ts (Assoc.insert t (q ++ (name ∷ [])) queues)
]

-- The second loop over the triggers, which needs every queue.
unfoldable pub push_triggers :
    String → List String → Assoc String (List String) → Result Error (Assoc String (List String))
push_triggers name [] queues = ok queues
push_triggers name (t ∷ ts) queues = do
  q ← unwrap (Assoc.get t queues)
  push_triggers name ts (Assoc.insert t (q ++ (name ∷ [])) queues)

unfoldable pub attach : Entity → String → SimModel → Result Error Entity
unfolding insert_vars queue_triggers push_triggers
attach ent component model = do
  comp_model ← get_component model component
  let queues = queue_triggers comp_model.name comp_model.triggers ent.comp_queue
  let states = Assoc.insert comp_model.name comp_model.logic.start_state ent.comp_state
  queues' ← elim (Assoc.get component states) [
    | some state ↦ ok queues
    | none ↦ push_triggers component comp_model.triggers queues
  ]
  ok (record {
    storage = insert_vars component comp_model.vars ent.storage;
    components = ent.components ++ (component ∷ []);
    comp_state = states;
    comp_queue = queues';
  })

unfoldable pub attach_all : List String → SimModel → Entity → Result Error Entity
unfolding attach
attach_all [] model ent = ok ent
attach_all (c ∷ cs) model ent = do ent' ← attach ent c model; attach_all cs model ent'

unfoldable pub event_queues : List String → Assoc String (List String) → Assoc String (List String)
event_queues [] queues = queues
event_queues (e ∷ es) queues = event_queues es (Assoc.insert e [] queues)

-- `DEFAULT_INIT_EVENT` is "init".
unfoldable pub from_prefab : EntityPrefab → SimModel → Result Error Entity
unfolding event_queues attach_all
from_prefab prefab model = attach_all prefab.components model (record {
  storage = [];
  components = [];
  comp_state = [];
  comp_queue = event_queues model.events (Assoc.insert "init" [] []);
})

unfoldable pub from_prefab_name : String → SimModel → Result Error Entity
unfolding from_prefab
from_prefab_name prefab model = do
  ent_model ← ok_or (no_entity_prefab prefab) (get_entity model prefab)
  from_prefab ent_model model

-- `v.remove(position)` of the first place that holds the name
unfoldable pub remove_first : String → List String → List String
remove_first name [] = []
remove_first name (x ∷ xs) = let rest = remove_first name xs in if x == name then xs else x ∷ rest

unfoldable pub leave_queues : String → Assoc String (List String) → Assoc String (List String)
unfolding remove_first
leave_queues name [] = []
leave_queues name ((e, q) ∷ queues) = (e, remove_first name q) ∷ leave_queues name queues

abbrev pub remove_at {ℓ} : {A : Type ℓ} → ℕ → List A → List A
remove_at i xs = take i xs ++ drop (suc i) xs

abbrev pub var_names : List VarModel → List String
var_names [] = []
var_names (m ∷ ms) = m.name ∷ var_names ms

-- `detach`, which may fail halfway: the entity is given back in any case. `binary_search` is the
-- slice's, which is only specified on a sorted one.
unfoldable pub detach :
    (List String → String → Option ℕ)
    → Entity
    → String
    → SimModel
    → Entity × Result Error (Unit {0})
unfolding remove_comp_vars leave_queues
detach binary_search ent comp_name model =
    let components : List String = elim (binary_search ent.components comp_name) [
      | none ↦ ent.components
      | some i ↦ remove_at i ent.components
    ] in
    elim (get_component model comp_name) [
      | ok m ↦ (
        record {
          storage = remove_comp_vars ent.storage comp_name (var_names m.vars);
          components = components;
          comp_state = Assoc.remove comp_name ent.comp_state;
          comp_queue = leave_queues comp_name ent.comp_queue;
        },
        ok tt,
      )
      | err e ↦ (
        record {
          storage = ent.storage;
          components = components;
          comp_state = ent.comp_state;
          comp_queue = ent.comp_queue;
        },
        err e,
      )
      | panic ↦ (ent, panic)
    ]
