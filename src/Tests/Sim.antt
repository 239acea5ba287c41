-- ===== src/Tests/Sim.antt =====
-- A simulation of one ship.
use outcome.Prelude.{
  ℕ, suc, ◌≡◌, refl, true, [], ◌∷◌, Option, none, some, contains, string_eq, nat_eq,
}
use outcome.Prelude.Assoc
use outcome.Prelude.Assoc.{get, insert}
use outcome.Prelude.Int.{pos}
use outcome.Prelude.Result.{ok, err}
use outcome.Data.{VarType, Var, Address, other}
use outcome.Storage
use outcome.Model.{SimModel, ComponentModel}
use outcome.Entity.{Entity, attach, empty}
use outcome.Entity.Attach.{attach-known, is_ok}
use outcome.Sim.{Sim, spawn_entity, get_entity_by_name, get_var, set_var, with_pool}
use outcome.Sim.Spawn.{
  get_entity_by_name-spawn_entity, spawn_entity-twice, invoke_all-queue, distinct,
}
use outcome.Sim.Remote.{Remote, invoke_all}
use outcome.Sim.Access.{get_var-set_var_sim}
use outcome.Tests.{test_std}
use outcome.Machine.Command.{Command, Extend}
use outcome.Sim.Step.{step}
use outcome.Sim.Index.{IsIndexed, Sound, Sound-spawn_entity}
use outcome.Sim.Sound.{IsIndexed-step}

abbrev hull : ComponentModel
hull = record {
  name = "hull";
  vars = record { name = "x"; type_ = VarType.int; default = some (Var.int (pos 4)) } ∷ [];
  triggers = "step" ∷ [];
  logic = record {
    start_state = "start";
    commands = Command.goto "idle" ∷ [];
    pre_commands = [];
    states = ("start", (0, 1)) ∷ [];
    procedures = [];
    cmd_location_map =
        (record {
          root = none;
          source = none;
          source_line = none;
          line = some 0;
          tag = none;
          comp_name = some "hull";
        })
        ∷ [];
  };
}

abbrev pub ships : SimModel
ships = record {
  events = "step" ∷ [];
  entities = record { name = "ship"; components = "hull" ∷ [] } ∷ [];
  components = hull ∷ [];
}

attach-known_example :
    (ent : Entity) × (attach empty "hull" ships ≡ ok ent)
    × (ent.components ≡ "hull" ∷ [])
    × (Assoc.get "hull" ent.comp_state ≡ some "start")
    × (is_ok (Storage.get_var ent.storage ("hull", "x")) ≡ true)
    × (Storage.get_var ent.storage ("sail", "x") ≡ Storage.get_var [] ("sail", "x"))
attach-known_example = attach-known empty "hull" ships hull "x" "sail" "x" refl refl

-- The pool gives the numbers in turn.
abbrev pub count_up : ℕ → Option (ℕ × ℕ)
count_up n = some (n, suc n)

abbrev pub ship : Entity
ship = record {
  storage = (("hull", "x"), Var.int (pos 4)) ∷ [];
  components = "hull" ∷ [];
  comp_state = ("hull", "start") ∷ [];
  comp_queue = ("step", "hull" ∷ []) ∷ [];
}

abbrev pub harbour : Sim ℕ
harbour = record {
  model = ships;
  clock = 0;
  event_queue = "step" ∷ [];
  entities = (0, ship) ∷ [];
  entity_idx = ("anna", 0) ∷ [];
  entity_pool = 1;
}

get_entity_by_name-spawn_entity_example :
    (sim : Sim ℕ) × (spawn_entity count_up harbour none (some "bert") ≡ (sim, ok 1))
    × (get_entity_by_name sim "bert" ≡ ok empty)
    × (Assoc.get "anna" sim.entity_idx ≡ some 0)
unfolding get
get_entity_by_name-spawn_entity_example =
    get_entity_by_name-spawn_entity count_up harbour none "bert" "anna" empty 1 2 refl refl refl

spawn_entity-twice_example :
    (sim : Sim ℕ) × (spawn_entity count_up harbour none (some "bert") ≡ (sim, ok 1))
    × (spawn_entity count_up sim none (some "bert")
        ≡ (with_pool sim 3, err (other "Failed to add entity")))
    × (get_entity_by_name (with_pool sim 3) "bert" ≡ ok empty)
    × (Assoc.get "bert" sim.entity_idx ≡ some 1)
unfolding get
spawn_entity-twice_example =
    spawn_entity-twice count_up harbour none none "bert" empty empty 1 2 2 3 refl refl refl refl
      refl

invoke_all-queue_example :
    (distinct (invoke_all ("storm" ∷ "step" ∷ []) ("step" ∷ [])) ≡ true)
    × (contains (invoke_all ("storm" ∷ "step" ∷ []) ("step" ∷ [])) "storm" ≡ true)
invoke_all-queue_example = invoke_all-queue ("storm" ∷ "step" ∷ []) ("step" ∷ []) "storm" refl

abbrev position : Address
position = record { entity = "anna"; component = "hull"; var_type = VarType.int; var_name = "x" }

get_var-set_var_sim_example :
    (sim : Sim ℕ) × (set_var ⦃std = test_std⦄ harbour position (Var.int (pos 9)) ≡ ok sim)
    × (get_var ⦃std = test_std⦄ sim position ≡ ok (Var.int (pos 9)))
unfolding get_var get
get_var-set_var_sim_example =
    get_var-set_var_sim ⦃std = test_std⦄ harbour position (Var.int (pos 9)) (Var.int (pos 4)) refl

abbrev pub no_extend : Extend → Sim ℕ → ℕ → Remote ℕ
no_extend c sim ent = (sim, ok tt)

abbrev pub idle_ship : Entity
idle_ship = record {
  storage = (("hull", "x"), Var.int (pos 4)) ∷ [];
  components = "hull" ∷ [];
  comp_state = ("hull", "idle") ∷ [];
  comp_queue = ("step", "hull" ∷ []) ∷ [];
}

abbrev pub harbour_later : Sim ℕ
harbour_later = record {
  model = ships;
  clock = 1;
  event_queue = "step" ∷ [];
  entities = (0, idle_ship) ∷ [];
  entity_idx = ("anna", 0) ∷ [];
  entity_pool = 1;
}

step_run : step ⦃std = test_std⦄ count_up no_extend 10 harbour ≡ some (ok harbour_later)
unfolding step get insert
step_run = refl

IsIndexed-step_example :
    (harbour_later.clock ≡ 1)
    × (contains harbour_later.event_queue "step" ≡ true)
    × IsIndexed harbour_later
unfolding get
IsIndexed-step_example =
    IsIndexed-step ⦃std = test_std⦄ count_up no_extend 10 harbour harbour_later (λ c s ent h. h)
      (refl, tt) step_run

Sound-spawn_entity_example : Sound 0 (spawn_entity count_up harbour (some "ship") (some "bert")).0
unfolding get
Sound-spawn_entity_example =
    Sound-spawn_entity count_up 0 harbour (some "ship") (some "bert") (refl, (refl, tt))
