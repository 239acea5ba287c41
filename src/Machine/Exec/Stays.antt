-- ===== src/Machine/Exec/Stays.antt =====
-- The results of the commands that do not steer.
use outcome.Prelude.{ℕ, ◌<◌, String, []}
use outcome.Prelude.Result.{
  Result, ok, err, panic, ◌>>=◌, unwrap, must, Ensures, Ensures->>=, Ensures-Option, Ensures-Result,
}
use outcome.Data.{Var, VarType, Address}
use outcome.Std.{Std}
use outcome.Storage.{Storage, get_var, set_var}
use outcome.Address.{storage_index}
use outcome.Address.Short.{storage_index_using}
use outcome.Var.Access.{as_int, set_int}
use outcome.Prelude.Decimal.{parse_i32}
use outcome.Machine.{LocationInfo, MachineError}
use outcome.Machine.Command.{
  CommandResult, Set, Source, Eval, Range, SetIntIntAddr, continue, break, jump_to_line,
  jump_to_tag,
}
use outcome.Machine.Execute.{
  execute_set, execute_set_int, execute_eval, execute_range, execute_print, target_address,
  arguments,
}

-- A result that does not lead back.
abbrev pub Ahead : ℕ → CommandResult → Type 0
Ahead n (jump_to_line m) = n < m
Ahead n (jump_to_tag t) = ⊥
Ahead n r = Unit

abbrev pub Stays : ℕ → Storage × CommandResult → Type 0
Stays n (s, r) = Ahead n r

Stays-source :
    (n : ℕ) (c : Set) (s : Storage) (ent : ℕ) (comp : String) (source : Source)
    → Ensures
        (Stays n)
        (execute_set (record { target = c.target; source = source; out = c.out }) s ent comp)
unfolding execute_set
Stays-source n c s ent comp (Source.local_address a) =
    Ensures->>= (Stays n) (must (get_var s (storage_index_using a comp))) _ (λ v.
      Ensures->>= (Stays n) (must (set_var s (storage_index (target_address c.target ent comp)) v))
        _ (λ s'. tt))
Stays-source n c s ent comp (Source.address a) = Ensures->>= (Stays n) (unwrap c.out) _ (λ out. tt)
Stays-source n c s ent comp (Source.value v) =
    Ensures-Result (Stays n) (set_var s (storage_index (target_address c.target ent comp)) v) _ _
      (λ s'. tt) (λ e. tt)

pub Stays-set :
    (n : ℕ) (c : Set) (s : Storage) (ent : ℕ) (comp : String)
    → Ensures (Stays n) (execute_set c s ent comp)
unfolding execute_set
Stays-set n c s ent comp = Stays-source n c s ent comp c.source

pub Stays-set_int :
    (n : ℕ) (c : SetIntIntAddr) (s : Storage) → Ensures (Stays n) (execute_set_int c s)
unfolding execute_set_int
Stays-set_int n c s = Ensures->>= (Stays n) (must (get_var s c.source)) _ (λ v.
    Ensures->>= (Stays n) (must (as_int v)) _ (λ i.
      Ensures->>= (Stays n) (must (get_var s c.target)) _ (λ w.
        Ensures->>= (Stays n) (must (set_int w i)) _
          (λ w'. Ensures->>= (Stays n) (must (set_var s c.target w')) _ (λ s'. tt)))))

pub Stays-range :
    (n : ℕ) (c : Range) (s : Storage) (comp : String) → Ensures (Stays n) (execute_range c s comp)
unfolding execute_range
Stays-range n c s comp = Ensures->>= (Stays n) (unwrap (parse_i32 c.start)) _ (λ i.
    Ensures->>= (Stays n) (unwrap (parse_i32 c.end)) _
      (λ j. Ensures-Result (Stays n) (get_var s (comp, c.output.var_name)) _ _ (λ v. tt) (λ e. tt)))

abbrev printed : Address → Storage → VarType → Result MachineError CommandResult
printed source s VarType.string = elim (get_var s (storage_index source)) [
  | ok _ ↦ ok continue
  | err _ ↦ ok break
  | panic ↦ panic
]
printed source s VarType.int = (do
  v ← must (get_var s (storage_index source))
  i ← must (as_int v)
  ok continue)
printed source s _ = ok continue

pub Stays-print : (n : ℕ) (a : Address) (s : Storage) → Ensures (Ahead n) (execute_print a s)
unfolding execute_print
Stays-print n a s = elim a.var_type as (λ t. Ensures (Ahead n) (printed a s t)) [
  | VarType.string ↦ Ensures-Result (Ahead n) (get_var s (storage_index a)) _ _ (λ v. tt) (λ e. tt)
  | VarType.int ↦
      Ensures->>= (Ahead n) (must (get_var s (storage_index a))) _
        (λ v. Ensures->>= (Ahead n) (must (as_int v)) _ (λ i. tt))
  | _ ↦ tt
]

module _ ⦃std : Std⦄ where
  pub Stays-eval :
      (n : ℕ) (c : Eval) (s : Storage) (comp : String) (location : LocationInfo)
      → Ensures (Stays n) (execute_eval c s comp location)
  unfolding execute_eval
  Stays-eval n c s comp location =
      Ensures-Result (Stays n) (arguments c.args s comp []) _ _
        (λ ns. Ensures->>= (Stays n) (unwrap (c.expr ns)) _ (λ val.
          Ensures-Option (Stays n) c.out _ _ tt (λ out.
            Ensures->>= (Stays n) (must (set_var s (storage_index_using out comp) (Var.float val)))
              _ (λ s'. tt))))
        (λ e. tt)
