-- ===== src/Var/Access.antt =====
-- The checked accessors of a value: `is_*`, `as_*`, and the writes through the `as_*_mut`.
use outcome.Prelude.{String, Bool, true, false, List, [], ◌∷◌}
use outcome.Prelude.Int.{ℤ}
use outcome.Prelude.Result.{Result, ok, err, panic, ◌>>=◌, unwrap_ok}
use outcome.Data.{Float, Var, Vars, nil, cons, Rows, no_rows, row, Error, invalid_var_type}
use outcome.Var.{get_type}

unfoldable pub is_string : Var → Bool
is_string (Var.string x) = true
is_string _ = false

unfoldable pub is_int : Var → Bool
is_int (Var.int x) = true
is_int _ = false

unfoldable pub is_float : Var → Bool
is_float (Var.float x) = true
is_float _ = false

unfoldable pub is_bool : Var → Bool
is_bool (Var.bool x) = true
is_bool _ = false

unfoldable pub as_string : Var → Result Error String
as_string (Var.string x) = ok x
as_string v = err (invalid_var_type (get_type v))

-- `*v.as_string_mut()? = x`
unfoldable pub set_string : Var → String → Result Error Var
set_string (Var.string y) x = ok (Var.string x)
set_string v x = err (invalid_var_type (get_type v))

unfoldable pub as_int : Var → Result Error ℤ
as_int (Var.int x) = ok x
as_int v = err (invalid_var_type (get_type v))

-- `*v.as_int_mut()? = x`
unfoldable pub set_int : Var → ℤ → Result Error Var
set_int (Var.int y) x = ok (Var.int x)
set_int v x = err (invalid_var_type (get_type v))

unfoldable pub as_float : Var → Result Error Float
as_float (Var.float x) = ok x
as_float v = err (invalid_var_type (get_type v))

-- `*v.as_float_mut()? = x`
unfoldable pub set_float : Var → Float → Result Error Var
set_float (Var.float y) x = ok (Var.float x)
set_float v x = err (invalid_var_type (get_type v))

unfoldable pub as_bool : Var → Result Error Bool
as_bool (Var.bool x) = ok x
as_bool v = err (invalid_var_type (get_type v))

-- `*v.as_bool_mut()? = x`
unfoldable pub set_bool : Var → Bool → Result Error Var
set_bool (Var.bool y) x = ok (Var.bool x)
set_bool v x = err (invalid_var_type (get_type v))

-- `as_list` and `as_grid` panic at a value of another type.
unfoldable pub as_list : Var → Result Error Vars
as_list (Var.list vs) = ok vs
as_list _ = panic

unfoldable pub as_grid : Var → Result Error Rows
as_grid (Var.grid rs) = ok rs
as_grid _ = panic

-- Every element through an accessor that is unwrapped: one of another type panics.
unfoldable pub unwrap_each {ℓ} :
    {A : Type ℓ} → (Var → Result Error A) → Vars → Result Error (List A)
unwrap_each f nil = ok []
unwrap_each f (cons v vs) = do a ← unwrap_ok (f v); rest ← unwrap_each f vs; ok (a ∷ rest)

unfoldable pub unwrap_rows {ℓ} :
    {A : Type ℓ} → (Var → Result Error A) → Rows → Result Error (List (List A))
unfolding unwrap_each
unwrap_rows f no_rows = ok []
unwrap_rows f (row r rs) = do a ← unwrap_each f r; rest ← unwrap_rows f rs; ok (a ∷ rest)

unfoldable pub as_str_list : Var → Result Error (List String)
unfolding unwrap_each as_string
as_str_list (Var.list vs) = unwrap_each as_string vs
as_str_list v = err (invalid_var_type (get_type v))

unfoldable pub as_int_list : Var → Result Error (List ℤ)
unfolding unwrap_each as_int
as_int_list (Var.list vs) = unwrap_each as_int vs
as_int_list v = err (invalid_var_type (get_type v))

unfoldable pub as_float_list : Var → Result Error (List Float)
unfolding unwrap_each as_float
as_float_list (Var.list vs) = unwrap_each as_float vs
as_float_list v = err (invalid_var_type (get_type v))

unfoldable pub as_bool_list : Var → Result Error (List Bool)
unfolding unwrap_each as_bool
as_bool_list (Var.list vs) = unwrap_each as_bool vs
as_bool_list v = err (invalid_var_type (get_type v))

unfoldable pub as_string_grid : Var → Result Error (List (List String))
unfolding unwrap_rows as_string
as_string_grid (Var.grid rs) = unwrap_rows as_string rs
as_string_grid v = err (invalid_var_type (get_type v))

unfoldable pub as_int_grid : Var → Result Error (List (List ℤ))
unfolding unwrap_rows as_int
as_int_grid (Var.grid rs) = unwrap_rows as_int rs
as_int_grid v = err (invalid_var_type (get_type v))

unfoldable pub as_float_grid : Var → Result Error (List (List Float))
unfolding unwrap_rows as_float
as_float_grid (Var.grid rs) = unwrap_rows as_float rs
as_float_grid v = err (invalid_var_type (get_type v))

unfoldable pub as_bool_grid : Var → Result Error (List (List Bool))
unfolding unwrap_rows as_bool
as_bool_grid (Var.grid rs) = unwrap_rows as_bool rs
as_bool_grid v = err (invalid_var_type (get_type v))
