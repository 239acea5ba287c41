-- ===== src/Server/Transfer.antt =====
-- `handle_data_transfer_request_local` of outcome-net/src/server/mod.rs.
use Prim.Native.Char.{code}
use outcome.Prelude.{
  ℕ, String, ◌||◌, List, [], ◌∷◌, ◌++◌, Option, eqb, string_eq, nat_eq, ◌==◌, if◌then◌else◌,
}
use outcome.Prelude.Assoc
use outcome.Prelude.Assoc.{Assoc}
use outcome.Prelude.Text.{◌⧺◌, has_char}
use outcome.Prelude.Decimal.{show_ℕ}
use outcome.Prelude.Result.{Result, ok, err, panic, ◌>>=◌, map_err, ok_or, unwrap}
use outcome.Std.{Std}
use outcome.Data.{Float, Var, Address}
use outcome.Storage.{Storage}
use outcome.Address
use outcome.Entity.{Entity}
use outcome.Sim.{Sim, get_var}
use outcome.Query.{address_eq}
use outcome.Server.{
  DataTransferRequest, Client, VarKey, var_key_eq, TransferResponse, ServerError, core, other,
  unknown,
}

-- `str::replace` of an asterisk
unfoldable pub replace_star : String → String → String
replace_star to String.[] = ""
replace_star to (String.◌∷◌ c s) =
    let rest = replace_star to s in if eqb (code c) b'*' then to ⧺ rest else String.◌∷◌ c rest

-- The first name of an entity, or its id in digits.
unfoldable pub name_of : Assoc String ℕ → ℕ → String
unfolding show_ℕ
name_of [] id = show_ℕ id
name_of ((n, i) ∷ idx) id = if i == id then n else name_of idx id

unfoldable pub add_vars : String → Storage → Assoc VarKey Var → Assoc VarKey Var
add_vars ent [] out = out
add_vars ent (((comp, name), v) ∷ vars) out =
    add_vars ent vars (Assoc.insert (ent, comp, name) v out)

unfoldable pub all_vars : Assoc String ℕ → Assoc ℕ Entity → Assoc VarKey Var → Assoc VarKey Var
unfolding name_of add_vars
all_vars idx [] out = out
all_vars idx ((id, ent) ∷ ents) out = all_vars idx ents (add_vars (name_of idx id) ent.storage out)

abbrev pub add_float : Address → Var → Assoc Address Float → Assoc Address Float
add_float addr (Var.float f) out = Assoc.insert addr f out
add_float addr v out = out

-- The addresses of a query with an asterisk, one for each entity but those with the ids 0 and 1.
unfoldable pub expand : String → Assoc ℕ Entity → Result ServerError (List Address)
unfolding Address.from_str replace_star show_ℕ
expand query [] = ok []
expand query ((id, ent) ∷ ents) = if (id == 0) || (id == 1) then expand query ents else do
  addr ← map_err core (Address.from_str (replace_star (show_ℕ id) query))
  rest ← expand query ents
  ok (addr ∷ rest)

unfoldable pub order_of : Assoc ℕ Entity → List String → Result ServerError (List Address)
unfolding Address.from_str expand has_char
order_of ents [] = ok []
order_of ents (query ∷ queries) = do
  first ←
      (if has_char b'*' query
        then expand query ents
        else do addr ← map_err core (Address.from_str query); ok (addr ∷ []))
  rest ← order_of ents queries
  ok (first ++ rest)

module _ {Pool : Type 0} ⦃std : Std⦄ where
  unfoldable pub selected_floats :
      Sim Pool → List String → Assoc Address Float → Result ServerError (Assoc Address Float)
  unfolding Address.from_str get_var
  selected_floats sim [] out = ok out
  selected_floats sim (text ∷ texts) out = elim (Address.from_str text) [
    | err e ↦ selected_floats sim texts out
    | panic ↦ panic
    | ok addr ↦ elim (get_var sim addr) [
      | err e ↦ selected_floats sim texts out
      | panic ↦ panic
      | ok v ↦ selected_floats sim texts (add_float addr v out)
    ]
  ]

  -- The variables at the addresses, where they are there.
  unfoldable pub vars_at : Sim Pool → List Address → Result ServerError (List Var)
  unfolding get_var
  vars_at sim [] = ok []
  vars_at sim (addr ∷ addrs) = do
    rest ← vars_at sim addrs
    elim (get_var sim addr) [ ok v ↦ ok (v ∷ rest) | err e ↦ ok rest | panic ↦ panic ]

  abbrev pub with_order : Client Pool → Pool → ℕ → List Address → Client Pool
  with_order c pool id order = record {
    id = c.id;
    is_blocking = c.is_blocking;
    furthest_step = c.furthest_step;
    scheduled_transfers = c.scheduled_transfers;
    scheduled_queries = c.scheduled_queries;
    scheduled_advance_response = c.scheduled_advance_response;
    order_store = Assoc.insert id order c.order_store;
    order_id_pool = pool;
  }

  -- "SelectVarOrdered": an empty selection takes the order with the id 1 again.
  unfoldable pub transfer_ordered :
      (Pool → Option (ℕ × Pool))
      → List String
      → Sim Pool
      → Client Pool
      → Result ServerError (Client Pool × TransferResponse)
  unfolding vars_at order_of
  transfer_ordered request_id [] sim c = do
    order ← unwrap (Assoc.get 1 c.order_store)
    vars ← vars_at sim order
    ok (c, TransferResponse.var_ordered 1 vars)
  transfer_ordered request_id (query ∷ queries) sim c = do
    order ← order_of sim.entities (query ∷ queries)
    vars ← vars_at sim order
    (id, pool) ← ok_or (other "failed getting new order id") (request_id c.order_id_pool)
    ok (with_order c pool id order, TransferResponse.var_ordered id vars)

  -- The client, which keeps the order of an ordered selection, and what is sent to it.
  unfoldable pub handle_data_transfer_request_local :
      (Pool → Option (ℕ × Pool))
      → DataTransferRequest
      → Sim Pool
      → Client Pool
      → Result ServerError (Client Pool × TransferResponse)
  unfolding all_vars selected_floats transfer_ordered
  handle_data_transfer_request_local request_id request sim c =
      if request.transfer_type == "Full"
      then ok (c, TransferResponse.var (all_vars sim.entity_idx sim.entities []))
      else if request.transfer_type == "Select"
      then (selected_floats sim request.selection [] >>= λ floats.
          ok (c, TransferResponse.typed floats))
      else if request.transfer_type == "SelectVarOrdered"
      then transfer_ordered request_id request.selection sim c
      else err unknown
