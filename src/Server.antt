-- ===== src/Server.antt =====
-- The server that clients advance a simulation through: outcome-net/src/server, over a local simulation. What is
-- sent to the clients is a list; a failure to send is not modelled.
pub mod Transfer
pub mod Turn
use outcome.Prelude.{
  ℕ, String, Bool, ◌&&◌, true, ◌≡◌, ◌↔◌, List, Option, string_eq, ◌==◌, PartialEq, arith, eq_iff,
}
use outcome.Prelude.Assoc.{Assoc}
use outcome.Data.{Float, Var, Address, Error}
use outcome.Query
use outcome.Query.{Query}
use outcome.Sim.{Sim}

pub record DataTransferRequest : Type 0 where
  pub transfer_type : String
  pub selection : List String

-- Of `Client`, what the handling of turns reads. The connection, the keepalive and the authentication are
-- left out.
pub record Client (Pool : Type 0) : Type 0 where
  pub id : ℕ
  pub is_blocking : Bool
  pub furthest_step : ℕ
  pub scheduled_transfers : Assoc String (List DataTransferRequest)
  pub scheduled_queries : Assoc String (List (ℕ × Query))
  pub scheduled_advance_response : Option ℕ
  pub order_store : Assoc ℕ (List Address)
  pub order_id_pool : Pool

pub record Server (Pool : Type 0) : Type 0 where
  pub sim : Sim Pool
  pub clients : Assoc ℕ (Client Pool)

abbrev pub VarKey : Type 0
VarKey = String × String × String

abbrev pub var_key_beq : VarKey → VarKey → Bool
var_key_beq (a, b, c) (d, e, f) = (a == d) && ((b == e) && (c == f))

pub var_key_beq_iff : (p q : VarKey) → (var_key_beq p q ≡ true) ↔ (p ≡ q)
var_key_beq_iff (a, b, c) (d, e, f) = (
  λ h. ground (arith, eq_iff a d, eq_iff b e, eq_iff c f),
  λ h. ground (arith, eq_iff a d, eq_iff b e, eq_iff c f),
)

instance abbrev pub var_key_eq : PartialEq VarKey
var_key_eq = record { test = var_key_beq; agrees = var_key_beq_iff }

-- `TransferResponseData`, by the kinds that are sent.
pub data TransferResponse : Type 0 where
  var : Assoc VarKey Var → TransferResponse
  typed : Assoc Address Float → TransferResponse
  var_ordered : ℕ → List Var → TransferResponse
  addressed_var : Assoc Address Var → TransferResponse

-- A `TurnAdvanceResponse` is its error.
pub data Payload : Type 0 where
  turn_advance : String → Payload
  data_transfer : TransferResponse → Payload
  task_data_transfer : ℕ → TransferResponse → Payload

-- What was sent, and to which client.
abbrev pub Outbox : Type 0
Outbox = List (ℕ × Payload)

-- The errors of the server: those of the simulation, and its own.
pub data ServerError : Type 0 where
  core : Error → ServerError
  other : String → ServerError
  unknown : ServerError
