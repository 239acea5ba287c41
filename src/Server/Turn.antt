-- ===== src/Server/Turn.antt =====
-- `handle_turn_advance_request` of outcome-net/src/server/turn.rs, on a local simulation. A step of the
-- simulation runs on fuel. What an error leaves behind is not modelled.
pub mod Bounds
pub mod Clock
pub mod Kept
pub mod Waiting
use outcome.Prelude.{
  ℕ, zero, suc, ◌+◌, ◌-◌, ◌%◌, ◌^◌, String, Bool, true, false, List, [], ◌∷◌, ◌++◌, Option, none,
  some, ltb, contains, string_eq, nat_eq, ◌==◌, if◌then◌else◌,
}
use outcome.Prelude.Assoc
use outcome.Prelude.Assoc.{Assoc}
use outcome.Prelude.Result.{Result, ok, err, panic, ◌>>=◌, map_err, unwrap}
use outcome.Std.{Std}
use outcome.Data.{Error}
use outcome.Machine.Command.{Extend}
use outcome.Sim.{Sim}
use outcome.Sim.Remote.{Remote}
use outcome.Sim.Step.{step}
use outcome.Query
use outcome.Query.{Query, QueryProduct}
use outcome.Query.Pack.{process}
use outcome.Server.{
  DataTransferRequest, Client, Server, TransferResponse, Payload, Outbox, ServerError, core,
  unknown,
}
use outcome.Server.Transfer.{handle_data_transfer_request_local}

pub record TurnAdvanceRequest : Type 0 where
  pub step_count : ℕ
  pub wait : Bool

module _ {Pool : Type 0} where
  abbrev pub with_furthest : Client Pool → ℕ → Client Pool
  with_furthest c n = record {
    id = c.id;
    is_blocking = c.is_blocking;
    furthest_step = n;
    scheduled_transfers = c.scheduled_transfers;
    scheduled_queries = c.scheduled_queries;
    scheduled_advance_response = c.scheduled_advance_response;
    order_store = c.order_store;
    order_id_pool = c.order_id_pool;
  }

  abbrev pub with_response : Client Pool → Option ℕ → Client Pool
  with_response c n = record {
    id = c.id;
    is_blocking = c.is_blocking;
    furthest_step = c.furthest_step;
    scheduled_transfers = c.scheduled_transfers;
    scheduled_queries = c.scheduled_queries;
    scheduled_advance_response = n;
    order_store = c.order_store;
    order_id_pool = c.order_id_pool;
  }

  -- The furthest step of the client that sent the request, from the clock and the steps it asks for.
  unfoldable pub announce : ℕ → ℕ → Client Pool → Client Pool
  announce clock step_count c =
      let reached = if ltb c.furthest_step clock then clock else c.furthest_step in
      with_furthest c
        (if ltb (reached - clock) step_count then (reached + step_count) % 2 ^ 64 else reached)

  -- The least of the furthest steps of the blocking clients, at most the given one.
  unfoldable pub least_furthest : ℕ → Assoc ℕ (Client Pool) → ℕ
  least_furthest common [] = common
  least_furthest common ((id, c) ∷ cs) =
      least_furthest
        (if c.is_blocking
          then if ltb c.furthest_step common then c.furthest_step else common
          else common)
        cs

  unfoldable pub no_blocking_clients : Assoc ℕ (Client Pool) → Bool
  no_blocking_clients [] = true
  no_blocking_clients ((id, c) ∷ cs) = if c.is_blocking then false else no_blocking_clients cs

  -- The step that the simulation may go to, once the client has announced its own.
  unfoldable pub common_furthest_step : ℕ → Client Pool → Assoc ℕ (Client Pool) → ℕ
  unfolding least_furthest no_blocking_clients
  common_furthest_step clock client cs =
      if no_blocking_clients cs
      then client.furthest_step
      else least_furthest ((clock + 99999) % 2 ^ 64) cs

  -- What a client is told once the clock stands at the given step, unless it is the one whose request is
  -- handled.
  unfoldable pub respond_scheduled : ℕ → ℕ → Client Pool → Client Pool × Outbox
  respond_scheduled client_id clock c =
      if c.id == client_id then (c, []) else elim c.scheduled_advance_response [
        | none ↦ (c, [])
        | some scheduled ↦
            if scheduled == clock
            then (with_response c none, (c.id, Payload.turn_advance "") ∷ [])
            else (c, [])
      ]

  module _ ⦃std : Std⦄ (request_id : Pool → Option (ℕ × Pool)) where
    unfoldable pub transfer_all :
        List DataTransferRequest
        → Sim Pool
        → Client Pool
        → Result ServerError (Client Pool × Outbox)
    unfolding handle_data_transfer_request_local
    transfer_all [] sim c = ok (c, [])
    transfer_all (dtr ∷ dtrs) sim c = do
      (c', response) ← handle_data_transfer_request_local request_id dtr sim c
      (c'', out) ← transfer_all dtrs sim c'
      ok (c'', (c'.id, Payload.data_transfer response) ∷ out)

    -- The transfers that are scheduled for an event of the queue. They are those that the client had before.
    unfoldable pub scheduled_transfers :
        Assoc String (List DataTransferRequest)
        → Sim Pool
        → Client Pool
        → Result ServerError (Client Pool × Outbox)
    unfolding transfer_all
    scheduled_transfers [] sim c = ok (c, [])
    scheduled_transfers ((event, dtrs) ∷ rest) sim c =
        if contains sim.event_queue event
        then (transfer_all dtrs sim c >>= λ first.
            scheduled_transfers rest sim first.0 >>= λ later. ok (later.0, first.1 ++ later.1))
        else scheduled_transfers rest sim c

    unfoldable pub query_all : ℕ → List (ℕ × Query) → Sim Pool → Result ServerError Outbox
    unfolding process
    query_all id [] sim = ok []
    query_all id ((task_id, query) ∷ queries) sim = do
      product ← map_err core (process query sim.entities sim.entity_idx)
      rest ← query_all id queries sim
      elim product [
        | QueryProduct.addressed_var map ↦
            ok
              ((id, Payload.task_data_transfer task_id (TransferResponse.addressed_var map)) ∷ rest)
        | _ ↦ ok rest
      ]

    -- The queries that are scheduled for an event of the queue.
    unfoldable pub scheduled_queries :
        ℕ → Assoc String (List (ℕ × Query)) → Sim Pool → Result ServerError Outbox
    unfolding query_all
    scheduled_queries id [] sim = ok []
    scheduled_queries id ((event, queries) ∷ rest) sim =
        if contains sim.event_queue event
        then (query_all id queries sim >>= λ first.
            scheduled_queries id rest sim >>= λ later. ok (first ++ later))
        else scheduled_queries id rest sim

    -- One client after one step.
    unfoldable pub serve_client :
        ℕ → ℕ → Sim Pool → Client Pool → Result ServerError (Client Pool × Outbox)
    unfolding scheduled_transfers scheduled_queries respond_scheduled
    serve_client client_id clock sim c =
        scheduled_transfers c.scheduled_transfers sim c >>= λ transferred.
        scheduled_queries c.id c.scheduled_queries sim >>= λ queried. ok (
          (respond_scheduled client_id clock transferred.0).0,
          transferred.1 ++ (queried ++ (respond_scheduled client_id clock transferred.0).1),
        )

    unfoldable pub serve_clients :
        ℕ
        → ℕ
        → Sim Pool
        → Assoc ℕ (Client Pool)
        → Result ServerError (Assoc ℕ (Client Pool) × Outbox)
    unfolding serve_client
    serve_clients client_id clock sim [] = ok ([], [])
    serve_clients client_id clock sim ((id, c) ∷ cs) =
        serve_client client_id clock sim c >>= λ first.
        serve_clients client_id clock sim cs >>= λ later.
        ok ((id, first.0) ∷ later.0, first.1 ++ later.1)

    module _ (extend : Extend → Sim Pool → ℕ → Remote Pool) where
      -- What the steps of a turn come to.
      abbrev pub Turned : Type 0
      Turned = Option (Result ServerError (Server Pool × Outbox))

      -- What was sent before stands in front.
      abbrev pub after_round : Outbox → Turned → Turned
      after_round out none = none
      after_round out (some (ok (server, later))) = some (ok (server, out ++ later))
      after_round out (some (err e)) = some (err e)
      after_round out (some panic) = some panic

      -- The loop over the steps, of which the last argument says how many there are, from the given clock.
      -- `none`: the fuel was too little, or a step returned an error, after which the state is not modelled.
      unfoldable pub advance : ℕ → ℕ → ℕ → Server Pool → ℕ → Turned
      unfolding step serve_clients
      advance fuel client_id clock server zero = some (ok (server, []))
      advance fuel client_id clock server (suc n) = elim (step request_id extend fuel server.sim) [
        | none ↦ none
        | some (err e) ↦ none
        | some panic ↦ some panic
        | some (ok sim) ↦ elim (serve_clients client_id (clock + 1) sim server.clients) [
          | err e ↦ some (err e)
          | panic ↦ some panic
          | ok (clients, out) ↦
              after_round out
                (advance fuel client_id (clock + 1) (record { sim = sim; clients = clients }) n)
        ]
      ]

      abbrev pub with_clients : Server Pool → Assoc ℕ (Client Pool) → Server Pool
      with_clients s cs = record { sim = s.sim; clients = cs }

      -- The answer to the request: at once, or once the clock stands where the client wants it.
      unfoldable pub answer : ℕ → TurnAdvanceRequest → Client Pool → ℕ → ℕ → Client Pool × Outbox
      answer client_id req c clock common =
          if common == clock
          then (if req.wait
              then (with_response c (some c.furthest_step), [])
              else (c, (client_id, Payload.turn_advance "BlockedFully") ∷ []))
          else if ltb common c.furthest_step
          then (if req.wait
              then (with_response c (some c.furthest_step), [])
              else (c, (client_id, Payload.turn_advance "BlockedPartially") ∷ []))
          else (c, (client_id, Payload.turn_advance "") ∷ [])

      -- The request, once the client has announced its furthest step.
      unfoldable pub advance_to_common :
          ℕ → ℕ → TurnAdvanceRequest → Client Pool → Server Pool → Turned
      unfolding common_furthest_step advance answer
      advance_to_common fuel client_id req client server =
          let clock = server.sim.clock in
          let common = common_furthest_step clock client server.clients in
          elim (advance fuel client_id clock server (common - clock)) [
            | none ↦ none
            | some (err e) ↦ some (err e)
            | some panic ↦ some panic
            | some (ok (server', out)) ↦ elim (Assoc.get client_id server'.clients) [
              | none ↦ some panic
              | some c ↦
                  let (c', last) = answer client_id req c clock common in
                  some (
                    ok (
                      with_clients server' (Assoc.insert client_id c' server'.clients),
                      out ++ last,
                    ))
            ]
          ]

      -- `handle_turn_advance_request`
      unfoldable pub handle_turn_advance_request : ℕ → ℕ → TurnAdvanceRequest → Server Pool → Turned
      unfolding announce advance_to_common
      handle_turn_advance_request fuel client_id req server =
          elim (Assoc.get client_id server.clients) [
            | none ↦ some panic
            | some c ↦
                let c' = announce server.sim.clock req.step_count c in
                advance_to_common fuel client_id req c'
                  (with_clients server (Assoc.insert client_id c' server.clients))
          ]
