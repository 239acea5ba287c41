-- ===== src/Tests/Server.antt =====
-- A turn of two clients.
use outcome.Prelude.{
  ℕ, ◌+◌, ◌-◌, ◌≡◌, refl, true, false, [], ◌∷◌, none, some, All, Option, arith, nat_eq, string_eq,
}
use outcome.Prelude.Assoc.{get, insert}
use outcome.Prelude.Result.{ok}
use outcome.Sim.Index.{IsIndexed}
use outcome.Server.{Client, Server, Payload, Outbox}
use outcome.Server.Turn.{TurnAdvanceRequest, handle_turn_advance_request}
use outcome.Server.Turn.Waiting.{handle_turn_advance_request-Waits}
use outcome.Server.Turn.Kept.{Waits}
use outcome.Server.Turn.Bounds.{Held}
use outcome.Server.Turn.Clock.{announced, common_step, handle_turn_advance_request-Held}
use outcome.Tests.{test_std}
use outcome.Tests.Sim.{harbour, harbour_later, count_up, no_extend}

abbrev client : ℕ → ℕ → Option ℕ → Client ℕ
client id furthest_step waits_for = record {
  id = id;
  is_blocking = true;
  furthest_step = furthest_step;
  scheduled_transfers = [];
  scheduled_queries = [];
  scheduled_advance_response = waits_for;
  order_store = [];
  order_id_pool = 1;
}

-- The second client waits for the step 1.
abbrev port : Server ℕ
port = record { sim = harbour; clients = (7, client 7 0 none) ∷ (8, client 8 1 (some 1)) ∷ [] }

abbrev two_steps : TurnAdvanceRequest
two_steps = record { step_count = 2; wait = false }

abbrev port_later : Server ℕ
port_later = record {
  sim = harbour_later;
  clients = (7, client 7 2 none) ∷ (8, client 8 1 none) ∷ [];
}

abbrev answers : Outbox
answers = (8, Payload.turn_advance "") ∷ (7, Payload.turn_advance "BlockedPartially") ∷ []

turn_run :
    handle_turn_advance_request ⦃std = test_std⦄ count_up no_extend 10 7 two_steps port
    ≡ some (ok (port_later, answers))
unfolding handle_turn_advance_request get insert
turn_run = refl

handle_turn_advance_request-Held_example :
    (harbour_later.clock
      ≡ harbour.clock
        + (common_step ⦃std = test_std⦄ count_up no_extend 7 two_steps (client 7 0 none) port
            - harbour.clock))
    × (All
          (Held harbour.clock harbour_later.clock)
          (announced ⦃std = test_std⦄ count_up no_extend 7 two_steps (client 7 0 none) port)
        × IsIndexed harbour_later)
unfolding get
handle_turn_advance_request-Held_example =
    handle_turn_advance_request-Held ⦃std = test_std⦄ count_up no_extend 10 7 two_steps port
      port_later (client 7 0 none) answers (λ t c s ent h. h) (refl, tt) (omega arith) (omega arith)
      refl turn_run

abbrev two_steps_waiting : TurnAdvanceRequest
two_steps_waiting = record { step_count = 2; wait = true }

-- The first client waits for the step 2 now.
abbrev port_waiting : Server ℕ
port_waiting = record {
  sim = harbour_later;
  clients = (7, client 7 2 (some 2)) ∷ (8, client 8 1 none) ∷ [];
}

waiting_run :
    handle_turn_advance_request ⦃std = test_std⦄ count_up no_extend 10 7 two_steps_waiting port
    ≡ some (ok (port_waiting, (8, Payload.turn_advance "") ∷ []))
unfolding handle_turn_advance_request get insert
waiting_run = refl

handle_turn_advance_request-Waits_example : All (Waits harbour_later.clock) port_waiting.clients
unfolding get
handle_turn_advance_request-Waits_example =
    handle_turn_advance_request-Waits ⦃std = test_std⦄ count_up no_extend 10 7 two_steps_waiting
      port port_waiting (client 7 0 none) ((8, Payload.turn_advance "") ∷ []) (λ t c s ent h. h)
      (refl, tt) (omega arith) (omega arith) (omega arith) refl refl ((refl, tt), (tt, tt))
      ((refl, tt), ((refl, omega arith), tt)) waiting_run
