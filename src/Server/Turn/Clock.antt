-- ===== src/Server/Turn/Clock.antt =====
-- How far a turn takes the clock.
use outcome.Prelude.{
  ℕ, zero, suc, ◌+◌, ◌-◌, ◌^◌, ◌<◌, ◌≡◌, sym, ◌++◌, Option, none, some, All, arith, Option-cases,
  inl, inr, nat_eq,
}
use mathlib.Core.Path.{subst}
use outcome.Prelude.Assoc
use outcome.Prelude.Assoc.{Assoc}
use outcome.Prelude.Result.{Result, ok, err, panic, Ensures, Ensures-any}
use outcome.Std.{Std}
use outcome.Machine.Command.{Extend}
use outcome.Sim.{Sim}
use outcome.Sim.Index.{IsIndexed, Sound}
use outcome.Sim.Remote.{Remote}
use outcome.Sim.Sound.{Yields, Ticked, Ticked-step}
use outcome.Sim.Step.{step, Work}
use outcome.Server.{Client, Server, Outbox, ServerError}
use outcome.Server.Turn.{
  TurnAdvanceRequest, announce, common_furthest_step, serve_clients, after_round, advance, answer,
  advance_to_common, handle_turn_advance_request, with_clients,
}
use outcome.Server.Turn.Bounds.{Held, Ready-Held, common-Ready, common-word, announce-word}

module _ {Pool : Type 0} where
  -- The server, where a turn comes to one, has the property.
  abbrev pub Ends :
      (Server Pool → Type 0) → Option (Result ServerError (Server Pool × Outbox)) → Type 0
  Ends P none = Unit
  Ends P (some (err e)) = Unit
  Ends P (some panic) = Unit
  Ends P (some (ok (server, out))) = P server

  pub Ends-answer :
      (P : Server Pool → Type 0) (turned : Option (Result ServerError (Server Pool × Outbox)))
      (server : Server Pool) (out : Outbox)
      → turned ≡ some (ok (server, out))
      → Ends P turned
      → P server
  Ends-answer P turned server out e h = subst (Ends P) e h

  pub Ends-map :
      (P Q : Server Pool → Type 0) (turned : Option (Result ServerError (Server Pool × Outbox)))
      → ((s : Server Pool) → P s → Q s)
      → Ends P turned
      → Ends Q turned
  Ends-map P Q none f h = tt
  Ends-map P Q (some (err e)) f h = tt
  Ends-map P Q (some panic) f h = tt
  Ends-map P Q (some (ok (server, out))) f h = f server h

module _ {Pool : Type 0} ⦃std : Std⦄ (request_id : Pool → Option (ℕ × Pool))
    (extend : Extend → Sim Pool → ℕ → Remote Pool) where
  pub Ends-after_round :
      (P : Server Pool → Type 0) (out : Outbox)
      (turned : Option (Result ServerError (Server Pool × Outbox)))
      → Ends P turned
      → Ends P (after_round request_id extend out turned)
  Ends-after_round P out none h = tt
  Ends-after_round P out (some (ok (server, later))) h = h
  Ends-after_round P out (some (err e)) h = tt
  Ends-after_round P out (some panic) h = tt

  pub Ends-served :
      (P : Server Pool → Type 0) (Q : Assoc ℕ (Client Pool) → Type 0)
      (served : Result ServerError (Assoc ℕ (Client Pool) × Outbox))
      (next : Assoc ℕ (Client Pool) → Option (Result ServerError (Server Pool × Outbox)))
      → Ensures (λ r. Q r.0) served
      → ((cs : Assoc ℕ (Client Pool)) → Q cs → Ends P (next cs))
      → Ends P (elim served [
        | err e ↦ some (err e)
        | panic ↦ some panic
        | ok (clients, out) ↦ after_round request_id extend out (next clients)
      ])
  Ends-served P Q (err e) next q h = tt
  Ends-served P Q panic next q h = tt
  Ends-served P Q (ok (clients, out)) next q h = Ends-after_round P out (next clients) (h clients q)

  pub Ends-stepped :
      (P : Server Pool → Type 0) (Q : Sim Pool → Type 0) (stepped : Work (Sim Pool))
      (next : Sim Pool → Option (Result ServerError (Server Pool × Outbox)))
      → Yields Q stepped
      → ((sim : Sim Pool) → Q sim → Ends P (next sim))
      → Ends P (elim stepped [
        | none ↦ none
        | some (err e) ↦ none
        | some panic ↦ some panic
        | some (ok sim) ↦ next sim
      ])
  Ends-stepped P Q none next q h = tt
  Ends-stepped P Q (some (err e)) next q h = tt
  Ends-stepped P Q (some panic) next q h = tt
  Ends-stepped P Q (some (ok sim)) next q h = h sim q

  -- The clock has reached the given time.
  abbrev Reached : ℕ → Server Pool → Type 0
  Reached time server = (server.sim.clock ≡ time) × IsIndexed server.sim

  Reached-advance :
      (fuel id clock : ℕ) (server : Server Pool) (n : ℕ)
      → ((t : ℕ) (c : Extend) (s : Sim Pool) (ent : ℕ) → Sound t s → Sound t (extend c s ent).0)
      → IsIndexed server.sim
      → server.sim.clock + n < 2 ^ 64
      → Ends (Reached (server.sim.clock + n)) (advance request_id extend fuel id clock server n)
  unfolding advance
  Reached-advance fuel id clock server zero he h lt = (omega arith, h)
  Reached-advance fuel id clock server (suc n) he h lt =
      let P = Reached (server.sim.clock + suc n) in
      Ends-stepped P (Ticked request_id extend server.sim) (step request_id extend fuel server.sim)
        _ (Ticked-step request_id extend fuel server.sim (he server.sim.clock) h)
        (λ sim (e, queued, indexed).
          Ends-served P (λ cs. Unit) (serve_clients request_id id (clock + 1) sim server.clients) _
            (Ensures-any (serve_clients request_id id (clock + 1) sim server.clients))
            (λ cs any.
              let one : server.sim.clock + 1 ≡ sim.clock = omega (arith, e, lt) in
              let all : sim.clock + n ≡ server.sim.clock + suc n = omega (arith, one) in
              subst
                (λ t. Ends (Reached t) (
                  advance request_id extend fuel id (clock + 1) (record { sim = sim; clients = cs })
                    n))
                all
                (Reached-advance fuel id (clock + 1) (record { sim = sim; clients = cs }) n he
                  indexed (omega (arith, all, lt)))))

  pub Ends-answered :
      (P Q : Server Pool → Type 0) (turned : Option (Result ServerError (Server Pool × Outbox)))
      (id clock common : ℕ) (req : TurnAdvanceRequest)
      → ((s : Server Pool) (c : Client Pool)
          → Assoc.get id s.clients ≡ some c
          → P s
          → Q (
              with_clients request_id extend s
                (Assoc.insert id (answer request_id extend id req c clock common).0 s.clients)))
      → Ends P turned
      → Ends Q (elim turned [
        | none ↦ none
        | some (err e) ↦ some (err e)
        | some panic ↦ some panic
        | some (ok (server', out)) ↦ elim (Assoc.get id server'.clients) [
          | none ↦ some panic
          | some c ↦
              let (c', last) = answer request_id extend id req c clock common in
              some (
                ok (
                  with_clients request_id extend server' (Assoc.insert id c' server'.clients),
                  out ++ last,
                ))
        ]
      ])
  Ends-answered P Q none id clock common req f h = tt
  Ends-answered P Q (some (err e)) id clock common req f h = tt
  Ends-answered P Q (some panic) id clock common req f h = tt
  Ends-answered P Q (some (ok (server, out))) id clock common req f h =
      elim (Option-cases (Assoc.get id server.clients)) [
        | inl e ↦ rw (e) tt
        | inr (c, e) ↦ rw (e) (f server c e h)
      ]

  -- The clients once the one that sent the request has announced its furthest step.
  abbrev pub announced : ℕ → TurnAdvanceRequest → Client Pool → Server Pool → Assoc ℕ (Client Pool)
  announced id req c server =
      Assoc.insert id (announce server.sim.clock req.step_count c) server.clients

  abbrev pub common_step : ℕ → TurnAdvanceRequest → Client Pool → Server Pool → ℕ
  common_step id req c server =
      common_furthest_step server.sim.clock (announce server.sim.clock req.step_count c)
        (announced id req c server)

  -- What a turn comes to.
  abbrev pub Kept : ℕ → TurnAdvanceRequest → Client Pool → Server Pool → Sim Pool → Type 0
  Kept id req c server sim =
      let clock = server.sim.clock in
      (sim.clock ≡ clock + (common_step id req c server - clock))
      × (All (Held clock sim.clock) (announced id req c server) × IsIndexed sim)

  Kept-advance_to_common :
      (fuel id : ℕ) (req : TurnAdvanceRequest) (server : Server Pool) (c : Client Pool)
      → ((t : ℕ) (c : Extend) (s : Sim Pool) (ent : ℕ) → Sound t s → Sound t (extend c s ent).0)
      → IsIndexed server.sim
      → server.sim.clock < 2 ^ 64
      → c.furthest_step < 2 ^ 64
      → Ends
          (λ s. Kept id req c server s.sim)
          (advance_to_common request_id extend fuel id req
            (announce server.sim.clock req.step_count c)
            (with_clients request_id extend server (announced id req c server)))
  unfolding advance_to_common
  Kept-advance_to_common fuel id req server c he h small near =
      let clock = server.sim.clock in
      let common = common_step id req c server in
      let cs = announced id req c server in
      let less : common < 2 ^ 64 =
        common-word clock (announce clock req.step_count c) cs
          (announce-word clock req.step_count c small near) in
      Ends-answered (λ s. Kept id req c server s.sim) (λ s. Kept id req c server s.sim)
        (advance request_id extend fuel id clock (with_clients request_id extend server cs)
          (common - clock))
        id clock common req (λ s d e p. p)
        (Ends-map (Reached (clock + (common - clock))) (λ s. Kept id req c server s.sim) _
          (λ s (now, indexed). (
            now,
            (
              subst (λ t. All (Held clock t) cs) (sym now)
                  (Ready-Held clock common cs
                    (common-Ready clock (announce clock req.step_count c) cs)),
              indexed,
            ),
          ))
          (Reached-advance fuel id clock (with_clients request_id extend server cs) (common - clock)
            he h (omega (arith, less, small))))

  Kept-handle :
      (fuel id : ℕ) (req : TurnAdvanceRequest) (server : Server Pool) (c : Client Pool)
      → ((t : ℕ) (c : Extend) (s : Sim Pool) (ent : ℕ) → Sound t s → Sound t (extend c s ent).0)
      → IsIndexed server.sim
      → server.sim.clock < 2 ^ 64
      → c.furthest_step < 2 ^ 64
      → Assoc.get id server.clients ≡ some c
      → Ends
          (λ s. Kept id req c server s.sim)
          (handle_turn_advance_request request_id extend fuel id req server)
  unfolding handle_turn_advance_request
  Kept-handle fuel id req server c he h small near e =
      rw (Ends, e) (Kept-advance_to_common fuel id req server c he h small near)

  -- Suppose that `extend` keeps the clock and the index, that every name in the index leads to an entity,
  -- and that the clock and the furthest step of the client are machine words. Where its request for a turn
  -- is handled without an error, the clock ends at the step that the clients have in common, or stays if
  -- that is not later; every blocking client has announced that it is ready for it, if the clock moved;
  -- and every name in the index still leads to an entity.
  pub handle_turn_advance_request-Held :
      (fuel id : ℕ) (req : TurnAdvanceRequest) (server server' : Server Pool) (c : Client Pool)
      (out : Outbox)
      → ((t : ℕ) (c : Extend) (s : Sim Pool) (ent : ℕ) → Sound t s → Sound t (extend c s ent).0)
      → IsIndexed server.sim
      → server.sim.clock < 2 ^ 64
      → c.furthest_step < 2 ^ 64
      → Assoc.get id server.clients ≡ some c
      → handle_turn_advance_request request_id extend fuel id req server ≡ some (ok (server', out))
      → (server'.sim.clock ≡ server.sim.clock + (common_step id req c server - server.sim.clock))
        × (All (Held server.sim.clock server'.sim.clock) (announced id req c server)
            × IsIndexed server'.sim)
  handle_turn_advance_request-Held fuel id req server server' c out he h small near e answer =
      Ends-answer (λ s. Kept id req c server s.sim) _ server' out answer
        (Kept-handle fuel id req server c he h small near e)
