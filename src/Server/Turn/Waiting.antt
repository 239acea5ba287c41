-- ===== src/Server/Turn/Waiting.antt =====
-- The clients that wait for a step, during a turn.
use mathlib.Core.Path.{subst}
use outcome.Prelude.{
  ℕ, zero, suc, ◌+◌, ◌-◌, ◌*◌, ◌^◌, ◌<◌, ◌≡◌, refl, sym, ◌∙◌, true, false, [], ◌∷◌, Option, none,
  some, All, arith, ltb, Bool-cases, inl, inr, nat_eq, ◌==◌, eqb_iff,
}
use outcome.Prelude.Assoc
use outcome.Prelude.Assoc.{Assoc}
use outcome.Prelude.Result.{ok, err, panic}
use outcome.Std.{Std}
use outcome.Machine.Command.{Extend}
use outcome.Sim.{Sim}
use outcome.Sim.Index.{IsIndexed, Sound}
use outcome.Sim.Remote.{Remote}
use outcome.Sim.Sound.{Yields}
use outcome.Sim.Step.{step, Work}
use outcome.Server.{Client, Server, Outbox}
use outcome.Server.Turn.{
  TurnAdvanceRequest, announce, serve_clients, advance, answer, advance_to_common,
  handle_turn_advance_request, with_clients,
}
use outcome.Server.Turn.Kept.{Later, Waits, Turning, Turning-serve_clients}
use outcome.Server.Turn.Clock.{
  Ends, Ends-answer, Ends-answered, Ends-served, Ends-stepped, handle_turn_advance_request-Held,
  common_step, announced,
}

module _ {Pool : Type 0} where
  -- No two clients have one id.
  abbrev pub Distinct : Assoc ℕ (Client Pool) → Type 0
  Distinct [] = Unit
  Distinct ((k, c) ∷ cs) = All (λ e. (e.0 == k) ≡ false) cs × Distinct cs

  All-insert :
      (P : ℕ × Client Pool → Type 0) (id : ℕ) (c : Client Pool) (cs : Assoc ℕ (Client Pool))
      → P (id, c)
      → All P cs
      → All P (Assoc.insert id c cs)
  unfolding Assoc.insert
  All-insert P id c [] p h = (p, tt)
  All-insert P id c ((k, d) ∷ cs) p (hd, h) = elim (Bool-cases (k == id)) [
    | inl e ↦ rw (e) (p, h)
    | inr e ↦ rw (e) (hd, All-insert P id c cs p h)
  ]

  All-get :
      (P : ℕ × Client Pool → Type 0) (id : ℕ) (c : Client Pool) (cs : Assoc ℕ (Client Pool))
      → All P cs
      → Assoc.get id cs ≡ some c
      → (k : ℕ) × (((k == id) ≡ true) × P (k, c))
  unfolding Assoc.get
  All-get P id c [] h e = absurd (ground arith)
  All-get P id c ((k, d) ∷ cs) (hd, h) e = elim (Bool-cases (k == id)) [
    | inl own ↦ (k, (own, subst (λ x. P (k, x)) (ground arith) hd))
    | inr other ↦ All-get P id c cs h (ground arith)
  ]

  -- The other clients, as a turn starts.
  Turning-others :
      (id furthest now : ℕ) (k : ℕ) (cs : Assoc ℕ (Client Pool))
      → (k == id) ≡ true
      → All (λ e. (e.0 == k) ≡ false) cs
      → All (Waits now) cs
      → All (Turning id furthest now) cs
  Turning-others id furthest now k [] own apart h = tt
  Turning-others id furthest now k ((j, c) ∷ cs) own (aj, apart) ((ij, later), h) =
      ((ij, inr (ground arith, later)), Turning-others id furthest now k cs own apart h)

  Turning-start :
      (id now : ℕ) (c : Client Pool) (cs : Assoc ℕ (Client Pool))
      → c.id ≡ id
      → c.scheduled_advance_response ≡ none
      → Distinct cs
      → All (Waits now) cs
      → All (Turning id c.furthest_step now) (Assoc.insert id c cs)
  unfolding Assoc.insert
  Turning-start id now c [] own idle apart h = ((own, inl (ground arith, (refl, idle))), tt)
  Turning-start id now c ((k, d) ∷ cs) own idle (ak, apart) ((ik, later), h) =
      elim (Bool-cases (k == id)) [
        | inl e ↦ rw (e) (
          (own, inl (ground arith, (refl, idle))),
          Turning-others id c.furthest_step now k cs e ak h,
        )
        | inr e ↦ rw (e) ((ik, inr (e, later)), Turning-start id now c cs own idle apart h)
      ]

  Waits-turned :
      (id furthest now : ℕ) (cs : Assoc ℕ (Client Pool))
      → All (Turning id furthest now) cs
      → All (Waits now) cs
  Waits-turned id furthest now [] h = tt
  Waits-turned id furthest now ((k, c) ∷ cs) ((ik, inl (own, (f, idle))), h) =
      ((ik, subst (Later now) (sym idle) tt), Waits-turned id furthest now cs h)
  Waits-turned id furthest now ((k, c) ∷ cs) ((ik, inr (other, later)), h) =
      ((ik, later), Waits-turned id furthest now cs h)

  announce-ahead :
      (clock step_count : ℕ) (c : Client Pool)
      → 0 < step_count
      → clock + 2 * step_count < 2 ^ 64
      → clock < (announce clock step_count c).furthest_step
  unfolding announce
  announce-ahead clock step_count c some_steps small = ground arith

module _ {Pool : Type 0} ⦃std : Std⦄ (request_id : Pool → Option (ℕ × Pool))
    (extend : Extend → Sim Pool → ℕ → Remote Pool) where
  Yields-any : {A : Type 0} (w : Work A) → Yields (λ a. Unit {0}) w
  Yields-any none = tt
  Yields-any (some (ok a)) = tt
  Yields-any (some (err e)) = tt
  Yields-any (some panic) = tt

  Turning-advance :
      (fuel id furthest clock : ℕ) (server : Server Pool) (n : ℕ)
      → All (Turning id furthest clock) server.clients
      → Ends
          (λ s. All (Turning id furthest (clock + n)) s.clients)
          (advance request_id extend fuel id clock server n)
  unfolding advance
  Turning-advance fuel id furthest clock server zero h =
      subst (λ t. All (Turning id furthest t) server.clients) (omega arith) h
  Turning-advance fuel id furthest clock server (suc n) h =
      let P : Server Pool → Type 0 = λ s. All (Turning id furthest (clock + suc n)) s.clients in
      Ends-stepped request_id extend P (λ sim. Unit) (step request_id extend fuel server.sim) _
        (Yields-any (step request_id extend fuel server.sim))
        (λ sim any.
          Ends-served request_id extend P (All (Turning id furthest (clock + 1)))
            (serve_clients request_id id (clock + 1) sim server.clients) _
            (Turning-serve_clients request_id id furthest clock sim server.clients h)
            (λ cs turning.
              let all : (clock + 1) + n ≡ clock + suc n = omega arith in
              subst
                (λ t.
                  Ends (λ s. All (Turning id furthest t) s.clients)
                    (advance request_id extend fuel id (clock + 1)
                      (record { sim = sim; clients = cs }) n))
                all
                (Turning-advance fuel id furthest (clock + 1) (record { sim = sim; clients = cs }) n
                  turning)))

  Waits-answer :
      (id clock common : ℕ) (req : TurnAdvanceRequest) (c : Client Pool)
      → c.id ≡ id
      → c.scheduled_advance_response ≡ none
      → clock < c.furthest_step
      → Waits (clock + (common - clock)) (id, (answer request_id extend id req c clock common).0)
  unfolding answer
  Waits-answer id clock common req c own idle ahead = elim (Bool-cases (common == clock)) [
    | inl e ↦ elim (Bool-cases req.wait) [
      | inl w ↦ rw (e, w) (own, ground arith)
      | inr w ↦ rw (e, w) (own, subst (Later (clock + (common - clock))) (sym idle) tt)
    ]
    | inr e ↦ elim (Bool-cases (ltb common c.furthest_step)) [
      | inl l ↦ elim (Bool-cases req.wait) [
        | inl w ↦ rw (e, l, w) (own, ground arith)
        | inr w ↦ rw (e, l, w) (own, subst (Later (clock + (common - clock))) (sym idle) tt)
      ]
      | inr l ↦ rw (e, l) (own, subst (Later (clock + (common - clock))) (sym idle) tt)
    ]
  ]

  Waits-answered :
      (id clock common : ℕ) (req : TurnAdvanceRequest) (furthest : ℕ) (c : Client Pool)
      (server : Server Pool)
      → clock < furthest
      → Assoc.get id server.clients ≡ some c
      → All (Turning id furthest (clock + (common - clock))) server.clients
      → All
          (Waits (clock + (common - clock)))
          (Assoc.insert id (answer request_id extend id req c clock common).0 server.clients)
  Waits-answered id clock common req furthest c server ahead e h =
      let time = clock + (common - clock) in
      All-insert (Waits time) id (answer request_id extend id req c clock common).0 server.clients
        (let (k, (own, (ik, now))) = All-get (Turning id furthest time) id c server.clients h e in
          elim now [
            | inl (own', (f, idle)) ↦
                Waits-answer id clock common req c (ik ∙ (eqb_iff k id).0 own) idle
                  (subst (λ t. clock < t) (sym f) ahead)
            | inr (other, later) ↦ absurd (ground arith)
          ])
        (Waits-turned id furthest time server.clients h)

  -- Every client that waits does so for a step that is later than where the turn takes the clock.
  abbrev Awaits : ℕ → TurnAdvanceRequest → Client Pool → Server Pool → Server Pool → Type 0
  Awaits id req c before after =
      let clock = before.sim.clock in
      All (Waits (clock + (common_step request_id extend id req c before - clock))) after.clients

  Waits-advance_to_common :
      (fuel id : ℕ) (req : TurnAdvanceRequest) (server : Server Pool) (c : Client Pool)
      → server.sim.clock < (announce server.sim.clock req.step_count c).furthest_step
      → All
          (Turning id (announce server.sim.clock req.step_count c).furthest_step server.sim.clock)
          (announced request_id extend id req c server)
      → Ends (Awaits id req c server) (
          advance_to_common request_id extend fuel id req
            (announce server.sim.clock req.step_count c)
            (with_clients request_id extend server (announced request_id extend id req c server)))
  unfolding advance_to_common
  Waits-advance_to_common fuel id req server c ahead h =
      let clock = server.sim.clock in
      let furthest = (announce clock req.step_count c).furthest_step in
      let common = common_step request_id extend id req c server in
      let cs = announced request_id extend id req c server in
      Ends-answered request_id extend
        (λ s. All (Turning id furthest (clock + (common - clock))) s.clients)
        (Awaits id req c server)
        (advance request_id extend fuel id clock (with_clients request_id extend server cs)
          (common - clock))
        id clock common req
        (λ s d e turning. Waits-answered id clock common req furthest d s ahead e turning)
        (Turning-advance fuel id furthest clock (with_clients request_id extend server cs)
          (common - clock) h)

  Waits-handle :
      (fuel id : ℕ) (req : TurnAdvanceRequest) (server : Server Pool) (c : Client Pool)
      → 0 < req.step_count
      → server.sim.clock + 2 * req.step_count < 2 ^ 64
      → Assoc.get id server.clients ≡ some c
      → c.scheduled_advance_response ≡ none
      → Distinct server.clients
      → All (Waits server.sim.clock) server.clients
      → Ends
          (Awaits id req c server)
          (handle_turn_advance_request request_id extend fuel id req server)
  unfolding handle_turn_advance_request announce
  Waits-handle fuel id req server c some_steps small e idle apart h =
      let clock = server.sim.clock in
      let (k, (own, (ik, later))) = All-get (Waits clock) id c server.clients h e in
      rw (Ends, e)
        (Waits-advance_to_common fuel id req server c
          (announce-ahead clock req.step_count c some_steps small)
          (Turning-start id clock (announce clock req.step_count c) server.clients
            (ik ∙ (eqb_iff k id).0 own) idle apart h))

  -- Suppose that `extend` keeps the clock and the index, that every name in the index leads to an entity,
  -- that no two clients have one id, that the clients are kept under their ids, and that every client that
  -- waits for a step does so for a later one. After a request for at least one step, of a client that waits
  -- for none, every client that waits still does so for a later step than that of the clock, if no error
  -- occurred and the numbers are small enough for machine words: so a step that is waited for is not passed
  -- without an answer.
  pub handle_turn_advance_request-Waits :
      (fuel id : ℕ) (req : TurnAdvanceRequest) (server server' : Server Pool) (c : Client Pool)
      (out : Outbox)
      → ((t : ℕ) (c : Extend) (s : Sim Pool) (ent : ℕ) → Sound t s → Sound t (extend c s ent).0)
      → IsIndexed server.sim
      → 0 < req.step_count
      → server.sim.clock + 2 * req.step_count < 2 ^ 64
      → c.furthest_step < 2 ^ 64
      → Assoc.get id server.clients ≡ some c
      → c.scheduled_advance_response ≡ none
      → Distinct server.clients
      → All (Waits server.sim.clock) server.clients
      → handle_turn_advance_request request_id extend fuel id req server ≡ some (ok (server', out))
      → All (Waits server'.sim.clock) server'.clients
  handle_turn_advance_request-Waits fuel id req server server' c out he indexed some_steps small
        near e idle apart h answer =
      let held =
        handle_turn_advance_request-Held request_id extend fuel id req server server' c out he
          indexed (omega (arith, small)) near e answer in
      subst (λ t. All (Waits t) server'.clients) (sym held.0)
        (Ends-answer (Awaits id req c server) _ server' out answer
          (Waits-handle fuel id req server c some_steps small e idle apart h))
