-- ===== src/Server/Turn/Kept.antt =====
-- What serving the clients after a step leaves of them, and of what they wait for.
use outcome.Prelude.{
  ℕ, ◌+◌, ◌≡◌, refl, sym, ◌∙◌, nat_eq, String, List, [], ◌∷◌, Option, none, some, All, contains,
  string_eq, ◌==◌, true, false, Bool-cases, inl, inr, ◌⊎◌, ◌<◌, arith,
}
use mathlib.Core.Path.{subst}
use outcome.Prelude.Assoc
use outcome.Prelude.Assoc.{Assoc}
use outcome.Prelude.Result.{Result, Ensures, Ensures->>=, Ensures-then, Ensures-if, unwrap, ok_or}
use outcome.Std.{Std}
use outcome.Sim.{Sim}
use outcome.Server.{DataTransferRequest, Client, ServerError}
use outcome.Server.Transfer.{
  handle_data_transfer_request_local, transfer_ordered, selected_floats, vars_at, order_of,
}
use outcome.Server.Turn.{
  transfer_all, scheduled_transfers, scheduled_queries, respond_scheduled, serve_client,
  serve_clients,
}

-- The step that is waited for, if there is one, is later.
abbrev pub Later : ℕ → Option ℕ → Type 0
Later now none = Unit
Later now (some t) = now < t

passed : (now t : ℕ) → now < t → (t == now + 1) ≡ false → now + 1 < t
passed now t later not_yet = ground arith

module _ {Pool : Type 0} where
  -- The same client, of which only the orders may have changed.
  abbrev pub Alike : Client Pool → Client Pool → Type 0
  Alike c c' =
      (c'.id ≡ c.id)
      × ((c'.furthest_step ≡ c.furthest_step)
          × (c'.scheduled_advance_response ≡ c.scheduled_advance_response))

  Alike-trans : (a b c : Client Pool) → Alike a b → Alike b c → Alike a c
  Alike-trans a b c (i, (f, s)) (i', (f', s')) = (i' ∙ i, (f' ∙ f, s' ∙ s))

  -- A result whose client is like the given one.
  abbrev pub Keeps {ℓ} : {A : Type ℓ} → Client Pool → Result ServerError (Client Pool × A) → Type 0
  Keeps c = Ensures (λ r. Alike c r.0)

  module _ ⦃std : Std⦄ (request_id : Pool → Option (ℕ × Pool)) where
    Keeps-ordered :
        (selection : List String) (sim : Sim Pool) (c : Client Pool)
        → Keeps c (transfer_ordered request_id selection sim c)
    unfolding transfer_ordered
    Keeps-ordered [] sim c =
        Ensures->>= _ (unwrap (Assoc.get 1 c.order_store)) _
          (λ order. Ensures->>= _ (vars_at sim order) _ (λ vars. (refl, (refl, refl))))
    Keeps-ordered (query ∷ queries) sim c =
        Ensures->>= _ (order_of sim.entities (query ∷ queries)) _ (λ order.
          Ensures->>= _ (vars_at sim order) _ (λ vars.
            Ensures->>= _ (ok_or _ (request_id c.order_id_pool)) _ (λ r. (refl, (refl, refl)))))

    Keeps-handle :
        (request : DataTransferRequest) (sim : Sim Pool) (c : Client Pool)
        → Keeps c (handle_data_transfer_request_local request_id request sim c)
    unfolding handle_data_transfer_request_local
    Keeps-handle request sim c =
        Ensures-if _ (request.transfer_type == "Full") _ _ (refl, (refl, refl))
          (Ensures-if _ (request.transfer_type == "Select") _ _
            (Ensures->>= _ (selected_floats sim request.selection []) _
              (λ floats. (refl, (refl, refl))))
            (Ensures-if _ (request.transfer_type == "SelectVarOrdered") _ _
              (Keeps-ordered request.selection sim c) tt))

    Keeps-transfer_all :
        (dtrs : List DataTransferRequest) (sim : Sim Pool) (c : Client Pool)
        → Keeps c (transfer_all request_id dtrs sim c)
    unfolding transfer_all
    Keeps-transfer_all [] sim c = (refl, (refl, refl))
    Keeps-transfer_all (dtr ∷ dtrs) sim c =
        Ensures-then (λ r. Alike c r.0) _ (handle_data_transfer_request_local request_id dtr sim c)
          _ (Keeps-handle dtr sim c)
          (λ (c', response) first.
            Ensures-then (λ r. Alike c' r.0) _ (transfer_all request_id dtrs sim c') _
              (Keeps-transfer_all dtrs sim c')
              (λ (c'', out) later. Alike-trans c c' c'' first later))

    Keeps-scheduled_transfers :
        (transfers : Assoc String (List DataTransferRequest)) (sim : Sim Pool) (c : Client Pool)
        → Keeps c (scheduled_transfers request_id transfers sim c)
    unfolding scheduled_transfers
    Keeps-scheduled_transfers [] sim c = (refl, (refl, refl))
    Keeps-scheduled_transfers ((event, dtrs) ∷ rest) sim c =
        Ensures-if _ (contains sim.event_queue event) _ _
          (Ensures-then (λ r. Alike c r.0) _ (transfer_all request_id dtrs sim c) _
            (Keeps-transfer_all dtrs sim c)
            (λ (c', out) first.
              Ensures-then (λ r. Alike c' r.0) _ (scheduled_transfers request_id rest sim c') _
                (Keeps-scheduled_transfers rest sim c')
                (λ (c'', out') later. Alike-trans c c' c'' first later)))
          (Keeps-scheduled_transfers rest sim c)

  -- A client that waits does so for a later step.
  abbrev pub Waits : ℕ → ℕ × Client Pool → Type 0
  Waits now (k, c) = (c.id ≡ k) × Later now c.scheduled_advance_response

  -- During a turn of the client with the given id, which has announced its furthest step.
  abbrev pub Turning : ℕ → ℕ → ℕ → ℕ × Client Pool → Type 0
  Turning id furthest now (k, c) =
      (c.id ≡ k)
      × ((((k == id) ≡ true)
            × ((c.furthest_step ≡ furthest) × (c.scheduled_advance_response ≡ none)))
          ⊎ (((k == id) ≡ false) × Later now c.scheduled_advance_response))

  Turning-Alike :
      (id furthest now k : ℕ) (c c' : Client Pool)
      → Alike c c'
      → Turning id furthest now (k, c)
      → Turning id furthest now (k, c')
  Turning-Alike id furthest now k c c' (i, (f, s)) (ik, inl (own, (fu, none_yet))) =
      (i ∙ ik, inl (own, (f ∙ fu, s ∙ none_yet)))
  Turning-Alike id furthest now k c c' (i, (f, s)) (ik, inr (other, later)) =
      (i ∙ ik, inr (other, subst (Later now) (sym s) later))

  Turning-respond_other :
      (id furthest now k : ℕ) (c : Client Pool) (scheduled : Option ℕ)
      → c.id ≡ k
      → (k == id) ≡ false
      → (c.id == id) ≡ false
      → c.scheduled_advance_response ≡ scheduled
      → Later now scheduled
      → Turning id furthest (now + 1) (k, (respond_scheduled id (now + 1) c).0)
  unfolding respond_scheduled
  Turning-respond_other id furthest now k c none ik other asks e later =
      rw (asks, e) (ik, inr (other, subst (Later (now + 1)) (sym e) tt))
  Turning-respond_other id furthest now k c (some t) ik other asks e later =
      elim (Bool-cases (t == now + 1)) [
        | inl now_due ↦ rw (asks, e, now_due) (ik, inr (other, tt))
        | inr not_yet ↦
            rw (asks, e, not_yet)
              (ik, inr (other, subst (Later (now + 1)) (sym e) (passed now t later not_yet)))
      ]

  Turning-respond :
      (id furthest now k : ℕ) (c : Client Pool)
      → Turning id furthest now (k, c)
      → Turning id furthest (now + 1) (k, (respond_scheduled id (now + 1) c).0)
  unfolding respond_scheduled
  Turning-respond id furthest now k c (ik, inl (own, rest)) =
      let asks : (c.id == id) ≡ true = subst (λ i. (i == id) ≡ true) (sym ik) own in
      rw (asks) (ik, inl (own, rest))
  Turning-respond id furthest now k c (ik, inr (other, later)) =
      Turning-respond_other id furthest now k c c.scheduled_advance_response ik other
        (subst (λ i. (i == id) ≡ false) (sym ik) other) refl later

  module _ ⦃std : Std⦄ (request_id : Pool → Option (ℕ × Pool)) where
    Turning-serve_client :
        (id furthest now k : ℕ) (sim : Sim Pool) (c : Client Pool)
        → Turning id furthest now (k, c)
        → Ensures
            (λ r. Turning id furthest (now + 1) (k, r.0))
            (serve_client request_id id (now + 1) sim c)
    unfolding serve_client
    Turning-serve_client id furthest now k sim c h =
        Ensures-then (λ r. Alike c r.0) _
          (scheduled_transfers request_id c.scheduled_transfers sim c) _
          (Keeps-scheduled_transfers request_id c.scheduled_transfers sim c)
          (λ (c', out) same.
            Ensures->>= _ (scheduled_queries request_id c.id c.scheduled_queries sim) _ (λ queried.
              Turning-respond id furthest now k c' (Turning-Alike id furthest now k c c' same h)))

    pub Turning-serve_clients :
        (id furthest now : ℕ) (sim : Sim Pool) (cs : Assoc ℕ (Client Pool))
        → All (Turning id furthest now) cs
        → Ensures
            (λ r. All (Turning id furthest (now + 1)) r.0)
            (serve_clients request_id id (now + 1) sim cs)
    unfolding serve_clients
    Turning-serve_clients id furthest now sim [] h = tt
    Turning-serve_clients id furthest now sim ((k, c) ∷ cs) (hc, h) =
        Ensures-then (λ r. Turning id furthest (now + 1) (k, r.0)) _
          (serve_client request_id id (now + 1) sim c) _
          (Turning-serve_client id furthest now k sim c hc)
          (λ first hf.
            Ensures-then (λ r. All (Turning id furthest (now + 1)) r.0) _
              (serve_clients request_id id (now + 1) sim cs) _
              (Turning-serve_clients id furthest now sim cs h) (λ later hl. (hf, hl)))
