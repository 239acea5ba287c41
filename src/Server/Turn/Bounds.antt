-- ===== src/Server/Turn/Bounds.antt =====
-- How far a turn takes the clock.
use outcome.Prelude.{
  ℕ, ◌+◌, ◌-◌, ◌%◌, ◌^◌, ◌≤◌, ◌<◌, ◌≡◌, true, false, [], ◌∷◌, All, arith, ltb, leb, nat_eq,
  Bool-cases, ◌⊎◌, inl, inr, if◌then◌else◌,
}
use outcome.Prelude.Assoc.{Assoc}
use outcome.Server.{Client}
use outcome.Server.Turn.{announce, least_furthest, no_blocking_clients, common_furthest_step}

module _ {Pool : Type 0} where
  -- A client that does not block, or is ready for the step.
  abbrev pub Ready : ℕ → ℕ × Client Pool → Type 0
  Ready common (id, c) = (c.is_blocking ≡ false) ⊎ (common ≤ c.furthest_step)

  least_furthest-le : (common : ℕ) (cs : Assoc ℕ (Client Pool)) → least_furthest common cs ≤ common
  unfolding least_furthest
  least_furthest-le common [] = omega arith
  least_furthest-le common ((id, c) ∷ cs) =
      ground (arith, least_furthest-le common cs, least_furthest-le c.furthest_step cs)

  least_furthest-Ready :
      (common : ℕ) (cs : Assoc ℕ (Client Pool)) → All (Ready (least_furthest common cs)) cs
  unfolding least_furthest
  least_furthest-Ready common [] = tt
  least_furthest-Ready common ((id, c) ∷ cs) =
      let next =
        if c.is_blocking
        then if ltb c.furthest_step common then c.furthest_step else common
        else common in
      (
        elim (Bool-cases c.is_blocking) [
          | inl e ↦
              inr
                (ground (arith, least_furthest-le common cs, least_furthest-le c.furthest_step cs))
          | inr e ↦ inl e
        ],
        least_furthest-Ready next cs,
      )

  none_blocking-Ready :
      (n : ℕ) (cs : Assoc ℕ (Client Pool)) → no_blocking_clients cs ≡ true → All (Ready n) cs
  unfolding no_blocking_clients
  none_blocking-Ready n [] h = tt
  none_blocking-Ready n ((id, c) ∷ cs) h =
      (inl (ground arith), none_blocking-Ready n cs (ground arith))

  pub common-Ready :
      (clock : ℕ) (c : Client Pool) (cs : Assoc ℕ (Client Pool))
      → All (Ready (common_furthest_step clock c cs)) cs
  unfolding common_furthest_step
  common-Ready clock c cs = elim (Bool-cases (no_blocking_clients cs)) [
    | inl e ↦ none_blocking-Ready _ cs e
    | inr e ↦ rw (e) (least_furthest-Ready ((clock + 99999) % 2 ^ 64) cs)
  ]

  -- A client that does not block, or is ready for the later time, unless no time has passed.
  abbrev pub Held : ℕ → ℕ → ℕ × Client Pool → Type 0
  Held before after (id, c) =
      (c.is_blocking ≡ false) ⊎ ((after ≡ before) ⊎ (after ≤ c.furthest_step))

  pub Ready-Held :
      (before common : ℕ) (cs : Assoc ℕ (Client Pool))
      → All (Ready common) cs
      → All (Held before (before + (common - before))) cs
  Ready-Held before common [] h = tt
  Ready-Held before common ((id, c) ∷ cs) (inl e, h) = (inl e, Ready-Held before common cs h)
  Ready-Held before common ((id, c) ∷ cs) (inr le, h) = (
    inr (elim (Bool-cases (leb common before)) [
      | inl e ↦ inl (ground arith)
      | inr e ↦ inr (ground arith)
    ]),
    Ready-Held before common cs h,
  )

  pub common-word :
      (clock : ℕ) (c : Client Pool) (cs : Assoc ℕ (Client Pool))
      → c.furthest_step < 2 ^ 64
      → common_furthest_step clock c cs < 2 ^ 64
  unfolding common_furthest_step
  common-word clock c cs h =
      let bound : (clock + 99999) % 2 ^ 64 < 2 ^ 64 = omega arith in
      ground (arith, bound, least_furthest-le ((clock + 99999) % 2 ^ 64) cs)

  pub announce-word :
      (clock step_count : ℕ) (c : Client Pool)
      → clock < 2 ^ 64
      → c.furthest_step < 2 ^ 64
      → (announce clock step_count c).furthest_step < 2 ^ 64
  unfolding announce
  announce-word clock step_count c hc h = ground arith
