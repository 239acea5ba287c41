-- ===== src/Distr/Central/Gather.antt =====
-- The loop of `step_network` that reads the commands of the nodes.
use outcome.Prelude.{
  ℕ, zero, suc, ◌+◌, ◌<◌, ◌≡◌, ◌≢◌, ◌⊎◌, refl, sym, ap, ◌∙◌, true, false, List, [], ◌∷◌, Option,
  some, get_elem?, length, remove, nat_eq, ◌==◌, if◌then◌else◌, arith, All, contains, Bool-cases,
  inl, inr, eqb_iff,
}
use outcome.Prelude.Result.{Result, ok}
use mathlib.Core.Path.{subst}
use outcome.Data.{Error}
use outcome.Machine.Exec.{Central}
use outcome.Distr.Central.Network.{Received, Inboxes, update, Gathering, next_node, receive, gather}
use outcome.Distr.Central.Inbox.{
  Item, sent, is_end, Ends, weigh, total, Distinct, update_other, total_read,
}
use outcome.Distr.Central.Rounds.{
  Ready, next_node_counter, from_start, remove-Distinct, contains-remove, left, after, receive-end,
  receive-GoesOn, read-Ends, first_received, Progress,
}

-- What the loop comes to: each node's messages are read up to their end, and all the commands in front of
-- it are gathered.
abbrev pub Gathered : Option (Result Error (Inboxes × Central)) → Inboxes → Gathering → Type 0
Gathered o net g =
    (net' : Inboxes) × (cmds : Central) × (o ≡ some (ok (net', cmds)))
    × ((w : Item → ℕ)
        → weigh w cmds ≡ weigh w g.cext_cmds + total (λ rs. weigh w (sent rs)) net g.do_nodes)
    × ((j : ℕ) → net' j ≡ after net g.do_nodes j)

module _ (net : Inboxes) (g : Gathering) (n : ℕ) (r : Received) (rs : List Received)
    (distinct : Distinct g.do_nodes) (ends : All (λ i. Ends (net i)) g.do_nodes)
    (lt : g.node_counter < length g.do_nodes) (at : get_elem? g.do_nodes g.node_counter ≡ some n)
    (first : net n ≡ r ∷ rs) where
  after_end :
      is_end r ≡ true
      → (j : ℕ)
      → after (update net n rs) (remove g.node_counter g.do_nodes) j ≡ after net g.do_nodes j
  after_end h j = elim (Bool-cases (n == j)) [
    | inl e ↦
        let same : n ≡ j = (eqb_iff n j).0 e in
        let (there, gone, other) = contains-remove g.node_counter n j g.do_nodes distinct at in
        subst
          (λ i.
            after (update net n rs) (remove g.node_counter g.do_nodes) i ≡ after net g.do_nodes i)
          same (rw (there, gone, first, h, (eqb_iff n n).1 refl) refl)
    | inr e ↦
        let differ : n ≢ j = λ same. ground (arith, eqb_iff n j) in
        let (there, gone, other) = contains-remove g.node_counter n j g.do_nodes distinct at in
        rw (other differ, update_other net n j rs differ) refl
  ]

  after_goes_on :
      is_end r ≡ false → (j : ℕ) → after (update net n rs) g.do_nodes j ≡ after net g.do_nodes j
  after_goes_on h j = elim (Bool-cases (n == j)) [
    | inl e ↦
        let same : n ≡ j = (eqb_iff n j).0 e in
        let (there, gone, other) = contains-remove g.node_counter n j g.do_nodes distinct at in
        subst (λ i. after (update net n rs) g.do_nodes i ≡ after net g.do_nodes i) same
          (rw (there, first, h, (eqb_iff n n).1 refl) refl)
    | inr e ↦
        let differ : n ≢ j = λ same. ground (arith, eqb_iff n j) in
        rw (update_other net n j rs differ) refl
  ]

  Progress-end : is_end r ≡ true → Progress net g (update net n rs) (receive r g)
  unfolding next_node
  Progress-end h =
      let (e, none_sent) = receive-end r g rs h in
      subst (λ g'. Progress net g (update net n rs) g') (sym e)
        (
          (
            remove-Distinct g.node_counter g.do_nodes distinct,
            (read-Ends net n g.node_counter rs g.do_nodes distinct at ends).0,
            next_node_counter (remove g.node_counter g.do_nodes) g.node_counter g.cext_cmds,
          ),
          omega
              (arith, (total_read length net n g.node_counter r rs g.do_nodes distinct at first).1),
          λ w. omega (
            arith,
            ap (weigh w) none_sent,
            (total_read (λ i. weigh w (sent i)) net n g.node_counter r rs g.do_nodes distinct at
                first).1,
          ),
          after_end h,
        )

  Progress-goes_on : is_end r ≡ false → Ends rs → Progress net g (update net n rs) (receive r g)
  Progress-goes_on h ends_rs =
      let same : (receive r g).do_nodes ≡ g.do_nodes = (receive-GoesOn (λ i. 0) r g rs h lt).0 in
      let lt' : (receive r g).node_counter < length g.do_nodes =
        elim (receive-GoesOn (λ i. 0) r g rs h lt).1 [ inl e ↦ rw e lt | inr l ↦ l ] in
      rw same (
        (
          distinct,
          (read-Ends net n g.node_counter rs g.do_nodes distinct at ends).1 ends_rs,
          inr lt',
        ),
        omega (arith, (total_read length net n g.node_counter r rs g.do_nodes distinct at first).0),
        λ w. omega (
          arith,
          (receive-GoesOn w r g rs h lt).2,
          (total_read (λ i. weigh w (sent i)) net n g.node_counter r rs g.do_nodes distinct at
              first).0,
        ),
        after_goes_on h,
      )

  progress : Ends (r ∷ rs) → Progress net g (update net n rs) (receive r g)
  progress h = elim (Bool-cases (is_end r)) [
    | inl e ↦ Progress-end e
    | inr e ↦ Progress-goes_on e (subst (λ b. if b then Unit {0} else Ends rs) e h)
  ]

  gather-read :
      (fuel : ℕ) (x : ℕ) (xs : List ℕ)
      → g.do_nodes ≡ x ∷ xs
      → gather (suc fuel) net g ≡ gather fuel (update net n rs) (receive r g)
  unfolding gather
  gather-read fuel x xs e = ground arith

  gather_round :
      (fuel : ℕ) (x : ℕ) (xs : List ℕ)
      → g.do_nodes ≡ x ∷ xs
      → total length net g.do_nodes < suc fuel
      → Ends (r ∷ rs)
      → ((net' : Inboxes) (g' : Gathering)
          → Ready net' g'
          → total length net' g'.do_nodes < fuel
          → Gathered (gather fuel net' g') net' g')
      → Gathered (gather (suc fuel) net g) net g
  gather_round fuel x xs e enough h later =
      let (ready, less, weights, inboxes) = progress h in
      let (net', cmds, done, weighed, read) =
        later (update net n rs) (receive r g) ready (omega arith) in
      (
        net',
        cmds,
        gather-read fuel x xs e ∙ done,
        λ w. omega (arith, weighed w, weights w),
        λ j. read j ∙ inboxes j,
      )

gather_nodes :
    (fuel : ℕ) (net : Inboxes) (nodes : List ℕ) (g : Gathering)
    → g.do_nodes ≡ nodes
    → Ready net g
    → total length net g.do_nodes < suc fuel
    → ((net' : Inboxes) (g' : Gathering)
        → Ready net' g'
        → total length net' g'.do_nodes < fuel
        → Gathered (gather fuel net' g') net' g')
    → Gathered (gather (suc fuel) net g) net g
unfolding gather
gather_nodes fuel net [] g e ready enough later =
    (net, g.cext_cmds, rw e refl, λ w. rw e (omega arith), λ j. rw e refl)
gather_nodes fuel net (x ∷ xs) g e (distinct, ends, counter) enough later =
    let lt : g.node_counter < length g.do_nodes = elim counter [ inl none_left ↦ cc | inr l ↦ l ] in
    let (n, r, rs, at, first, ends') = first_received net g.node_counter g.do_nodes lt ends in
    gather_round net g n r rs distinct ends lt at first fuel x xs e enough ends' later

gather-Ready :
    (fuel : ℕ) (net : Inboxes) (g : Gathering)
    → Ready net g
    → total length net g.do_nodes < fuel
    → Gathered (gather fuel net g) net g
gather-Ready zero net g ready enough = absurd (omega arith)
gather-Ready (suc fuel) net g ready enough =
    gather_nodes fuel net g.do_nodes g refl ready enough (gather-Ready fuel)

-- Where no node stands twice in the list and each ends its messages sooner or later, the loop ends within as
-- many rounds as there are things to read, and one more. It never looks past its list of nodes. The commands
-- that it gathers are those that the nodes send in front of their first `EndOfMessages` or
-- `ProcessStepFinished`, each as often as it is sent: any weights of commands add up to the same. What a node
-- sent below that is left in its inbox.
pub gather-sent :
    (net : Inboxes) (nodes : List ℕ) (fuel : ℕ)
    → Distinct nodes
    → All (λ n. Ends (net n)) nodes
    → total length net nodes < fuel
    → (net' : Inboxes) × (cmds : Central) × (gather fuel net
          (record { do_nodes = nodes; node_counter = 0; cext_cmds = [] })
        ≡ some (ok (net', cmds)))
      × ((w : Item → ℕ) → weigh w cmds ≡ total (λ rs. weigh w (sent rs)) net nodes)
      × ((n : ℕ) → net' n ≡ (if contains nodes n then left (net n) else net n))
gather-sent net nodes fuel distinct ends enough =
    let start : (nodes ≡ []) ⊎ (0 < length nodes) = from_start nodes in
    let (net', cmds, done, weighed, read) =
      gather-Ready fuel net (record { do_nodes = nodes; node_counter = 0; cext_cmds = [] })
        (distinct, ends, start) enough in
    (net', cmds, done, λ w. omega (arith, weighed w), read)
