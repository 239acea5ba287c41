-- ===== src/Distr/Central/Rounds.antt =====
-- What one round of the loop of `step_network` that reads the nodes' signals does to the list of nodes.
use outcome.Prelude.{
  ℕ, zero, suc, ◌+◌, ◌<◌, ◌≡◌, ◌≢◌, ◌⊎◌, refl, sym, ap, ◌∙◌, true, false, ◌||◌, List, [], ◌∷◌, some,
  get_elem?, length, remove, nat_eq, ◌==◌, if◌then◌else◌, arith, All, contains, inl, inr, eqb_iff,
}
use mathlib.Core.Path.{subst}
use outcome.Machine.Exec.{Central}
use outcome.Distr.{Signal}
use outcome.Distr.Central.Network.{
  Received, signal, would_block, failed, Inboxes, update, Gathering, next_node, receive,
}
use outcome.Distr.Central.Inbox.{
  Item, sent, is_end, Ends, weigh, total, Distinct, weigh-append, update_self, update_other,
  differs,
}

-- What the loop still has to read, and what it has to gather.
abbrev pub Ready : Inboxes → Gathering → Type 0
Ready net g =
    Distinct g.do_nodes
    × All (λ n. Ends (net n)) g.do_nodes
    × ((g.do_nodes ≡ []) ⊎ (g.node_counter < length g.do_nodes))

pub next_node_counter :
    (nodes : List ℕ) (k : ℕ) (cmds : Central)
    → (nodes ≡ []) ⊎ ((next_node nodes k cmds).node_counter < length nodes)
unfolding next_node
next_node_counter [] k cmds = inl refl
next_node_counter (n ∷ ns) k cmds = inr (ground arith)

pub from_start : (nodes : List ℕ) → (nodes ≡ []) ⊎ (0 < length nodes)
from_start [] = inl refl
from_start (n ∷ ns) = inr (omega arith)

remove-All : (P : ℕ → Type 0) (k : ℕ) (ns : List ℕ) → All P ns → All P (remove k ns)
remove-All P k [] h = h
remove-All P zero (n ∷ ns) (hn, h) = h
remove-All P (suc k) (n ∷ ns) (hn, h) = (hn, remove-All P k ns h)

pub remove-Distinct : (k : ℕ) (ns : List ℕ) → Distinct ns → Distinct (remove k ns)
remove-Distinct k [] d = d
remove-Distinct zero (n ∷ ns) (fresh, d) = d
remove-Distinct (suc k) (n ∷ ns) (fresh, d) =
    (remove-All (λ m. n ≢ m) k ns fresh, remove-Distinct k ns d)

contains_fresh : (m : ℕ) (ns : List ℕ) → All (λ i. m ≢ i) ns → contains ns m ≡ false
contains_fresh m [] h = refl
contains_fresh m (n ∷ ns) (hn, h) = ground (arith, eqb_iff n m, contains_fresh m ns h)

pub contains-remove :
    (k n j : ℕ) (ns : List ℕ)
    → Distinct ns
    → get_elem? ns k ≡ some n
    → (contains ns n ≡ true)
      × (contains (remove k ns) n ≡ false)
      × (n ≢ j → contains (remove k ns) j ≡ contains ns j)
contains-remove k n j [] d e = absurd (ground arith)
contains-remove zero n j (x ∷ ns) (fresh, d) e = (
  ground (arith, eqb_iff x n),
  contains_fresh n ns (subst (λ y. All (λ i. y ≢ i) ns) (ground arith) fresh),
  λ other. ground (arith, eqb_iff x j),
)
contains-remove (suc k) n j (x ∷ ns) (fresh, d) e =
    let (there, gone, same) = contains-remove k n j ns d e in
    let other : x ≢ n = differs x n k ns fresh e in
    (
      ground (arith, eqb_iff x n),
      ground (arith, eqb_iff x n),
      λ h. ap (λ b. (x == j) || b) (same h),
    )

-- What is left of an inbox below the end of the node's messages.
abbrev pub left : List Received → List Received
left [] = []
left (r ∷ rs) = if is_end r then rs else left rs

-- The inbox of a node once the loop has ended.
abbrev pub after : Inboxes → List ℕ → ℕ → List Received
after net nodes m = if contains nodes m then left (net m) else net m

pub receive-end :
    (r : Received) (g : Gathering) (rs : List Received)
    → is_end r ≡ true
    → (receive r g ≡ next_node (remove g.node_counter g.do_nodes) g.node_counter g.cext_cmds)
      × (sent (r ∷ rs) ≡ [])
unfolding receive
receive-end would_block g rs h = cc
receive-end failed g rs h = cc
receive-end (signal Signal.end_of_messages) g rs h = (refl, refl)
receive-end (signal Signal.process_step_finished) g rs h = (refl, refl)
receive-end (signal s) g rs h = cc

-- A round that does not end the messages of its node.
abbrev GoesOn : (Item → ℕ) → Received → Gathering → List Received → Type 0
GoesOn w r g rs =
    ((receive r g).do_nodes ≡ g.do_nodes)
    × (((receive r g).node_counter ≡ g.node_counter)
        ⊎ ((receive r g).node_counter < length g.do_nodes))
    × (weigh w (receive r g).cext_cmds + weigh w (sent rs)
        ≡ weigh w g.cext_cmds + weigh w (sent (r ∷ rs)))

pub receive-GoesOn :
    (w : Item → ℕ) (r : Received) (g : Gathering) (rs : List Received)
    → is_end r ≡ false
    → g.node_counter < length g.do_nodes
    → GoesOn w r g rs
unfolding receive next_node
receive-GoesOn w would_block g rs h lt = (refl, inl refl, refl)
receive-GoesOn w failed g rs h lt = (refl, inr (ground arith), refl)
receive-GoesOn w (signal (Signal.execute_central_ext_cmd c)) g rs h lt =
    (refl, inr (ground arith), omega (arith, weigh-append w g.cext_cmds (c ∷ [])))
receive-GoesOn w (signal (Signal.execute_central_ext_cmds cs)) g rs h lt = (
  refl,
  inr (ground arith),
  omega (arith, weigh-append w g.cext_cmds cs, weigh-append w cs (sent rs)),
)
receive-GoesOn w (signal Signal.end_of_messages) g rs h lt = cc
receive-GoesOn w (signal Signal.process_step_finished) g rs h lt = cc
receive-GoesOn w (signal (Signal.spawn_entities ss)) g rs h lt = (refl, inr (ground arith), refl)
receive-GoesOn w (signal (Signal.start_process_step es)) g rs h lt =
    (refl, inr (ground arith), refl)
receive-GoesOn w (signal (Signal.update_model m)) g rs h lt = (refl, inr (ground arith), refl)
receive-GoesOn w (signal Signal.other) g rs h lt = (refl, inr (ground arith), refl)

fresh-Ends :
    (net : Inboxes) (n : ℕ) (rs : List Received) (ns : List ℕ)
    → All (λ m. n ≢ m) ns
    → All (λ i. Ends (net i)) ns
    → All (λ i. Ends (update net n rs i)) ns
fresh-Ends net n rs [] fresh h = tt
fresh-Ends net n rs (m ∷ ns) (other, fresh) (hm, h) =
    (subst Ends (sym (update_other net n m rs other)) hm, fresh-Ends net n rs ns fresh h)

-- Reading from one node leaves the others to end their messages.
pub read-Ends :
    (net : Inboxes) (n k : ℕ) (rs : List Received) (ns : List ℕ)
    → Distinct ns
    → get_elem? ns k ≡ some n
    → All (λ i. Ends (net i)) ns
    → All (λ i. Ends (update net n rs i)) (remove k ns)
      × (Ends rs → All (λ i. Ends (update net n rs i)) ns)
read-Ends net n k rs [] d e h = absurd (ground arith)
read-Ends net n zero rs (x ∷ ns) (fresh, d) e (hx, h) =
    let same : x ≡ n = ground arith in
    let others = fresh-Ends net n rs ns (subst (λ y. All (λ m. y ≢ m) ns) same fresh) h in
    (others, λ hr. (subst Ends (sym (ap (update net n rs) same ∙ update_self net n rs)) hr, others))
read-Ends net n (suc k) rs (x ∷ ns) (fresh, d) e (hx, h) =
    let other : n ≢ x = λ same. differs x n k ns fresh e (sym same) in
    let hx' = subst Ends (sym (update_other net n x rs other)) hx in
    let (removed, kept) = read-Ends net n k rs ns d e h in ((hx', removed), λ hr. (hx', kept hr))

pub inbox :
    (net : Inboxes) (n : ℕ) (i : List Received)
    → net n ≡ i
    → Ends i
    → (r : Received) × (rs : List Received) × (net n ≡ r ∷ rs) × Ends (r ∷ rs)
inbox net n [] e h = absurd h
inbox net n (r ∷ rs) e h = (r, rs, e, h)

-- The node that the counter stands at, and what is first in its inbox.
pub first_received :
    (net : Inboxes) (k : ℕ) (ns : List ℕ)
    → k < length ns
    → All (λ i. Ends (net i)) ns
    → (n : ℕ) × (r : Received) × (rs : List Received) × (get_elem? ns k ≡ some n)
      × (net n ≡ r ∷ rs)
      × Ends (r ∷ rs)
first_received net k [] lt h = absurd (omega arith)
first_received net zero (n ∷ ns) lt (hn, h) =
    let (r, rs, e, ends) = inbox net n (net n) refl hn in (n, r, rs, refl, e, ends)
first_received net (suc k) (n ∷ ns) lt (hn, h) = first_received net k ns (omega arith) h

-- One round leaves less to read, and loses no command and no signal.
abbrev pub Progress : Inboxes → Gathering → Inboxes → Gathering → Type 0
Progress net g net' g' =
    Ready net' g'
    × (total length net' g'.do_nodes < total length net g.do_nodes)
    × ((w : Item → ℕ)
        → weigh w g'.cext_cmds + total (λ rs. weigh w (sent rs)) net' g'.do_nodes
          ≡ weigh w g.cext_cmds + total (λ rs. weigh w (sent rs)) net g.do_nodes)
    × ((j : ℕ) → after net' g'.do_nodes j ≡ after net g.do_nodes j)
