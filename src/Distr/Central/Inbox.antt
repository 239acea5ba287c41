-- ===== src/Distr/Central/Inbox.antt =====
-- The inboxes that the central authority reads in a step, and sums over them.
use outcome.Prelude.{
  ℕ, zero, suc, ◌+◌, ◌≡◌, ◌≢◌, refl, sym, ap, ◌∙◌, Bool, true, false, List, [], ◌∷◌, ◌++◌, some,
  get_elem?, remove, nat_eq, if◌then◌else◌, arith, All, eqb_iff,
}
use mathlib.Core.Path.{subst}
use outcome.Machine.Command.{CentralRemoteCommand}
use outcome.Machine.Exec.{ExecutionContext, Central}
use outcome.Distr.{Signal}
use outcome.Distr.Central.Network.{Received, signal, would_block, failed, Inboxes, update}

abbrev pub Item : Type 0
Item = ExecutionContext × CentralRemoteCommand

-- The commands that a node sends before it ends its messages.
abbrev pub sent : List Received → Central
sent [] = []
sent (would_block ∷ rs) = sent rs
sent (failed ∷ rs) = sent rs
sent (signal (Signal.execute_central_ext_cmd c) ∷ rs) = c ∷ sent rs
sent (signal (Signal.execute_central_ext_cmds cs) ∷ rs) = cs ++ sent rs
sent (signal Signal.end_of_messages ∷ rs) = []
sent (signal Signal.process_step_finished ∷ rs) = []
sent (signal (Signal.spawn_entities ss) ∷ rs) = sent rs
sent (signal (Signal.start_process_step es) ∷ rs) = sent rs
sent (signal (Signal.update_model m) ∷ rs) = sent rs
sent (signal Signal.other ∷ rs) = sent rs

-- Does what was received end the messages of a node?
abbrev pub is_end : Received → Bool
is_end would_block = false
is_end failed = false
is_end (signal Signal.end_of_messages) = true
is_end (signal Signal.process_step_finished) = true
is_end (signal (Signal.execute_central_ext_cmd c)) = false
is_end (signal (Signal.execute_central_ext_cmds cs)) = false
is_end (signal (Signal.spawn_entities ss)) = false
is_end (signal (Signal.start_process_step es)) = false
is_end (signal (Signal.update_model m)) = false
is_end (signal Signal.other) = false

-- A node that ends its messages sooner or later.
abbrev pub Ends : List Received → Type 0
Ends [] = ⊥
Ends (r ∷ rs) = if is_end r then Unit {0} else Ends rs

-- The weight of a list of commands, where each has one.
abbrev pub weigh : (Item → ℕ) → Central → ℕ
weigh w [] = 0
weigh w (c ∷ cs) = w c + weigh w cs

-- A number that depends on the inbox, added up over the nodes.
abbrev pub total : (List Received → ℕ) → Inboxes → List ℕ → ℕ
total f net [] = 0
total f net (n ∷ ns) = f (net n) + total f net ns

-- No node stands twice in the list.
abbrev pub Distinct : List ℕ → Type 0
Distinct [] = Unit
Distinct (n ∷ ns) = All (λ m. n ≢ m) ns × Distinct ns

pub weigh-append : (w : Item → ℕ) (cs ds : Central) → weigh w (cs ++ ds) ≡ weigh w cs + weigh w ds
weigh-append w [] ds = omega arith
weigh-append w (c ∷ cs) ds = omega (arith, weigh-append w cs ds)

pub update_self : (net : Inboxes) (n : ℕ) (rs : List Received) → update net n rs n ≡ rs
update_self net n rs = ground (arith, eqb_iff n n)

pub update_other :
    (net : Inboxes) (n m : ℕ) (rs : List Received) → n ≢ m → update net n rs m ≡ net m
update_other net n m rs h = ground (arith, eqb_iff n m)

pub total_fresh :
    (f : List Received → ℕ) (net : Inboxes) (n : ℕ) (rs : List Received) (ns : List ℕ)
    → All (λ m. n ≢ m) ns
    → total f (update net n rs) ns ≡ total f net ns
total_fresh f net n rs [] h = refl
total_fresh f net n rs (m ∷ ns) (hm, h) =
    omega (arith, ap f (update_other net n m rs hm), total_fresh f net n rs ns h)

-- A node further on in the list is another one.
pub differs : (n m k : ℕ) (ns : List ℕ) → All (λ i. n ≢ i) ns → get_elem? ns k ≡ some m → n ≢ m
differs n m k [] h e = absurd (ground arith)
differs n m zero (x ∷ ns) (hx, h) e = λ same. hx (ground arith)
differs n m (suc k) (x ∷ ns) (hx, h) e = differs n m k ns h e

-- Reading from one node of the list changes the sum by what that node's inbox adds to it.
pub total_read :
    (f : List Received → ℕ) (net : Inboxes) (n k : ℕ) (r : Received) (rs : List Received)
    (ns : List ℕ)
    → Distinct ns
    → get_elem? ns k ≡ some n
    → net n ≡ r ∷ rs
    → (total f (update net n rs) ns + f (r ∷ rs) ≡ total f net ns + f rs)
      × (total f (update net n rs) (remove k ns) + f (r ∷ rs) ≡ total f net ns)
total_read f net n k r rs [] d e h = absurd (ground arith)
total_read f net n zero r rs (x ∷ ns) (fresh, d) e h =
    let same : x ≡ n = ground arith in
    let before = ap f (ap net same ∙ h) in
    let after = ap f (ap (update net n rs) same ∙ update_self net n rs) in
    let fresh' = total_fresh f net n rs ns (subst (λ y. All (λ m. y ≢ m) ns) same fresh) in
    (omega (arith, after, before, fresh'), omega (arith, before, fresh'))
total_read f net n (suc k) r rs (x ∷ ns) (fresh, d) e h =
    let other : n ≢ x = λ same. differs x n k ns fresh e (sym same) in
    let (kept, gone) = total_read f net n k r rs ns d e h in
    (
      omega (arith, ap f (update_other net n x rs other), kept),
      omega (arith, ap f (update_other net n x rs other), gone),
    )
