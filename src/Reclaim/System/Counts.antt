-- ===== src/Reclaim/System/Counts.antt =====
-- reclaim/table.go: how many goroutines are about a slot, and how many holders it has.
use traefik_middleware_utili.Prelude.{
  ℕ, Bool, Bool-cases, List, false, if◌then◌else◌, true, ◌&&◌, ◌==◌, ◌∷◌, [], ◌≡◌, suc, ap, inl,
  inr, refl, ◌∙◌, ==_iff, arith, ltb, ◌⊎◌,
}
use traefik_middleware_utili.Reclaim.Values.{member}
use traefik_middleware_utili.Reclaim.System.{
  Work, creating, waking, dropping, sleeping, expiring, closing, swapped, closing_behind, readying,
  disposing, unbinding, Picked, first, later, System, without,
}

pub ==_refl : (i : ℕ) → (i == i) ≡ true
==_refl i = ground arith

pub ==_swap : (i j : ℕ) → (i == j) ≡ (j == i)
==_swap i j = ground arith

-- Two slots are one or not.
pub same_slot : (i j : ℕ) → (i ≡ j) ⊎ ((i == j) ≡ false)
same_slot i j = elim (Bool-cases (i == j)) [ inl q ↦ inl ((==_iff i j).0 q) | inr q ↦ inr q ]

-- Who owns the busy slot `j`.
unfoldable pub owner : ℕ → Work → Bool
owner j (creating i) = i == j
owner j (waking i) = i == j
owner j (dropping i) = false
owner j (sleeping i) = i == j
owner j (expiring i) = false
owner j (closing i) = i == j
owner j (swapped i c n) = c == j
owner j (closing_behind i c) = c == j
owner j (readying i n) = false
owner j (disposing i b) = false
owner j (unbinding i) = false

-- Who has a channel of the slot `j` to close and nothing else.
unfoldable pub debtor : ℕ → ℕ → Work → Bool
debtor j m (creating i) = false
debtor j m (waking i) = false
debtor j m (dropping i) = false
debtor j m (sleeping i) = false
debtor j m (expiring i) = false
debtor j m (closing i) = false
debtor j m (swapped i c n) = i == j && n == m
debtor j m (closing_behind i c) = false
debtor j m (readying i n) = i == j && n == m
debtor j m (disposing i b) = false
debtor j m (unbinding i) = false

-- In whose hands `create`, Wake or Sleep of `j` is.
unfoldable pub hooked : ℕ → Work → Bool
hooked j (creating i) = i == j
hooked j (waking i) = i == j
hooked j (dropping i) = false
hooked j (sleeping i) = i == j
hooked j (expiring i) = false
hooked j (closing i) = false
hooked j (swapped i c n) = false
hooked j (closing_behind i c) = false
hooked j (readying i n) = false
hooked j (disposing i b) = false
hooked j (unbinding i) = false

-- In whose hands Close of `j` is.
unfoldable pub closer : ℕ → Work → Bool
closer j (creating i) = false
closer j (waking i) = false
closer j (dropping i) = false
closer j (sleeping i) = false
closer j (expiring i) = false
closer j (closing i) = i == j
closer j (swapped i c n) = i == j
closer j (closing_behind i c) = i == j
closer j (readying i n) = false
closer j (disposing i b) = i == j
closer j (unbinding i) = false

unfoldable pub waker : ℕ → Work → Bool
waker j (creating i) = false
waker j (waking i) = i == j
waker j (dropping i) = false
waker j (sleeping i) = false
waker j (expiring i) = false
waker j (closing i) = false
waker j (swapped i c n) = false
waker j (closing_behind i c) = false
waker j (readying i n) = false
waker j (disposing i b) = false
waker j (unbinding i) = false

unfoldable pub tally : (Work → Bool) → List Work → ℕ
tally p [] = 0
tally p (w ∷ ws) = if p w then suc (tally p ws) else tally p ws

unfoldable pub count : ℕ → List ℕ → ℕ
count j [] = 0
count j (i ∷ is) = if i == j then suc (count j is) else count j is

-- What the goroutines and the holders are to one slot.
pub record Load : Type 0 where
  pub owners : ℕ
  pub debts : ℕ → ℕ
  pub hooks_run : ℕ
  pub closes_run : ℕ
  pub wakes : ℕ
  pub held : ℕ
  pub close_calls : ℕ
  pub made : Bool

abbrev pub load_of : System → List Work → ℕ → Load
load_of s works j = record {
  owners = tally (owner j) works;
  debts = λ m. tally (debtor j m) works;
  hooks_run = tally (hooked j) works;
  closes_run = tally (closer j) works;
  wakes = tally (waker j) works;
  held = count j s.holders;
  close_calls = s.closes j;
  made = ltb j s.table.next_slot;
}

pub tally-Picked :
    (p : Work → Bool) (w : Work) (works rest : List Work)
    → Picked w works rest
    → tally p works ≡ tally p (w ∷ rest)
unfolding tally
tally-Picked p w _ _ (first rest) = refl
tally-Picked p w _ _ (later v works rest q) =
    let below = tally-Picked p w works rest q in
    elim (Bool-cases (p v)) [
      | inl a ↦ elim (Bool-cases (p w)) [
        | inl b ↦ rw (a, b) (ap suc (below ∙ rw b refl))
        | inr b ↦ rw (a, b) (ap suc (below ∙ rw b refl))
      ]
      | inr a ↦ elim (Bool-cases (p w)) [
        | inl b ↦ rw (a, b) (below ∙ rw b refl)
        | inr b ↦ rw (a, b) (below ∙ rw b refl)
      ]
    ]

pub count-without :
    (i : ℕ) (hs : List ℕ) → member i hs ≡ true → count i hs ≡ suc (count i (without i hs))
unfolding count without member
count-without i [] m = cc
count-without i (h ∷ hs) m = elim (Bool-cases (i == h)) [
  | inl q ↦ rw (==_swap h i, q) refl
  | inr q ↦ let below = count-without i hs (rw q at m) in rw q (go (==_swap h i ∙ q) below)
]
  where
    go :
        (h == i) ≡ false
        → count i hs ≡ suc (count i (without i hs))
        → (if h == i then suc (count i hs) else count i hs)
          ≡ suc (if h == i then suc (count i (without i hs)) else count i (without i hs))
    go back below = rw back below

pub count-without_other :
    (i j : ℕ) (hs : List ℕ) → (i == j) ≡ false → count j (without i hs) ≡ count j hs
unfolding count without
count-without_other i j [] d = refl
count-without_other i j (h ∷ hs) d = elim (same_slot i h) [
  | inl e ↦ rw (← e) (rw (==_refl i, d) refl)
  | inr q ↦
      let below = count-without_other i j hs d in
      rw q (elim (Bool-cases (h == j)) [ inl r ↦ rw r (ap suc below) | inr r ↦ rw r below ])
]
