-- ===== src/Reclaim/System/Steps.antt =====
-- reclaim/table.go: what every step keeps of every slot.
use traefik_middleware_utili.Prelude.{
  ℕ, Bool, List, false, true, ◌==◌, ◌∷◌, ◌≡◌, ◌≤◌, arith, inl, inr, Bool-cases, [],
}
use mathlib.Core.Path.{subst}
use traefik_middleware_utili.Reclaim.System.{
  Work, creating, waking, dropping, sleeping, expiring, closing, swapped, closing_behind, readying,
  disposing, unbinding, Picked, System,
}
use traefik_middleware_utili.Reclaim.System.Counts.{
  load_of, tally, owner, debtor, hooked, closer, waker, tally-Picked, same_slot,
}
use traefik_middleware_utili.Reclaim.System.Kept.{Kept, IsPlain}

abbrev pub IsKept : System → Type 0
IsKept s = (j : ℕ) → Kept (s.table.slots j) (load_of s s.works j)

-- The same with one goroutine first.
pub pick-Kept :
    (w : Work) (rest : List Work) (s : System)
    → Picked w s.works rest
    → IsKept s
    → (j : ℕ) → Kept (s.table.slots j) (load_of s (w ∷ rest) j)
pick-Kept w rest s p k j =
    let old = k j in
    record {
      owned = rw (← same (owner j)) old.owned;
      settled = λ n. rw (← same (owner j), ← same (debtor j n)) (old.settled n);
      debts_gone = λ n. rw (← same (debtor j n)) (old.debts_gone n);
      once = rw (← same (hooked j)) old.once;
      running = rw (← same (closer j)) old.running;
      counted = λ e. rw (← same (waker j)) (old.counted e);
      unheld = old.unheld;
      fresh = old.fresh;
    }
  where
    same : (d : Work → Bool) → tally d s.works ≡ tally d (w ∷ rest)
    same d = tally-Picked d w s.works rest p

tally_le :
    (d e : Work → Bool) (works : List Work)
    → ((w : Work) → d w ≡ true → e w ≡ true)
    → tally d works ≤ tally e works
unfolding tally
tally_le d e [] h = omega arith
tally_le d e (w ∷ works) h =
    let below = tally_le d e works h in
    elim (Bool-cases (d w)) [
      | inl q ↦ rw (q, h w q) (omega (arith, below))
      | inr q ↦ elim (Bool-cases (e w)) [
        | inl r ↦ rw (q, r) (omega (arith, below))
        | inr r ↦ rw (q, r) below
      ]
    ]

waker-hooked : (j : ℕ) (w : Work) → waker j w ≡ true → hooked j w ≡ true
unfolding waker hooked
waker-hooked j (creating i) e = cc
waker-hooked j (waking i) e = e
waker-hooked j (dropping i) e = cc
waker-hooked j (sleeping i) e = cc
waker-hooked j (expiring i) e = cc
waker-hooked j (closing i) e = cc
waker-hooked j (swapped i c n) e = cc
waker-hooked j (closing_behind i c) e = cc
waker-hooked j (readying i n) e = cc
waker-hooked j (disposing i b) e = cc
waker-hooked j (unbinding i) e = cc

hooked-owner : (j : ℕ) (w : Work) → hooked j w ≡ true → owner j w ≡ true
unfolding hooked owner
hooked-owner j (creating i) e = e
hooked-owner j (waking i) e = e
hooked-owner j (dropping i) e = cc
hooked-owner j (sleeping i) e = e
hooked-owner j (expiring i) e = cc
hooked-owner j (closing i) e = cc
hooked-owner j (swapped i c n) e = cc
hooked-owner j (closing_behind i c) e = cc
hooked-owner j (readying i n) e = cc
hooked-owner j (disposing i b) e = cc
hooked-owner j (unbinding i) e = cc

pub plain : (s : System) (works : List Work) (j : ℕ) → IsPlain (load_of s works j)
plain s works j = (
  tally_le (waker j) (hooked j) works (waker-hooked j),
  tally_le (hooked j) (owner j) works (hooked-owner j),
)

-- A step that is about one slot.
pub one_slot :
    (s : System) (i : ℕ)
    → Kept (s.table.slots i) (load_of s s.works i)
    → ((j : ℕ) → (i == j) ≡ false → Kept (s.table.slots j) (load_of s s.works j))
    → IsKept s
one_slot s i here there j = elim (same_slot i j) [
  | inl e ↦ subst (λ m. Kept (s.table.slots m) (load_of s s.works m)) e here
  | inr q ↦ there j q
]
