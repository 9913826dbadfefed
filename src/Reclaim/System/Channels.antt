-- ===== src/Reclaim/System/Channels.antt =====
-- reclaim/table.go: the channels that an Open or a drop waits for, and who closes them.
use traefik_middleware_utili.Prelude.{lt→ltb, zero}
use traefik_middleware_utili.Reclaim.System.{first, later}
use traefik_middleware_utili.Reclaim.System.Counts.{tally-Picked}
use traefik_middleware_utili.Prelude.{
  ℕ, Bool, List, ◌∷◌, ◌≡◌, refl, arith, false, true, [], ltb, ◌==◌, ◌≤◌, suc, ◌&&◌, ◌+◌, leb,
}
use traefik_middleware_utili.Prelude.Int.{ℤ}
use traefik_middleware_utili.Reclaim.Values.{member}
use traefik_middleware_utili.Reclaim.System.{Work, System, Picked, Reach}
use traefik_middleware_utili.Reclaim.System.Counts.{owner, debtor, tally}
use traefik_middleware_utili.Prelude.{
  ℕ, ◌+◌, ◌≤◌, ◌⊎◌, inl, inr, Bool-cases, suc, ◌&&◌, ◌||◌, leb, ◌<◌,
}
use traefik_middleware_utili.Reclaim.System.Kept.{flag, if_ready}
use traefik_middleware_utili.Reclaim.System.Reached.{Reach-IsKept}

-- The goroutines that have the channel `n` of the slot `i` to close.
abbrev pub will_close : System → ℕ → ℕ → Work → Bool
will_close s i n w = (n == (s.table.slots i).ready && owner i w) || debtor i n w

-- Some goroutine does what `d` says.
pub record SomeWork (d : Work → Bool) (works : List Work) : Type 0 where
  pub work : Work
  pub others : List Work
  pub picked : Picked work works others
  pub does : d work ≡ true

someone : (d : Work → Bool) (works : List Work) (n : ℕ) → tally d works ≡ suc n → SomeWork d works
unfolding tally
someone d [] n e = absurd (omega (arith, e))
someone d (w ∷ works) n e = elim (Bool-cases (d w)) [
  | inl q ↦ record { work = w; others = works; picked = first works; does = q }
  | inr q ↦
      let below = someone d works n (rw q at e) in
      record {
        work = below.work;
        others = w ∷ below.others;
        picked = later w works below.others below.picked;
        does = below.does;
      }
]

flag_made : (b : Bool) → flag b ≤ 1
flag_made true = omega arith
flag_made false = omega arith

flag_zero : (b : Bool) → flag b ≡ 0 → b ≡ false
flag_zero true e = absurd (omega (arith, e))
flag_zero false e = refl

tally_or_le :
    (b : Bool) (p q : Work → Bool) (works : List Work)
    → tally (λ w. (b && p w) || q w) works ≤ if_ready b (tally p works) + tally q works
unfolding tally
tally_or_le b p q [] = omega arith
tally_or_le true p q (w ∷ works) =
    let below = tally_or_le true p q works in
    elim (Bool-cases (p w)) [
      | inl e ↦ elim (Bool-cases (q w)) [
        | inl f ↦ rw (e, f) (omega (arith, below))
        | inr f ↦ rw (e, f) (omega (arith, below))
      ]
      | inr e ↦ elim (Bool-cases (q w)) [
        | inl f ↦ rw (e, f) (omega (arith, below))
        | inr f ↦ rw (e, f) below
      ]
    ]
tally_or_le false p q (w ∷ works) =
    let below = tally_or_le false p q works in
    elim (Bool-cases (q w)) [ inl f ↦ rw f (omega (arith, below)) | inr f ↦ rw f below ]

some_served :
    (b : Bool) (p q : Work → Bool) (works : List Work)
    → if_ready b (tally p works) + tally q works ≡ 1
    → SomeWork (λ w. (b && p w) || q w) works
some_served b p q works e = go (tally q works) refl
  where
    or_left : (a c : Bool) → a ≡ true → (a || c) ≡ true
    or_left true c h = refl
    or_left false c h = cc

    or_right : (a c : Bool) → c ≡ true → (a || c) ≡ true
    or_right true c h = refl
    or_right false c h = h

    owned :
        (d : Bool)
        → d ≡ b
        → if_ready b (tally p works) ≡ 1
        → SomeWork (λ w. (b && p w) || q w) works
    owned true d h =
        let one : tally p works ≡ 1 = rw (← d) at h in
        let w = someone p works 0 one in
        record {
          work = w.work;
          others = w.others;
          picked = w.picked;
          does = or_left (b && p w.work) (q w.work) (rw (← d) w.does);
        }
    owned false d h = let none_there : 0 ≡ 1 = rw (← d) at h in absurd (omega (arith, none_there))

    go : (n : ℕ) → tally q works ≡ n → SomeWork (λ w. (b && p w) || q w) works
    go zero z = owned b refl (omega (arith, e, z))
    go (suc n) z =
        let w = someone q works n z in
        record {
          work = w.work;
          others = w.others;
          picked = w.picked;
          does = or_right (b && p w.work) (q w.work) w.does;
        }

-- In every interleaving of the steps on a new table, each ready channel that a slot has made is
-- closed, or there is a goroutine that has it to close: no Open waits on a channel that nobody
-- closes.
pub Reach-IsServed :
    (grace : ℤ) (s : System) (i n : ℕ)
    → Reach grace s
    → i < s.table.next_slot
    → n ≤ (s.table.slots i).ready
    → (member n (s.table.slots i).closed ≡ true) ⊎ SomeWork (will_close s i n) s.works
Reach-IsServed grace s i n r l h = elim (Bool-cases (member n (s.table.slots i).closed)) [
  | inl q ↦ inl q
  | inr q ↦
      let made : ltb i s.table.next_slot ≡ true = lt→ltb i s.table.next_slot l in
      let known : leb n (s.table.slots i).ready ≡ true = ground (arith, h) in
      let settled : if_ready (n == (s.table.slots i).ready) (tally (owner i) s.works)
            + tally (debtor i n) s.works
            + 0
          ≡ 1 =
        rw (made, known, q) at ((Reach-IsKept grace s r i).settled n) in
      inr (
        some_served (n == (s.table.slots i).ready) (owner i) (debtor i n) s.works
          (omega (arith, settled)))
]

-- In every interleaving of the steps on a new table, a goroutine that has a ready channel to close
-- finds it open and is the only one that has: no close panics.
pub Reach-closes_open :
    (grace : ℤ) (s : System) (i n : ℕ) (w : Work) (rest : List Work)
    → Reach grace s
    → Picked w s.works rest
    → will_close s i n w ≡ true
    → (member n (s.table.slots i).closed ≡ false) × (tally (will_close s i n) rest ≡ 0)
unfolding tally
Reach-closes_open grace s i n w rest r p c =
    let settled = (Reach-IsKept grace s r i).settled n in
    let made = flag_made (ltb i s.table.next_slot && leb n (s.table.slots i).ready) in
    let all = tally_or_le (n == (s.table.slots i).ready) (owner i) (debtor i n) s.works in
    let split : tally (will_close s i n) s.works ≡ suc (tally (will_close s i n) rest) =
      rw c at (tally-Picked (will_close s i n) w s.works rest p) in
    (
      flag_zero (member n (s.table.slots i).closed) (omega (arith, settled, made, all, split)),
      omega (arith, settled, made, all, split),
    )
