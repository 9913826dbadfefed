-- ===== src/Reclaim/System/Kept.antt =====
-- reclaim/table.go: what each section under the lock keeps of a slot and of the goroutines about it.
use traefik_middleware_utili.Prelude.{
  ℕ, Bool, Bool-cases, List, false, if◌then◌else◌, true, ◌&&◌, ◌==◌, ◌∷◌, ◌+◌, ◌≡◌, suc, ap, inl,
  inr, refl, ◌∙◌, arith, ◌≤◌, leb, ◌||◌,
}
use traefik_middleware_utili.Prelude.Int.{pos, ◌+ℤ◌, ◌-ℤ◌}
use traefik_middleware_utili.Reclaim.Values.{member}
use traefik_middleware_utili.Reclaim.Table.{
  Slot, SlotState, slot_busy, slot_awake, slot_asleep, slot_gone,
}
use traefik_middleware_utili.Reclaim.System.Counts.{Load, ==_swap}

abbrev pub flag : Bool → ℕ
flag true = 1
flag false = 0

abbrev pub busy_flag : SlotState → ℕ
busy_flag slot_busy = 1
busy_flag slot_awake = 0
busy_flag slot_asleep = 0
busy_flag slot_gone = 0

abbrev pub gone_flag : SlotState → ℕ
gone_flag slot_busy = 0
gone_flag slot_awake = 0
gone_flag slot_asleep = 0
gone_flag slot_gone = 1

abbrev pub awake_flag : SlotState → ℕ
awake_flag slot_busy = 0
awake_flag slot_awake = 1
awake_flag slot_asleep = 0
awake_flag slot_gone = 0

abbrev pub asleep_flag : SlotState → ℕ
asleep_flag slot_busy = 0
asleep_flag slot_awake = 0
asleep_flag slot_asleep = 1
asleep_flag slot_gone = 0

abbrev pub if_ready : Bool → ℕ → ℕ
if_ready true n = n
if_ready false n = 0

pub plus_one : (n m : ℕ) → m ≡ suc n → pos n +ℤ pos 1 ≡ pos m
unfolding ◌+ℤ◌
plus_one n m e = let small : leb 0 (n + 1) ≡ true = ground arith in rw small (ap pos (omega arith))

pub less_one : (n m : ℕ) → n ≡ suc m → pos n -ℤ pos 1 ≡ pos m
unfolding ◌-ℤ◌
less_one n m e = let small : leb 1 (n + 0) ≡ true = ground arith in rw small (ap pos (omega arith))

-- A busy slot has one owner; a channel that was made is closed or one goroutine has yet to close it;
-- Close is called once at most, and no other hook runs then; the source's count of holders is theirs.
pub record Kept (x : Slot) (l : Load) : Type 0 where
  pub owned : l.owners ≡ busy_flag x.state
  pub settled :
      (n : ℕ)
      → if_ready (n == x.ready) l.owners + l.debts n + flag (member n x.closed)
        ≡ flag (l.made && leb n x.ready)
  pub debts_gone : (n : ℕ) → l.debts n ≤ gone_flag x.state
  pub once : awake_flag x.state + asleep_flag x.state + l.hooks_run + l.close_calls ≤ 1
  pub running : l.closes_run ≤ l.close_calls
  pub counted : gone_flag x.state ≡ 0 → x.holders ≡ pos (l.held + l.wakes)
  pub unheld : awake_flag x.state ≡ 0 → l.held ≡ 0
  pub fresh : l.made ≡ false → (gone_flag x.state ≡ 1) × (l.close_calls ≡ 0)

pub flag_le : (b : Bool) → flag b ≤ 1
flag_le true = omega arith
flag_le false = omega arith

flag-or : (b c : Bool) → flag (b || c) ≤ flag b + flag c
flag-or true c = omega arith
flag-or false c = omega arith

pub one_state : (q : SlotState) → busy_flag q + awake_flag q + asleep_flag q + gone_flag q ≡ 1
one_state slot_busy = refl
one_state slot_awake = refl
one_state slot_asleep = refl
one_state slot_gone = refl

-- An owner closes `ready`.
pub settle-owner :
    (n r o d : ℕ) (closed : List ℕ) (made : Bool)
    → if_ready (n == r) (suc o) + d + flag (member n closed) ≡ flag made
    → if_ready (n == r) o + d + flag (member n (r ∷ closed)) ≡ flag made
unfolding member
settle-owner n r o d closed made e = elim (Bool-cases (n == r)) [
  | inl q ↦
      let before : suc o + d + flag (member n closed) ≡ flag made = rw q at e in
      rw q (omega (arith, before, flag_le made))
  | inr q ↦ let before : 0 + d + flag (member n closed) ≡ flag made = rw q at e in rw q before
]

-- One goroutine has the channel `m` to close, and closes it.
pub settle-debtor :
    (n m t : ℕ) (d : ℕ → ℕ) (closed : List ℕ) (made : Bool)
    → t + (if m == n then suc (d n) else d n) + flag (member n closed) ≡ flag made
    → t + d n + flag (member n (m ∷ closed)) ≡ flag made
unfolding member
settle-debtor n m t d closed made e = elim (Bool-cases (m == n)) [
  | inl q ↦
      let before : t + suc (d n) + flag (member n closed) ≡ flag made = rw q at e in
      rw (==_swap n m ∙ q) (omega (arith, before, flag_le made))
  | inr q ↦
      let before : t + d n + flag (member n closed) ≡ flag made = rw q at e in
      rw (==_swap n m ∙ q) before
]

-- An owner leaves `ready` to be closed.
pub settle-left :
    (n r o d : ℕ) (c : ℕ) (made : Bool)
    → if_ready (n == r) (suc o) + d + c ≡ flag made
    → if_ready (n == r) o + (if r == n then suc d else d) + c ≡ flag made
settle-left n r o d c made e = elim (Bool-cases (n == r)) [
  | inl q ↦
      let before : suc o + d + c ≡ flag made = rw q at e in
      rw (q, ==_swap r n ∙ q) (omega (arith, before))
  | inr q ↦ let before : 0 + d + c ≡ flag made = rw q at e in rw (q, ==_swap r n ∙ q) before
]

-- Nobody owns the slot or has a channel to close, and its next owner makes one.
pub settle-made :
    (n r o d : ℕ) (c : ℕ) (made : Bool)
    → made ≡ true
    → o ≡ 0
    → d ≡ 0
    → if_ready (n == r) o + d + c ≡ flag (made && leb n r)
    → if_ready (n == r + 1) (suc o) + d + c ≡ flag (made && leb n (r + 1))
settle-made n r o d c made m z y e = elim (Bool-cases (n == r + 1)) [
  | inl q ↦
      let later : leb n (r + 1) ≡ true = ground (arith, q) in
      let not_yet : leb n r ≡ false = ground (arith, q) in
      let other : (n == r) ≡ false = ground (arith, q) in
      let before : 0 + d + c ≡ 0 = rw (m, not_yet, other) at e in
      rw (m, q, later) (omega (arith, before, z))
  | inr q ↦
      let same : leb n (r + 1) ≡ leb n r = ground (arith, q) in
      rw (q, same) (if_ready_none (n == r) e)
]
  where
    if_ready_none :
        (b : Bool)
        → if_ready b o + d + c ≡ flag (made && leb n r)
        → 0 + d + c ≡ flag (made && leb n r)
    if_ready_none true h = omega (arith, h, z)
    if_ready_none false h = h

abbrev pub IsPlain : Load → Type 0
IsPlain l = (l.wakes ≤ l.hooks_run) × (l.hooks_run ≤ l.owners)

abbrev pub owned_more : Load → Load
owned_more l = record l { owners = suc l.owners; hooks_run = suc l.hooks_run }
