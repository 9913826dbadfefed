-- ===== src/Reclaim/System/Starts.antt =====
-- reclaim/table.go: what is kept of a slot when it is made, when a holder comes or goes, and when a
-- goroutine makes it busy.
use traefik_middleware_utili.Prelude.{
  ℕ, Bool, false, if◌then◌else◌, true, ◌&&◌, ◌==◌, ◌+◌, ◌≡◌, suc, ap, refl, arith, ◌≤◌, leb, ==_iff,
  Bool-cases, inl, inr,
}
use traefik_middleware_utili.Prelude.Int.{pos, ◌==ℤ◌, ◌-ℤ◌}
use traefik_middleware_utili.Reclaim.Values.{member}
use traefik_middleware_utili.Reclaim.Table.{
  Slot, slot_busy, slot_awake, slot_asleep, gone, one_more, close_channel, blank_slot, make_ready,
}
use traefik_middleware_utili.Reclaim.System.Counts.{Load}
use traefik_middleware_utili.Reclaim.System.Kept.{
  Kept, IsPlain, owned_more, flag, one_state, plus_one, less_one, settle-made, settle-debtor,
  if_ready, awake_flag, asleep_flag, gone_flag,
}

settle-new :
    (n r o d c : ℕ)
    → o ≡ 0
    → if_ready (n == r) o + d + c ≡ 0
    → if_ready (n == 0) (suc o) + d + 0 ≡ flag (leb n 0)
settle-new n r o d c z e = elim (Bool-cases (n == 0)) [
  | inl q ↦ let first : leb n 0 ≡ true = ground (arith, q) in rw (q, first) (omega (arith, e, z))
  | inr q ↦ let later : leb n 0 ≡ false = ground (arith, q) in rw (q, later) (omega (arith, e))
]

-- A new slot, which the goroutine that made it owns.
pub new-Kept :
    (x : Slot) (n : ℕ) (finished : Bool) (l : Load)
    → IsPlain l
    → n ≤ suc l.hooks_run
    → l.made ≡ false
    → Kept x l
    → Kept
        (record blank_slot { state = slot_busy; finished = finished })
        (record l { owners = suc l.owners; hooks_run = n; made = true })
unfolding member
new-Kept x n finished l w le m k =
    let states = one_state x.state in
    let new = k.fresh m in
    record {
      owned = omega (arith, k.owned, states, new.0);
      settled = λ n.
          settle-new n x.ready l.owners (l.debts n) (flag (member n x.closed))
            (omega (arith, k.owned, states, new.0)) (none_yet n);
      debts_gone = λ n. omega (arith, none_yet n);
      once = omega (arith, new.1, new.0, k.owned, states, w.1, le);
      running = k.running;
      counted = λ _. ap pos (
          omega (arith, w.0, w.1, k.owned, states, new.0, k.unheld (omega (arith, new.0, states))));
      unheld = λ _. k.unheld (omega (arith, new.0, states));
      fresh = λ e. absurd (cc);
    }
  where
    none_yet : (n : ℕ) → if_ready (n == x.ready) l.owners + l.debts n + flag (member n x.closed) ≡ 0
    none_yet n = rw m at (k.settled n)

-- A slot that is not gone has been made.
pub made_of : (x : Slot) (l : Load) → Kept x l → gone_flag x.state ≡ 0 → l.made ≡ true
made_of x l k g = elim (Bool-cases l.made) [
  | inl q ↦ q
  | inr q ↦ absurd (omega (arith, (k.fresh q).0, g))
]

-- `lookup_open` binds.
pub bind-Kept :
    (x : Slot) (l : Load)
    → x.state ≡ slot_awake
    → Kept x l
    → Kept (one_more x) (record l { held = suc l.held })
bind-Kept x l a k =
    let awake : awake_flag x.state ≡ 1 = rw a refl in
    let states = one_state x.state in
    record {
      owned = k.owned;
      settled = k.settled;
      debts_gone = k.debts_gone;
      once = k.once;
      running = k.running;
      counted = λ _.
          rw (k.counted (omega (arith, awake, states)))
            (plus_one (l.held + l.wakes) (suc l.held + l.wakes) (omega arith));
      unheld = λ e. absurd (omega (arith, e, awake));
      fresh = k.fresh;
    }

-- `release_holder`.
pub release-Kept :
    (x : Slot) (l : Load)
    → Kept x (record l { held = suc l.held })
    → Kept (record x { holders = x.holders -ℤ pos 1 }) l
release-Kept x l k = record {
  owned = k.owned;
  settled = k.settled;
  debts_gone = k.debts_gone;
  once = k.once;
  running = k.running;
  counted =
      λ e. rw (k.counted e) (less_one (suc l.held + l.wakes) (l.held + l.wakes) (omega arith));
  unheld = λ e. absurd (omega (arith, k.unheld e));
  fresh = k.fresh;
}

-- `lookup_open` wakes.
pub wake_start-Kept :
    (x : Slot) (l : Load)
    → x.state ≡ slot_asleep
    → IsPlain l
    → Kept x l
    → Kept
        (record (one_more (make_ready x)) { state = slot_busy; grace_timer = false })
        (record (owned_more l) { wakes = suc l.wakes })
unfolding make_ready
wake_start-Kept x l a w k =
    let asleep : asleep_flag x.state ≡ 1 = rw a refl in
    let states = one_state x.state in
    let made = made_of x l k (omega (arith, states, asleep)) in
    record {
      owned = omega (arith, k.owned, states, asleep);
      settled = λ n.
          settle-made n x.ready l.owners (l.debts n) (flag (member n x.closed)) l.made made
            (omega (arith, k.owned, states, asleep)) (omega (arith, k.debts_gone n, states, asleep))
            (k.settled n);
      debts_gone = λ n. omega (arith, k.debts_gone n, states, asleep);
      once = omega (arith, k.once, asleep);
      running = k.running;
      counted = λ _.
          rw (k.counted (omega (arith, asleep, states)))
            (plus_one (l.held + l.wakes) (l.held + suc l.wakes) (omega arith));
      unheld = λ _. k.unheld (omega (arith, asleep, states));
      fresh = λ e. absurd (omega (arith, (k.fresh e).0, asleep, states));
    }

-- `claim_drop` of the last holder.
pub drop-Kept :
    (x : Slot) (l : Load)
    → x.state ≡ slot_awake
    → (x.holders ==ℤ pos 0) ≡ true
    → Kept x l
    → Kept (record (make_ready x) { state = slot_busy }) (owned_more l)
unfolding make_ready
drop-Kept x l a z k =
    let awake : awake_flag x.state ≡ 1 = rw a refl in
    let states = one_state x.state in
    let made = made_of x l k (omega (arith, states, awake)) in
    let counted = k.counted (omega (arith, states, awake)) in
    let none_left : (l.held + l.wakes == 0) ≡ true = rw counted at z in
    let no_holder : l.held + l.wakes ≡ 0 = (==_iff (l.held + l.wakes) 0).0 none_left in
    record {
      owned = omega (arith, k.owned, states, awake);
      settled = λ n.
          settle-made n x.ready l.owners (l.debts n) (flag (member n x.closed)) l.made made
            (omega (arith, k.owned, states, awake)) (omega (arith, k.debts_gone n, states, awake))
            (k.settled n);
      debts_gone = λ n. omega (arith, k.debts_gone n, states, awake);
      once = omega (arith, k.once, awake);
      running = k.running;
      counted = λ _. counted;
      unheld = λ _. omega (arith, no_holder);
      fresh = λ e. absurd (omega (arith, (k.fresh e).0, awake, states));
    }

-- `claim_expire` that keeps the key mapped.
pub enforce-Kept :
    (x : Slot) (l : Load)
    → x.state ≡ slot_asleep
    → IsPlain l
    → Kept x l
    → Kept
        (record (make_ready x) { state = slot_busy })
        (record l {
          owners = suc l.owners;
          closes_run = suc l.closes_run;
          close_calls = suc l.close_calls;
        })
unfolding make_ready
enforce-Kept x l a w k =
    let asleep : asleep_flag x.state ≡ 1 = rw a refl in
    let states = one_state x.state in
    let made = made_of x l k (omega (arith, states, asleep)) in
    record {
      owned = omega (arith, k.owned, states, asleep);
      settled = λ n.
          settle-made n x.ready l.owners (l.debts n) (flag (member n x.closed)) l.made made
            (omega (arith, k.owned, states, asleep)) (omega (arith, k.debts_gone n, states, asleep))
            (k.settled n);
      debts_gone = λ n. omega (arith, k.debts_gone n, states, asleep);
      once = omega (arith, k.once, asleep);
      running = omega (arith, k.running);
      counted = λ _. k.counted (omega (arith, asleep, states));
      unheld = λ _. k.unheld (omega (arith, asleep, states));
      fresh = λ e. absurd (omega (arith, (k.fresh e).0, asleep, states));
    }

-- `claim_expire` that unmaps first.
pub expire-Kept :
    (x : Slot) (l : Load)
    → x.state ≡ slot_asleep
    → Kept x l
    → Kept (gone x) (record l { closes_run = suc l.closes_run; close_calls = suc l.close_calls })
unfolding gone
expire-Kept x l a k =
    let asleep : asleep_flag x.state ≡ 1 = rw a refl in
    let states = one_state x.state in
    record {
      owned = omega (arith, k.owned, states, asleep);
      settled = k.settled;
      debts_gone = λ n. omega (arith, k.debts_gone n, states, asleep);
      once = omega (arith, k.once, asleep);
      running = omega (arith, k.running);
      counted = λ e. absurd (omega (arith, e));
      unheld = λ _. k.unheld (omega (arith, asleep, states));
      fresh = λ e. absurd (omega (arith, (k.fresh e).0, asleep, states));
    }

-- A channel is closed by the goroutine that has it to close.
pub ready-Kept :
    (x : Slot) (m : ℕ) (l : Load)
    → Kept x (record l { debts = λ n. if m == n then suc (l.debts n) else l.debts n })
    → Kept (close_channel m x) l
unfolding close_channel
ready-Kept x m l k = record {
  owned = k.owned;
  settled = λ n.
      settle-debtor n m (if_ready (n == x.ready) l.owners) l.debts x.closed
        (l.made && leb n x.ready) (k.settled n);
  debts_gone = λ n. fewer (m == n) (l.debts n) (gone_flag x.state) (k.debts_gone n);
  once = k.once;
  running = k.running;
  counted = k.counted;
  unheld = k.unheld;
  fresh = k.fresh;
}
  where
    fewer : (b : Bool) (d g : ℕ) → (if b then suc d else d) ≤ g → d ≤ g
    fewer true d g h = omega (arith, h)
    fewer false d g h = h
