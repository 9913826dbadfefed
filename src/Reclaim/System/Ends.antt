-- ===== src/Reclaim/System/Ends.antt =====
-- reclaim/table.go: what is kept of a slot when its owner ends what it was busy with.
use traefik_middleware_utili.Prelude.{
  ℕ, Bool, Bytes, Option, if◌then◌else◌, ◌&&◌, ◌==◌, ◌+◌, ◌≡◌, suc, ap, arith, ◌≤◌, leb, if_cases,
}
use traefik_middleware_utili.Prelude.Int.{pos}
use traefik_middleware_utili.Reclaim.Values.{Any, member}
use traefik_middleware_utili.Reclaim.Table.{
  Slot, Hooks, slot_awake, slot_asleep, gone, one_more, close_channel,
}
use traefik_middleware_utili.Reclaim.System.Counts.{Load}
use traefik_middleware_utili.Reclaim.System.Kept.{
  Kept, IsPlain, owned_more, flag, one_state, plus_one, settle-owner, settle-left,
}

-- `publish_put`: the owner of a new slot makes it awake.
pub put-Kept :
    (x : Slot) (value : Any) (hooks : Hooks) (l : Load)
    → IsPlain l
    → Kept x (owned_more l)
    → Kept
        (close_channel x.ready
          (record (one_more x) { value = value; hooks = hooks; state = slot_awake }))
        (record l { held = suc l.held })
unfolding close_channel
put-Kept x value hooks l w k =
    let states = one_state x.state in
    record {
      owned = omega (arith, k.owned, states);
      settled = λ n.
          settle-owner n x.ready l.owners (l.debts n) x.closed (l.made && leb n x.ready)
            (k.settled n);
      debts_gone = λ n. omega (arith, k.debts_gone n, k.owned, states);
      once = omega (arith, k.once);
      running = k.running;
      counted = λ _.
          rw (k.counted (omega (arith, k.owned, states)))
            (plus_one (l.held + l.wakes) (suc l.held + l.wakes) (omega arith));
      unheld = λ e. absurd (omega (arith, e));
      fresh = λ e. absurd (omega (arith, (k.fresh e).0, k.owned, states));
    }

-- `publish_wake`.
pub wake-Kept :
    (x : Slot) (l : Load)
    → IsPlain l
    → Kept x (record (owned_more l) { wakes = suc l.wakes })
    → Kept
        (close_channel x.ready (record x { state = slot_awake }))
        (record l { held = suc l.held })
unfolding close_channel
wake-Kept x l w k =
    let states = one_state x.state in
    record {
      owned = omega (arith, k.owned, states);
      settled = λ n.
          settle-owner n x.ready l.owners (l.debts n) x.closed (l.made && leb n x.ready)
            (k.settled n);
      debts_gone = λ n. omega (arith, k.debts_gone n, k.owned, states);
      once = omega (arith, k.once);
      running = k.running;
      counted = λ _. rw (k.counted (omega (arith, k.owned, states))) (ap pos (omega arith));
      unheld = λ e. absurd (omega (arith, e));
      fresh = λ e. absurd (omega (arith, (k.fresh e).0, k.owned, states));
    }

-- `end_busy_slot`, with a Close to come or not.
pub end-Kept :
    (x : Slot) (create_err : Option Bytes) (more n : ℕ) (l : Load)
    → more ≤ 1
    → Kept x (record (owned_more l) { wakes = n })
    → Kept
        (close_channel x.ready (record (gone x) { create_err = create_err }))
        (record l { closes_run = more + l.closes_run; close_calls = more + l.close_calls })
unfolding close_channel gone
end-Kept x create_err more n l le k =
    let states = one_state x.state in
    record {
      owned = omega (arith, k.owned, states);
      settled = λ n.
          settle-owner n x.ready l.owners (l.debts n) x.closed (l.made && leb n x.ready)
            (k.settled n);
      debts_gone = λ n. omega (arith, k.debts_gone n, k.owned, states);
      once = omega (arith, k.once, le);
      running = omega (arith, k.running);
      counted = λ e. absurd (omega (arith, e));
      unheld = λ _. k.unheld (omega (arith, k.owned, states));
      fresh = λ e. absurd (omega (arith, (k.fresh e).0, k.owned, states));
    }

-- `install_closer`: the channel stays to be closed, and Close is to come.
pub swap-Kept :
    (x : Slot) (create_err : Option Bytes) (n : ℕ) (l : Load)
    → Kept x (record (owned_more l) { wakes = n })
    → Kept
        (record (gone x) { create_err = create_err })
        (record l {
          debts = λ m. if x.ready == m then suc (l.debts m) else l.debts m;
          closes_run = suc l.closes_run;
          close_calls = suc l.close_calls;
        })
unfolding gone
swap-Kept x create_err n l k =
    let states = one_state x.state in
    record {
      owned = omega (arith, k.owned, states);
      settled = λ n.
          settle-left n x.ready l.owners (l.debts n) (flag (member n x.closed))
            (l.made && leb n x.ready) (k.settled n);
      debts_gone = λ n.
          if_cases (λ t. t ≤ 1) (x.ready == n) (suc (l.debts n)) (l.debts n)
            (λ _. omega (arith, k.debts_gone n, k.owned, states))
            (λ _. omega (arith, k.debts_gone n, k.owned, states));
      once = omega (arith, k.once);
      running = omega (arith, k.running);
      counted = λ e. absurd (omega (arith, e));
      unheld = λ _. k.unheld (omega (arith, k.owned, states));
      fresh = λ e. absurd (omega (arith, (k.fresh e).0, k.owned, states));
    }

-- `unmap_locked`: the channel stays to be closed.
pub unmap-Kept :
    (x : Slot) (l : Load) (n : ℕ)
    → l.hooks_run ≤ l.owners
    → l.closes_run ≤ n
    → Kept x (record l { owners = suc l.owners; closes_run = n })
    → Kept (gone x) (record l { debts = λ m. if x.ready == m then suc (l.debts m) else l.debts m })
unfolding gone
unmap-Kept x l n w c k =
    let states = one_state x.state in
    record {
      owned = omega (arith, k.owned, states);
      settled = λ n.
          settle-left n x.ready l.owners (l.debts n) (flag (member n x.closed))
            (l.made && leb n x.ready) (k.settled n);
      debts_gone = λ n.
          if_cases (λ t. t ≤ 1) (x.ready == n) (suc (l.debts n)) (l.debts n)
            (λ _. omega (arith, k.debts_gone n, k.owned, states))
            (λ _. omega (arith, k.debts_gone n, k.owned, states));
      once = omega (arith, k.once);
      running = omega (arith, k.running, c);
      counted = λ e. absurd (omega (arith, e));
      unheld = λ _. k.unheld (omega (arith, k.owned, states));
      fresh = λ e. absurd (omega (arith, (k.fresh e).0, k.owned, states));
    }

-- A Close that has returned.
pub fewer-Kept :
    (x : Slot) (l : Load) (n : ℕ)
    → l.closes_run ≤ n
    → Kept x (record l { closes_run = n })
    → Kept x l
fewer-Kept x l n c k = record {
  owned = k.owned;
  settled = k.settled;
  debts_gone = k.debts_gone;
  once = k.once;
  running = omega (arith, k.running, c);
  counted = k.counted;
  unheld = k.unheld;
  fresh = k.fresh;
}

-- The Close of `endMappedClose`, which the owner goes on with.
pub go_on-Kept :
    (x : Slot) (l : Load)
    → IsPlain l
    → Kept x (owned_more l)
    → Kept x (record l {
      owners = suc l.owners;
      closes_run = suc l.closes_run;
      close_calls = suc l.close_calls;
    })
go_on-Kept x l w k =
    let states = one_state x.state in
    record {
      owned = k.owned;
      settled = k.settled;
      debts_gone = k.debts_gone;
      once = omega (arith, k.once);
      running = omega (arith, k.running);
      counted = k.counted;
      unheld = k.unheld;
      fresh = λ e. absurd (omega (arith, (k.fresh e).0, k.owned, states));
    }

-- `park_asleep`.
pub park-Kept :
    (x : Slot) (armed : Bool) (l : Load)
    → IsPlain l
    → Kept x (owned_more l)
    → Kept
        (record (close_channel x.ready (record x { state = slot_asleep })) { grace_timer = armed })
        l
unfolding close_channel
park-Kept x armed l w k =
    let states = one_state x.state in
    record {
      owned = omega (arith, k.owned, states);
      settled = λ n.
          settle-owner n x.ready l.owners (l.debts n) x.closed (l.made && leb n x.ready)
            (k.settled n);
      debts_gone = λ n. omega (arith, k.debts_gone n, k.owned, states);
      once = omega (arith, k.once);
      running = k.running;
      counted = λ _. k.counted (omega (arith, k.owned, states));
      unheld = λ _. k.unheld (omega (arith, k.owned, states));
      fresh = λ e. absurd (omega (arith, (k.fresh e).0, k.owned, states));
    }

-- Counts of Close that are written in another way.
pub equal-Kept :
    (x : Slot) (l : Load) (a b : ℕ)
    → a ≡ l.closes_run
    → b ≡ l.close_calls
    → Kept x (record l { closes_run = a; close_calls = b })
    → Kept x l
equal-Kept x l a b e f k = record {
  owned = k.owned;
  settled = k.settled;
  debts_gone = k.debts_gone;
  once = omega (arith, k.once, f);
  running = omega (arith, k.running, e, f);
  counted = k.counted;
  unheld = k.unheld;
  fresh = λ m. ((k.fresh m).0, omega (arith, (k.fresh m).1, f));
}
