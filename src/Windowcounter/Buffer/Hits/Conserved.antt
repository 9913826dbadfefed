-- ===== src/Windowcounter/Buffer/Hits/Conserved.antt =====
-- windowcounter/limiter.go: every hit is in a local delta or in a flush that came back.
use traefik_middleware_utili.Keys.{find}
use traefik_middleware_utili.Prelude.{
  ℕ, Bool-cases, Bytes, List, Option, ap, arith, inl, inr, ltb, none, refl, some, ◌&&◌, ◌+◌, ◌==◌,
  ◌≡◌, ◌≤◌,
}
use traefik_middleware_utili.Prelude.Int.{ℤ}
use traefik_middleware_utili.Prelude.Result.{err, ok}
use traefik_middleware_utili.Windowcounter.Buffer.{
  Buffer, apply_found, apply_get, learn, nth, raise_to, window, write,
}
use traefik_middleware_utili.Windowcounter.Buffer.Flush.{
  Job, drop_window, drop_found, after_eval, in_flight, is_over, mark, mark_found, not_flushed,
  settle, settle_found,
}
use traefik_middleware_utili.Windowcounter.Buffer.Heap.{
  total, total-append, total-change, total-change_same,
}
use traefik_middleware_utili.Windowcounter.Buffer.Hits.{
  Counted, Counting, Every-map, HitStep, IsOpen, IsPicked, IsShaped, Picked-IsPicked,
  nothing_counted, write-IsShaped, by_drop, by_failed, by_get, by_hit, by_mark, by_note, by_raise,
  by_sent, none_counted, then_step,
}
use traefik_middleware_utili.Windowcounter.Buffer.Hits.Steps.{
  apply_get-IsShaped, drop_window-IsShaped, mark-IsShaped, over-IsShaped, raise-IsShaped,
}
use traefik_middleware_utili.Windowcounter.Limiter.{hit}
use traefik_middleware_utili.Windowcounter.Sliding.{Error}

pub record IsConserved (c : Counting) : Type 0 where
  pub shaped : IsShaped c.buffer c.jobs
  pub account : c.taken ≡ total c.buffer.heap + c.sent

note-IsShaped :
    (l m : Buffer) (jobs : List Job)
    → m.heap ≡ l.heap
    → m.windows ≡ l.windows
    → IsShaped l jobs
    → IsShaped m jobs
note-IsShaped l m jobs p q s = record {
  in_heap = λ key i e. rw p (s.in_heap key i (rw q at e));
  one_key = λ key other_key i e e'. s.one_key key other_key i (rw q at e) (rw q at e');
  enough = λ i. rw p (s.enough i);
  open_jobs =
      Every-map (IsOpen l) (IsOpen m) jobs
        (λ j o. record {
          place = o.place;
          there = rw q o.there;
          same_delta = rw p o.same_delta;
          some_hits = o.some_hits;
        })
        s.open_jobs;
  apart_jobs = s.apart_jobs;
}

apply_get-total :
    (key : Bytes) (known : ℤ) (e : ℕ) (l : Buffer)
    → total (apply_get key known e l).1.heap ≡ total l.heap
unfolding apply_get
apply_get-total key known e l = go (find key l.windows)
  where
    go : (o : Option ℕ) → total (apply_found key known e l o).1.heap ≡ total l.heap
    go none = omega (arith, total-append l.heap _)
    go (some i) = total-change_same i (λ w. learn known (raise_to e w)) l.heap (λ w. ground arith)

mark-total : (key : Bytes) (l : Buffer) → total (mark key l).1.heap ≡ total l.heap
unfolding mark
mark-total key l = go (find key l.windows)
  where
    go : (o : Option ℕ) → total (mark_found key l o).1.heap ≡ total l.heap
    go none = refl
    go (some i) =
        elim (Bool-cases (ltb 0 (window i l).local_delta && (window i l).flush_delta == 0)) [
          | inl r ↦ rw r (total-change_same i in_flight l.heap (λ w. refl))
          | inr r ↦ rw r refl
        ]

drop_window-total :
    (now_unix : ℕ) (key : Bytes) (l : Buffer)
    → total (drop_window now_unix key l).heap ≡ total l.heap
unfolding drop_window
drop_window-total now_unix key l = go (find key l.windows)
  where
    go : (o : Option ℕ) → total (drop_found now_unix key l o).heap ≡ total l.heap
    go none = refl
    go (some i) = elim (Bool-cases (is_over now_unix (window i l))) [
      | inl r ↦ rw r refl
      | inr r ↦ rw r refl
    ]

-- An EVAL that came back takes exactly its delta off the window.
sent-IsConserved :
    (now : ℕ) (j : Job) (n : ℤ) (rest : List Job) (c : Counting)
    → IsPicked c.buffer j rest
    → IsConserved c
    → IsConserved
        (record c { buffer = settle now j (ok n) c.buffer; jobs = rest; sent = c.sent + j.delta })
unfolding settle
sent-IsConserved now j n rest c p k =
    let i = p.picked.place in
    let l = c.buffer in
    let settled = settle_found now j (ok n) l (some i) in
    let same : settle now j (ok n) l ≡ settled = ap (settle_found now j (ok n) l) p.picked.there in
    let shaped : IsShaped settled rest =
      note-IsShaped (write i (after_eval n j.delta) l) settled rest refl refl
        (over-IsShaped (after_eval n j.delta) l c.jobs j rest (λ w. refl) k.shaped p) in
    let total_now =
      total-change i (after_eval n j.delta) l.heap
        (k.shaped.in_heap j.redis_key i p.picked.there) in
    let enough : j.delta ≤ (nth i l.heap).local_delta =
      omega (arith, k.shaped.enough i, p.picked.same_delta) in
    record {
      shaped = rw p.picked.there shaped;
      account = rw p.picked.there (omega (arith, k.account, total_now, enough));
    }

failed-IsConserved :
    (now : ℕ) (j : Job) (e : Error) (rest : List Job) (c : Counting)
    → IsPicked c.buffer j rest
    → IsConserved c
    → IsConserved (record c { buffer = settle now j (err e) c.buffer; jobs = rest })
unfolding settle
failed-IsConserved now j e rest c p k = record {
  shaped =
      rw p.picked.there (over-IsShaped not_flushed c.buffer c.jobs j rest (λ w. refl) k.shaped p);
  account = rw p.picked.there (
      omega
        (arith, k.account, total-change_same p.picked.place not_flushed c.buffer.heap (λ w. refl)));
}

pub HitStep-IsConserved : (c d : Counting) → HitStep c d → IsConserved c → IsConserved d
HitStep-IsConserved _ _ (by_hit i c l) k = record {
  shaped =
      write-IsShaped i hit c.buffer c.jobs (λ w enough. omega (arith, enough)) (λ w. refl) k.shaped;
  account = omega (arith, k.account, total-change i hit c.buffer.heap l);
}
HitStep-IsConserved _ _ (by_raise i e c) k = record {
  shaped = raise-IsShaped i e c.buffer c.jobs k.shaped;
  account =
      omega (arith, k.account, total-change_same i (raise_to e) c.buffer.heap (λ w. ground arith));
}
HitStep-IsConserved _ _ (by_get key known e c) k = record {
  shaped = apply_get-IsShaped key known e c.buffer c.jobs k.shaped;
  account = omega (arith, k.account, apply_get-total key known e c.buffer);
}
HitStep-IsConserved _ _ (by_mark key c) k = record {
  shaped = mark-IsShaped key c.buffer c.jobs k.shaped;
  account = omega (arith, k.account, mark-total key c.buffer);
}
HitStep-IsConserved _ _ (by_sent now j n rest c p) k =
    sent-IsConserved now j n rest c (Picked-IsPicked c.buffer j c.jobs rest p k.shaped) k
HitStep-IsConserved _ _ (by_failed now j e rest c p) k =
    failed-IsConserved now j e rest c (Picked-IsPicked c.buffer j c.jobs rest p k.shaped) k
HitStep-IsConserved _ _ (by_drop now_unix key c) k = record {
  shaped = drop_window-IsShaped now_unix key c.buffer c.jobs k.shaped;
  account = omega (arith, k.account, drop_window-total now_unix key c.buffer);
}
HitStep-IsConserved _ _ (by_note l c p q) k = record {
  shaped = note-IsShaped c.buffer l c.jobs p q k.shaped;
  account = omega (arith, k.account, ap total p);
}

nothing-IsConserved : IsConserved nothing_counted
unfolding find nth total
nothing-IsConserved = record {
  shaped = record {
    in_heap = λ key i q. cc;
    one_key = λ key other_key i q. cc;
    enough = λ i. omega arith;
    open_jobs = tt;
    apart_jobs = tt;
  };
  account = refl;
}

-- Through every interleaving of the locked sections of Take, Peek and the flushes: the hits taken
-- are the local deltas and those in flushes that came back without an error; no window has more in
-- flight than is local; each flush that is out is the one of its key's window.
pub Counted-IsConserved : (c : Counting) → Counted c → IsConserved c
Counted-IsConserved _ none_counted = nothing-IsConserved
Counted-IsConserved _ (then_step c d r q) = HitStep-IsConserved c d q (Counted-IsConserved c r)
