-- ===== src/Windowcounter/Buffer/Hits/OneHit.antt =====
-- windowcounter/limiter.go: a Take that no other goroutine comes between counts one hit.
use mathlib.Core.Path.{subst}
use traefik_middleware_utili.Keys.{find}
use traefik_middleware_utili.Windowcounter.Buffer.Heap.{total}
use traefik_middleware_utili.Windowcounter.Buffer.Hits.Whole.{delivered}
use traefik_middleware_utili.Windowcounter.Buffer.Flush.{mark_all, keys_of}
use traefik_middleware_utili.Prelude.{if_cases, if◌then◌else◌, Bytes}
use traefik_middleware_utili.Float.{Float}
use traefik_middleware_utili.Simpleredis.Commands.{Exec}
use traefik_middleware_utili.Windowcounter.Limiter.{
  Around, take_window, hit, take_at, take_buffered,
}
use traefik_middleware_utili.Windowcounter.Buffer.Hits.Take.{
  buffered_count-IsCountFound, window_of-IsFound, HitRun-IsConserved, IsFound, IsAnswered,
}
use traefik_middleware_utili.Windowcounter.Buffer.Hits.Conserved.{IsConserved, Counted-IsConserved}
use traefik_middleware_utili.Windowcounter.Sliding.{Error, failed, SlidingWindow}
use traefik_middleware_utili.Prelude.{
  ℕ, Bool-cases, Option, inl, inr, length, none, refl, some, ◌≡◌, ◌==◌, ap, ◌+◌, ◌∙◌, arith, sym,
  ◌<◌,
}
use traefik_middleware_utili.Prelude.Int.{ℤ}
use traefik_middleware_utili.Prelude.Result.{Result, err, ok}
use traefik_middleware_utili.Simpleredis.Errors
use traefik_middleware_utili.Windowcounter.Buffer.{
  Buffer, contacted, write, buffered_count, window_of,
}
use traefik_middleware_utili.Windowcounter.Buffer.Flush.{
  Outage, contacted_within, outage_error, probe_any, probed, retained, unless_contacted,
  after_flush, flush_pending, retained_or,
}
use traefik_middleware_utili.Windowcounter.Buffer.Hits.{
  stray_hit, Counting, by_note, by_hit, Counted,
}
use traefik_middleware_utili.Windowcounter.Buffer.Hits.Whole.{
  Alone, HitRun-trans, IsRun, note_failure-IsRun, go_on, stay, flush_pending-IsRun,
}

-- `n` hits sent, and none taken.
abbrev Same : Counting → Buffer → ℕ → Type 0
Same c l n = IsRun c l c.jobs c.taken (c.sent + n)

nothing_run : (c : Counting) → Same c c.buffer 0
nothing_run c = record {
  end = c;
  run = stay;
  at_buffer = refl;
  at_jobs = refl;
  at_taken = refl;
  at_sent = omega arith;
}

abbrev unless_retained : Option Error → ℕ → ℕ
unless_retained none n = n
unless_retained (some e) n = 0

unless_retained_zero : (o : Option Error) → unless_retained o 0 ≡ 0
unless_retained_zero none = refl
unless_retained_zero (some e) = refl

retained-IsRun :
    (k : Buffer → Option Error × Buffer) (c : Counting) (n : ℕ)
    → Same c (k c.buffer).1 n
    → Same c (retained k c.buffer).1 (unless_retained c.buffer.last_flush_err n)
retained-IsRun k c n r = go c.buffer.last_flush_err
  where
    go : (o : Option Error) → Same c (retained_or k c.buffer o).1 (unless_retained o n)
    go none = r
    go (some e) = nothing_run c

unless_contacted-IsRun :
    (rate now : ℕ) (k : Buffer → Option Error × Buffer) (c : Counting) (n : ℕ)
    → Same c (k c.buffer).1 n
    → Same c
        (unless_contacted rate now k c.buffer).1
        (if contacted_within rate now c.buffer then 0 else n)
unless_contacted-IsRun rate now k c n r = elim (Bool-cases (contacted_within rate now c.buffer)) [
  | inl q ↦ rw q (nothing_run c)
  | inr q ↦ rw q r
]

-- No other goroutine comes between.
pub record IsAlone (o : Outage) : Type 0 where
  pub flushes : Alone o.flush_gaps
  pub probe_alone : (l : Buffer) → o.probe.others l ≡ l

contacted-IsRun : (now : ℕ) (c : Counting) → Same c (contacted now c.buffer) 0
contacted-IsRun now c =
    let l = contacted now c.buffer in
    record {
      end = record c { buffer = l };
      run = go_on c _ stay (by_note l c refl refl);
      at_buffer = refl;
      at_jobs = refl;
      at_taken = refl;
      at_sent = omega arith;
    }

none_sent : (c : Counting) {l : Buffer} → IsRun c l c.jobs c.taken c.sent → Same c l 0
none_sent c r = record {
  end = r.end;
  run = r.run;
  at_buffer = r.at_buffer;
  at_jobs = r.at_jobs;
  at_taken = r.at_taken;
  at_sent = omega (arith, r.at_sent);
}

probe_any-IsRun : (o : Outage) (c : Counting) → IsAlone o → Same c (probe_any o c.buffer).1 0
probe_any-IsRun o c alone = elim (Bool-cases (length c.buffer.windows == 0)) [
  | inl q ↦ rw q (nothing_run c)
  | inr q ↦ rw q (go o.probe.reply refl)
]
  where
    go : (r : Result Errors.Error ℤ) → o.probe.reply ≡ r → Same c (probed o c.buffer).1 0
    go (ok n) e = rw (e, alone.probe_alone c.buffer) (contacted-IsRun o.probe.now c)
    go (err f) e =
        rw (e, alone.probe_alone c.buffer)
          (none_sent c (note_failure-IsRun o.failed_now (some (failed f)) c.buffer c refl))

after_flush-IsRun :
    (rate : ℕ) (o : Outage) (c : Counting) (e : Option Error)
    → IsAlone o
    → Same c (after_flush rate o (e, c.buffer)).1 0
after_flush-IsRun rate o c (some e) alone = nothing_run c
after_flush-IsRun rate o c none alone =
    let none_twice : unless_retained c.buffer.last_flush_err
          (if contacted_within rate o.second_now c.buffer then 0 else 0)
        ≡ 0 =
      if_cases (λ n. unless_retained c.buffer.last_flush_err n ≡ 0)
        (contacted_within rate o.second_now c.buffer) 0 0
        (λ _. unless_retained_zero c.buffer.last_flush_err)
        (λ _. unless_retained_zero c.buffer.last_flush_err) in
    subst (Same c (after_flush rate o (none, c.buffer)).1) none_twice (
      retained-IsRun (unless_contacted rate o.second_now (probe_any o)) c _
        (unless_contacted-IsRun rate o.second_now (probe_any o) c 0 (probe_any-IsRun o c alone)))

-- The hits that the flush of the buffer `l` sends and Redis takes.
abbrev pub flush_delivers : Outage → Buffer → ℕ
flush_delivers o l = delivered o.flush_gaps (mark_all (keys_of l) l).0

-- Those that the outage check of the buffer `l` sends: none while an error is retained, and none
-- within a sync rate of the last answer.
abbrev pub check_delivers : ℕ → Outage → Buffer → ℕ
check_delivers rate o l =
    unless_retained l.last_flush_err
      (if contacted_within rate o.first_now l then 0 else flush_delivers o l)

-- The flush, and what is asked after it.
flush_or_probe-IsRun :
    (rate : ℕ) (o : Outage) (c : Counting)
    → IsAlone o
    → Same c
        (after_flush rate o (flush_pending o.flush_gaps o.flush_now o.later_now c.buffer)).1
        (flush_delivers o c.buffer)
flush_or_probe-IsRun rate o c alone =
    let flushed = flush_pending o.flush_gaps o.flush_now o.later_now c.buffer in
    let ran = flush_pending-IsRun o.flush_gaps o.flush_now o.later_now c alone.flushes in
    let probed_then = after_flush-IsRun rate o ran.end flushed.0 alone in
    record {
      end = probed_then.end;
      run = HitRun-trans c ran.end probed_then.end ran.run probed_then.run;
      at_buffer =
          probed_then.at_buffer ∙ ap (λ l. (after_flush rate o (flushed.0, l)).1) ran.at_buffer;
      at_jobs = probed_then.at_jobs ∙ ran.at_jobs;
      at_taken = probed_then.at_taken ∙ ran.at_taken;
      at_sent = omega (arith, probed_then.at_sent, ran.at_sent);
    }

outage_error-IsRun :
    (rate : ℕ) (o : Outage) (c : Counting)
    → IsAlone o
    → Same c (outage_error rate o c.buffer).1 (check_delivers rate o c.buffer)
unfolding outage_error
outage_error-IsRun rate o c alone =
    let flush_first =
      λ (l : Buffer). after_flush rate o (flush_pending o.flush_gaps o.flush_now o.later_now l) in
    retained-IsRun (unless_contacted rate o.first_now flush_first) c _ (
      unless_contacted-IsRun rate o.first_now flush_first c _ (flush_or_probe-IsRun rate o c alone))

-- The two GETs are answered, and no other goroutine comes between.
pub record IsQuiet (a : Around) : Type 0 where
  pub current : IsAnswered a.current_gap
  pub previous : IsAnswered a.previous_gap
  pub outage_alone : IsAlone a.outage

-- From the buffer `l` a Take of the key with `a` around it reaches `m`: it counts one hit in the
-- window that the map has for the key, and what its outage check then sends, and Redis takes, is all
-- that the local deltas lose.
pub record IsCountedOnce (rate : ℕ) (a : Around) (key : Bytes) (l m : Buffer) : Type 0 where
  pub found : Buffer
  pub place : ℕ
  pub named : find key found.windows ≡ some place
  pub none_yet : total found.heap ≡ total l.heap
  pub one_hit : total (write place hit found).heap ≡ total l.heap + 1
  pub checked : (outage_error rate a.outage (write place hit found)).1 ≡ m
  pub one_more :
      total m.heap + check_delivers rate a.outage (write place hit found) ≡ total l.heap + 1

module _ (fl : Float) {S : Type 0} (exec : Exec S) (rate : ℕ) (a : Around)
    (w : SlidingWindow fl.number) (limit : ℤ) where
  take_at_buffer :
      (i : ℕ) (r : Result Error ℤ × Buffer) (n : ℤ)
      → r.0 ≡ ok n
      → (take_at fl exec rate a w limit i r).1 ≡ (outage_error rate a.outage (write i hit r.1)).1
  take_at_buffer i (r, l) n q = rw q refl

  -- From the place of the window on.
  take_window-IsCountedOnce :
      (c : Counting) (r : Result Error ℕ × Buffer)
      → IsConserved c
      → IsQuiet a
      → IsFound w.current_key c 0 r
      → IsCountedOnce rate a w.current_key c.buffer (take_window fl exec rate a w limit r).1
  take_window-IsCountedOnce c (r, l) k quiet f =
      let i = f.place in
      let previous_of = buffered_count a.previous_gap w.previous_key in
      let found = f.run.end in
      let kept = HitRun-IsConserved c found f.run.run k in
      let seen =
        buffered_count-IsCountFound a.previous_gap w.previous_key found quiet.previous kept in
      let before = seen.run.end in
      let kept_before = HitRun-IsConserved found before seen.run.run kept in
      let after = record before {
        buffer = write i hit before.buffer;
        taken = before.taken + 1;
        stray = stray_hit i before;
      } in
      let bound : i < length before.buffer.heap = omega (
        arith,
        f.in_heap,
        ap (λ b. length b.heap) f.run.at_buffer,
        seen.longer,
        ap (λ b. length b.heap) seen.run.at_buffer,
      ) in
      let kept_after =
        HitRun-IsConserved before after (go_on before after stay (by_hit i before bound))
          kept_before in
      let asked = outage_error-IsRun rate a.outage after quiet.outage_alone in
      let kept_asked = HitRun-IsConserved after asked.end asked.run kept_after in
      let one_hit : total after.buffer.heap ≡ total c.buffer.heap + 1 = omega (
        arith, kept_after.account, k.account, seen.run.at_taken, f.run.at_taken, seen.run.at_sent,
        f.run.at_sent,
      ) in
      let one_more : total (outage_error rate a.outage after.buffer).1.heap
            + check_delivers rate a.outage after.buffer
          ≡ total c.buffer.heap + 1 =
        omega (
          arith,
          one_hit,
          kept_after.account,
          kept_asked.account,
          asked.at_taken,
          asked.at_sent,
          ap (λ b. total b.heap) asked.at_buffer,
        ) in
      let reached : (outage_error rate a.outage after.buffer).1
          ≡ (take_at fl exec rate a w limit i (previous_of l)).1 =
        ap (λ b. (outage_error rate a.outage (write i hit b)).1) seen.run.at_buffer
        ∙ sym (take_at_buffer i (previous_of found.buffer) seen.count seen.found)
        ∙ ap (λ b. (take_at fl exec rate a w limit i (previous_of b)).1) f.run.at_buffer in
      rw f.found (record {
        found = before.buffer;
        place = i;
        named = rw (seen.run.at_buffer) (seen.keeps w.current_key i (rw (f.run.at_buffer) f.named));
        none_yet = omega (
          arith, kept_before.account, k.account, seen.run.at_taken, f.run.at_taken,
          seen.run.at_sent, f.run.at_sent,
        );
        one_hit = one_hit;
        checked = reached;
        one_more = rw (← reached) one_more;
      })

  -- A buffered Take, in a state that the locked sections lead to, whose two GETs are answered and
  -- that no other goroutine comes between, adds exactly one hit, in the window that the map has
  -- for the current key, and the outage check that then ends it takes from the local deltas
  -- exactly those that Redis took in the check's flush, which is none while an error is retained
  -- or within a sync rate of the last answer.
  pub take_buffered-IsCountedOnce :
      (c : Counting)
      → Counted c
      → IsQuiet a
      → IsCountedOnce rate a w.current_key c.buffer
          (take_buffered fl exec rate a w limit c.buffer).1
  unfolding take_buffered
  take_buffered-IsCountedOnce c counted quiet =
      let k = Counted-IsConserved c counted in
      take_window-IsCountedOnce c (window_of a.current_gap w.current_key w.expire_at c.buffer) k
        quiet (window_of-IsFound a.current_gap w.current_key w.expire_at c quiet.current k)
