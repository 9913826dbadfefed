-- ===== src/Windowcounter/Buffer/Hits/Whole.antt =====
-- windowcounter/limiter.go: a whole flush, and a whole Take, as steps on the windows, when no other
-- goroutine comes between.
use traefik_middleware_utili.Windowcounter.Sliding.{Error}
use traefik_middleware_utili.Windowcounter.Buffer.Flush.{
  drop_window, flush_pending, keys_of, note_failure,
}
use traefik_middleware_utili.Prelude.Int.{ℤ}
use traefik_middleware_utili.Simpleredis.Exec.{Values}
use traefik_middleware_utili.Prelude.Result.{Result, ok, err}
use traefik_middleware_utili.Prelude.{
  Bytes, List, [], ◌∷◌, Option, none, refl, some, ℕ, ◌∙◌, ◌≡◌, ap, sym, ◌/◌, ◌+◌, arith,
}
use traefik_middleware_utili.Simpleredis.Errors
use traefik_middleware_utili.Windowcounter.Buffer.{Buffer, Gap}
use traefik_middleware_utili.Windowcounter.Buffer.Flush.{
  Job, mark, mark_all, with_job, drop_all, eval_result, first_error, run_jobs, settle,
}
use traefik_middleware_utili.Windowcounter.Buffer.Hits.{
  Counting, HitStep, Picked, by_mark, later, by_drop, by_failed, by_sent, first, by_note,
}

pub data HitRun (c : Counting) : Counting → Type 0 where
  stay : HitRun c c
  go_on : (d e : Counting) → HitRun c d → HitStep d e → HitRun c e

pub HitRun-trans : (c d e : Counting) → HitRun c d → HitRun d e → HitRun c e
HitRun-trans c d _ r stay = r
HitRun-trans c d _ r (go_on f e q s) = go_on f e (HitRun-trans c d f r q) s

-- Jobs in the order in which they were marked, before the others.
abbrev pushed : List Job → List Job → List Job
pushed [] base = base
pushed (j ∷ js) base = pushed js (j ∷ base)

pushed-Picked :
    (j : Job) (js base rest : List Job)
    → Picked j base rest
    → Picked j (pushed js base) (pushed js rest)
pushed-Picked j [] base rest p = p
pushed-Picked j (k ∷ js) base rest p =
    pushed-Picked j js (k ∷ base) (k ∷ rest) (later k base rest p)

abbrev with_buffer : Counting → Buffer → List Job → Counting
with_buffer c l jobs = record c { buffer = l; jobs = jobs }

pushed-with_job :
    (o : Option Job) (js base : List Job)
    → pushed (with_job o js) base ≡ pushed js (with_job o base)
pushed-with_job none js base = refl
pushed-with_job (some j) js base = refl

HitRun-mark_all :
    (keys : List Bytes) (c : Counting)
    → HitRun c (with_buffer c (mark_all keys c.buffer).1 (pushed (mark_all keys c.buffer).0 c.jobs))
unfolding mark_all
HitRun-mark_all [] c = stay
HitRun-mark_all (key ∷ keys) c =
    let marked = mark key c.buffer in
    let next = with_buffer c marked.1 (with_job marked.0 c.jobs) in
    rw (pushed-with_job marked.0 (mark_all keys marked.1).0 c.jobs)
      (HitRun-trans c next _ (go_on c next stay (by_mark key c)) (HitRun-mark_all keys next))

HitRun-drop_all :
    (now_unix : ℕ) (keys : List Bytes) (c : Counting)
    → HitRun c (with_buffer c (drop_all now_unix keys c.buffer) c.jobs)
unfolding drop_all
HitRun-drop_all now_unix [] c = stay
HitRun-drop_all now_unix (key ∷ keys) c =
    let next = with_buffer c (drop_window now_unix key c.buffer) c.jobs in
    HitRun-trans c next _ (go_on c next stay (by_drop now_unix key c))
      (HitRun-drop_all now_unix keys next)

-- What a run of the code reaches: its buffer, with the jobs and the hits as they were.
pub record IsRun (c : Counting) (l : Buffer) (jobs : List Job) (taken sent : ℕ) : Type 0 where
  pub end : Counting
  pub run : HitRun c end
  pub at_buffer : end.buffer ≡ l
  pub at_jobs : end.jobs ≡ jobs
  pub at_taken : end.taken ≡ taken
  pub at_sent : end.sent ≡ sent

-- The hits of a job that Redis took.
abbrev pub answered_delta : Job → Result Error ℤ → ℕ
answered_delta j (ok n) = j.delta
answered_delta j (err e) = 0

-- The hits of the jobs that Redis takes.
unfoldable pub delivered : (Bytes → Gap (Result Errors.Error Values)) → List Job → ℕ
delivered gaps [] = 0
delivered gaps (j ∷ js) =
    answered_delta j (eval_result (gaps j.redis_key).reply) + delivered gaps js

settle-IsRun :
    (now : ℕ) (j : Job) (r : Result Error ℤ) (rest : List Job) (c : Counting)
    → Picked j c.jobs rest
    → IsRun c (settle now j r c.buffer) rest c.taken (c.sent + answered_delta j r)
settle-IsRun now j (ok n) rest c p = record {
  end = _;
  run = go_on c _ stay (by_sent now j n rest c p);
  at_buffer = refl;
  at_jobs = refl;
  at_taken = refl;
  at_sent = refl;
}
settle-IsRun now j (err e) rest c p = record {
  end = _;
  run = go_on c _ stay (by_failed now j e rest c p);
  at_buffer = refl;
  at_jobs = refl;
  at_taken = refl;
  at_sent = omega arith;
}

-- No other goroutine comes between.
abbrev pub Alone : (Bytes → Gap (Result Errors.Error Values)) → Type 0
Alone gaps = (key : Bytes) (l : Buffer) → (gaps key).others l ≡ l

run_jobs-IsRun :
    (gaps : Bytes → Gap (Result Errors.Error Values)) (js base : List Job) (o : Option Error)
    (c : Counting)
    → Alone gaps
    → c.jobs ≡ pushed js base
    → IsRun c (run_jobs gaps js o c.buffer).1 base c.taken (c.sent + delivered gaps js)
unfolding run_jobs delivered
run_jobs-IsRun gaps [] base o c alone q = record {
  end = c;
  run = stay;
  at_buffer = refl;
  at_jobs = q;
  at_taken = refl;
  at_sent = omega arith;
}
run_jobs-IsRun gaps (j ∷ js) base o c alone q =
    let g = gaps j.redis_key in
    let r = eval_result g.reply in
    let p : Picked j c.jobs (pushed js base) =
      rw q (pushed-Picked j js (j ∷ base) base (first base)) in
    let one = settle-IsRun g.now j r (pushed js base) c p in
    let more = run_jobs-IsRun gaps js base (first_error o r) one.end alone one.at_jobs in
    record {
      end = more.end;
      run = HitRun-trans c one.end more.end one.run more.run;
      at_buffer =
          more.at_buffer
          ∙ ap (λ l. (run_jobs gaps js (first_error o r) l).1)
              (one.at_buffer ∙ ap (settle g.now j r) (sym (alone j.redis_key c.buffer)));
      at_jobs = more.at_jobs;
      at_taken = more.at_taken ∙ one.at_taken;
      at_sent = omega (arith, more.at_sent, one.at_sent);
    }

pub note_failure-IsRun :
    (now : ℕ) (o : Option Error) (l : Buffer) (c : Counting)
    → c.buffer ≡ l
    → IsRun c (note_failure now (o, l)).1 c.jobs c.taken c.sent
note_failure-IsRun now none l c q = record {
  end = c;
  run = stay;
  at_buffer = q;
  at_jobs = refl;
  at_taken = refl;
  at_sent = refl;
}
note_failure-IsRun now (some e) l c q =
    let noted = (note_failure now (some e, l)).1 in
    record {
      end = with_buffer c noted c.jobs;
      run =
          go_on c _ stay (by_note noted c (ap (λ b. b.heap) (sym q)) (ap (λ b. b.windows) (sym q)));
      at_buffer = refl;
      at_jobs = refl;
      at_taken = refl;
      at_sent = refl;
    }

pub flush_pending-IsRun :
    (gaps : Bytes → Gap (Result Errors.Error Values)) (now at_end : ℕ) (c : Counting)
    → Alone gaps
    → IsRun c
        (flush_pending gaps now at_end c.buffer).1
        c.jobs
        c.taken
        (c.sent + delivered gaps (mark_all (keys_of c.buffer) c.buffer).0)
unfolding flush_pending
flush_pending-IsRun gaps now at_end c alone =
    let marked = mark_all (keys_of c.buffer) c.buffer in
    let all_marked = with_buffer c marked.1 (pushed marked.0 c.jobs) in
    let ran = run_jobs-IsRun gaps marked.0 c.jobs none all_marked alone refl in
    let result = run_jobs gaps marked.0 none marked.1 in
    let keys = keys_of ran.end.buffer in
    let dropped =
      with_buffer ran.end (drop_all (now / 1000000000) keys ran.end.buffer) ran.end.jobs in
    let noted =
      note_failure-IsRun at_end result.0 (drop_all (now / 1000000000) (keys_of result.1) result.1)
        dropped (ap (λ l. drop_all (now / 1000000000) (keys_of l) l) ran.at_buffer) in
    record {
      end = noted.end;
      run =
          HitRun-trans c dropped noted.end
            (HitRun-trans c ran.end dropped
              (HitRun-trans c all_marked ran.end (HitRun-mark_all (keys_of c.buffer) c) ran.run)
              (HitRun-drop_all (now / 1000000000) keys ran.end))
            noted.run;
      at_buffer = noted.at_buffer;
      at_jobs = noted.at_jobs ∙ ran.at_jobs;
      at_taken = noted.at_taken ∙ ran.at_taken;
      at_sent = noted.at_sent ∙ ran.at_sent;
    }
