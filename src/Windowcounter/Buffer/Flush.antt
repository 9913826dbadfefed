-- ===== src/Windowcounter/Buffer/Flush.antt =====
-- windowcounter/limiter.go: `flushPendingLocked` and `bufferedOutageErrorLocked`.
use traefik_middleware_utili.Prelude.{
  ℕ, Bool, Bytes, List, Option, [], false, if◌then◌else◌, leb, length, ltb, none, some, ◌&&◌, ◌-◌,
  ◌/◌, ◌==◌, ◌||◌, ◌∷◌, map,
}
use traefik_middleware_utili.Prelude.Int.{ℤ}
use traefik_middleware_utili.Prelude.Result.{Result, err, ok}
use traefik_middleware_utili.Keys.{erase, find}
use traefik_middleware_utili.Simpleredis.Errors
use traefik_middleware_utili.Simpleredis.Exec.{Values}
use traefik_middleware_utili.Simpleredis.Commands.{parse_int, slot_text}
use traefik_middleware_utili.Windowcounter.Buffer.{
  Buffer, Gap, WindowState, contacted, window, write,
}
use traefik_middleware_utili.Windowcounter.Sliding.{Error, eval_not_integer, failed}

-- `pendingFlush`.
pub record Job : Type 0 where
  pub redis_key : Bytes
  pub delta : ℕ
  pub expire_at : ℕ

abbrev pub in_flight : WindowState → WindowState
in_flight w = record w { flush_delta = w.local_delta }

abbrev pub mark_found : Bytes → Buffer → Option ℕ → Option Job × Buffer
mark_found key l none = (none, l)
mark_found key l (some i) =
    if ltb 0 (window i l).local_delta && (window i l).flush_delta == 0
    then (
      some (record {
        redis_key = key;
        delta = (window i l).local_delta;
        expire_at = (window i l).expire_at;
      }),
      write i in_flight l,
    )
    else (none, l)

unfoldable pub mark : Bytes → Buffer → Option Job × Buffer
mark key l = mark_found key l (find key l.windows)

abbrev pub with_job : Option Job → List Job → List Job
with_job none jobs = jobs
with_job (some j) jobs = j ∷ jobs

unfoldable pub mark_all : List Bytes → Buffer → List Job × Buffer
mark_all [] l = ([], l)
mark_all (key ∷ keys) l =
    let first = mark key l in let rest = mark_all keys first.1 in (with_job first.0 rest.0, rest.1)

unfoldable pub parse_eval_int : Values → Result Error ℤ
parse_eval_int (v ∷ []) = number (parse_int (slot_text v))
  where
    number : Option ℤ → Result Error ℤ
    number none = err eval_not_integer
    number (some n) = ok n
parse_eval_int _ = err (failed Errors.issue)

-- What an EVAL came to.
abbrev pub eval_result : Result Errors.Error Values → Result Error ℤ
eval_result (err e) = err (failed e)
eval_result (ok values) = parse_eval_int values

abbrev pub after_eval : ℤ → ℕ → WindowState → WindowState
after_eval n delta w = record w {
  redis_known = n;
  local_delta = w.local_delta - delta;
  flush_delta = 0;
}

abbrev pub not_flushed : WindowState → WindowState
not_flushed w = record w { flush_delta = 0 }

abbrev pub settle_found : ℕ → Job → Result Error ℤ → Buffer → Option ℕ → Buffer
settle_found now j r l none = l
settle_found now j (err e) l (some i) = write i not_flushed l
settle_found now j (ok n) l (some i) = record (contacted now (write i (after_eval n j.delta) l)) {
  last_flush_err = none;
}

-- What follows an EVAL, under the lock again.
unfoldable pub settle : ℕ → Job → Result Error ℤ → Buffer → Buffer
settle now j r l = settle_found now j r l (find j.redis_key l.windows)

abbrev pub first_error : {A : Type 0} → Option Error → Result Error A → Option Error
first_error (some e) r = some e
first_error none (err e) = some e
first_error none (ok a) = none

unfoldable pub run_jobs :
    (Bytes → Gap (Result Errors.Error Values))
    → List Job
    → Option Error
    → Buffer
    → Option Error × Buffer
run_jobs gaps [] first l = (first, l)
run_jobs gaps (j ∷ jobs) first l =
    let g = gaps j.redis_key in
    let r = eval_result g.reply in
    run_jobs gaps jobs (first_error first r) (settle g.now j r (g.others l))

abbrev pub is_over : ℕ → WindowState → Bool
is_over now_unix w =
    w.local_delta == 0 && w.flush_delta == 0 && (w.expire_at == 0 || leb w.expire_at now_unix)

abbrev pub drop_found : ℕ → Bytes → Buffer → Option ℕ → Buffer
drop_found now_unix key l none = l
drop_found now_unix key l (some i) =
    if is_over now_unix (window i l) then record l { windows = erase key l.windows } else l

unfoldable pub drop_window : ℕ → Bytes → Buffer → Buffer
drop_window now_unix key l = drop_found now_unix key l (find key l.windows)

unfoldable pub drop_all : ℕ → List Bytes → Buffer → Buffer
drop_all now_unix [] l = l
drop_all now_unix (key ∷ keys) l = drop_all now_unix keys (drop_window now_unix key l)

abbrev pub keys_of : Buffer → List Bytes
keys_of l = map (λ (p : Bytes × ℕ). p.0) l.windows

abbrev pub note_failure : ℕ → Option Error × Buffer → Option Error × Buffer
note_failure now (none, l) = (none, l)
note_failure now (some e, l) =
    (some e, record l { last_flush_err = some e; flush_failed_at = some now })

-- `flushPendingLocked`, at `now` and with the clock read at the end.
unfoldable pub flush_pending :
    (Bytes → Gap (Result Errors.Error Values)) → ℕ → ℕ → Buffer → Option Error × Buffer
flush_pending gaps now later l =
    let marked = mark_all (keys_of l) l in
    let ran = run_jobs gaps marked.0 none marked.1 in
    note_failure later (ran.0, drop_all (now / 1000000000) (keys_of ran.1) ran.1)

-- Whether Redis answered less than one sync rate ago.
abbrev pub contacted_within : ℕ → ℕ → Buffer → Bool
contacted_within sync_rate now l = within l.last_redis_ok
  where
    within : Option ℕ → Bool
    within none = false
    within (some t) = ltb (now - t) sync_rate

-- The flush, the clock at each of its readings, the key that the map gives for a probe, and the
-- probe.
pub record Outage : Type 0 where
  pub flush_gaps : Bytes → Gap (Result Errors.Error Values)
  pub first_now : ℕ
  pub flush_now : ℕ
  pub later_now : ℕ
  pub second_now : ℕ
  pub probe : Gap (Result Errors.Error ℤ)
  pub failed_now : ℕ

abbrev pub probed : Outage → Buffer → Option Error × Buffer
probed o l = after_probe o.probe.reply
  where
    after_probe : Result Errors.Error ℤ → Option Error × Buffer
    after_probe (ok n) = (none, contacted o.probe.now (o.probe.others l))
    after_probe (err e) = note_failure o.failed_now (some (failed e), o.probe.others l)

-- An empty map has nothing to probe.
abbrev pub probe_any : Outage → Buffer → Option Error × Buffer
probe_any o l = if length l.windows == 0 then (none, l) else probed o l

abbrev pub retained_or :
    (Buffer → Option Error × Buffer) → Buffer → Option Error → Option Error × Buffer
retained_or k l (some e) = (some e, l)
retained_or k l none = k l

abbrev pub retained : (Buffer → Option Error × Buffer) → Buffer → Option Error × Buffer
retained k l = retained_or k l l.last_flush_err

abbrev pub unless_contacted :
    ℕ → ℕ → (Buffer → Option Error × Buffer) → Buffer → Option Error × Buffer
unless_contacted sync_rate now k l = if contacted_within sync_rate now l then (none, l) else k l

abbrev pub after_flush : ℕ → Outage → Option Error × Buffer → Option Error × Buffer
after_flush sync_rate o (some e, l) = (some e, l)
after_flush sync_rate o (none, l) =
    retained (unless_contacted sync_rate o.second_now (probe_any o)) l

-- `bufferedOutageErrorLocked`.
unfoldable pub outage_error : ℕ → Outage → Buffer → Option Error × Buffer
outage_error sync_rate o = retained (
    unless_contacted sync_rate o.first_now
      (λ l. after_flush sync_rate o (flush_pending o.flush_gaps o.flush_now o.later_now l)))
