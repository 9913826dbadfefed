-- ===== src/Windowcounter/Buffer.antt =====
-- windowcounter/limiter.go: the windows that the limiter buffers. The code passes pointers to a
-- window on while it drops the lock, so a window is a place of a heap, and the map has places.
pub mod Flush
pub mod Heap
pub mod Hits
use traefik_middleware_utili.Prelude.{
  ℕ, Bytes, List, Option, [], if◌then◌else◌, length, ltb, none, some, suc, zero, ◌++◌, ◌==◌, ◌∷◌,
}
use traefik_middleware_utili.Prelude.Int.{ℤ, pos, wrap64, ◌+ℤ◌}
use traefik_middleware_utili.Prelude.Result.{Result, err, ok}
use traefik_middleware_utili.Keys.{find, store}
use traefik_middleware_utili.Simpleredis.Errors
use traefik_middleware_utili.Windowcounter.Sliding.{Error, failed}

-- The two deltas never go below zero.
pub record WindowState : Type 0 where
  pub redis_known : ℤ
  pub local_delta : ℕ
  pub expire_at : ℕ
  pub flush_delta : ℕ

pub record Buffer : Type 0 where
  pub heap : List WindowState
  pub windows : List (Bytes × ℕ)
  pub last_flush_err : Option Error
  pub flush_failed_at : Option ℕ
  pub last_redis_ok : Option ℕ

abbrev pub zero_window : WindowState
zero_window = record { redis_known = pos 0; local_delta = 0; expire_at = 0; flush_delta = 0 }

unfoldable pub nth : ℕ → List WindowState → WindowState
nth i [] = zero_window
nth zero (w ∷ h) = w
nth (suc i) (w ∷ h) = nth i h

unfoldable pub change : ℕ → (WindowState → WindowState) → List WindowState → List WindowState
change i f [] = []
change zero f (w ∷ h) = f w ∷ h
change (suc i) f (w ∷ h) = w ∷ change i f h

abbrev pub window : ℕ → Buffer → WindowState
window i l = nth i l.heap

abbrev pub write : ℕ → (WindowState → WindowState) → Buffer → Buffer
write i f l = record l { heap = change i f l.heap }

abbrev pub raise_to : ℕ → WindowState → WindowState
raise_to expire_at w = if ltb w.expire_at expire_at then record w { expire_at = expire_at } else w

abbrev pub learn : ℤ → WindowState → WindowState
learn known w = if w.local_delta == 0 then record w { redis_known = known } else w

abbrev pub apply_found : Bytes → ℤ → ℕ → Buffer → Option ℕ → ℕ × Buffer
apply_found key known expire_at l (some i) =
    (i, write i (λ w. learn known (raise_to expire_at w)) l)
apply_found key known expire_at l none = (
  length l.heap,
  record l {
    heap =
        l.heap
        ++ (record { redis_known = known; local_delta = 0; expire_at = expire_at; flush_delta = 0 }
            ∷ []);
    windows = store key (length l.heap) l.windows;
  },
)

-- `applyGetLocked`: the place of the window.
unfoldable pub apply_get : Bytes → ℤ → ℕ → Buffer → ℕ × Buffer
apply_get key known expire_at l = apply_found key known expire_at l (find key l.windows)

-- `redisKnown + localDelta`, in an int64.
abbrev pub count_of : WindowState → ℤ
count_of w = wrap64 (w.redis_known +ℤ pos w.local_delta)

abbrev pub contacted : ℕ → Buffer → Buffer
contacted now l = record l { last_redis_ok = some now }

-- A section that drops the lock: what Redis replies, what the other goroutines do meanwhile, and
-- the clock then, in nanoseconds.
pub record Gap (A : Type 0) : Type 0 where
  pub reply : A
  pub others : Buffer → Buffer
  pub now : ℕ

abbrev pub got : Gap (Result Errors.Error ℤ) → Bytes → ℕ → Buffer → Result Error ℕ × Buffer
got g key expire_at l = after_get g.reply
  where
    after_get : Result Errors.Error ℤ → Result Error ℕ × Buffer
    after_get (err e) = (err (failed e), g.others l)
    after_get (ok known) =
        let r = apply_get key known expire_at (contacted g.now (g.others l)) in (ok r.0, r.1)

abbrev pub found_window :
    Gap (Result Errors.Error ℤ) → Bytes → ℕ → Buffer → Option ℕ → Result Error ℕ × Buffer
found_window g key expire_at l none = got g key expire_at l
found_window g key expire_at l (some i) =
    let raised = write i (raise_to expire_at) l in
    if (window i raised).local_delta == 0 then got g key expire_at raised else (ok i, raised)

-- `windowLocked`: the place of the window.
unfoldable pub window_of :
    Gap (Result Errors.Error ℤ) → Bytes → ℕ → Buffer → Result Error ℕ × Buffer
window_of g key expire_at l = found_window g key expire_at l (find key l.windows)

-- The count of the window at a place, if there is one.
abbrev pub counted_at : Result Error ℕ × Buffer → Result Error ℤ × Buffer
counted_at (err e, l) = (err e, l)
counted_at (ok i, l) = (ok (count_of (window i l)), l)

abbrev pub found_count :
    Gap (Result Errors.Error ℤ) → Bytes → Buffer → Option ℕ → Result Error ℤ × Buffer
found_count g key l none = counted_at (got g key 0 l)
found_count g key l (some i) = (ok (count_of (window i l)), l)

unfoldable pub buffered_count :
    Gap (Result Errors.Error ℤ) → Bytes → Buffer → Result Error ℤ × Buffer
buffered_count g key l = found_count g key l (find key l.windows)

abbrev pub found_peek :
    Gap (Result Errors.Error ℤ) → Bytes → ℕ → Buffer → Option ℕ → Result Error ℤ × Buffer
found_peek g key expire_at l none = counted_at (got g key expire_at l)
found_peek g key expire_at l (some i) = counted_at (ok i, write i (raise_to expire_at) l)

unfoldable pub peek_count :
    Gap (Result Errors.Error ℤ) → Bytes → ℕ → Buffer → Result Error ℤ × Buffer
peek_count g key expire_at l = found_peek g key expire_at l (find key l.windows)
