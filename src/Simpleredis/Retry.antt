-- ===== src/Simpleredis/Retry.antt =====
-- simpleredis/commands_exec.go: which errors are sent again, how often and after what wait.
pub mod Bounds
use traefik_middleware_utili.Prelude.{
  ℕ, Bool, Bytes, codes, false, has_prefix, if◌then◌else◌, same_text, true, ◌*◌, ◌||◌,
}
use traefik_middleware_utili.Prelude.Int.{
  ℤ, ltb_ℤ, minus_one, pos, pos_part, shift_left, wrap64, ◌+ℤ◌, ◌==ℤ◌,
}
use traefik_middleware_utili.Simpleredis.Errors.{
  Error, canceled, deadline_exceeded, error_text, timeout, unreachable,
}
use traefik_middleware_utili.Simpleredis.Config.{millisecond}

pub record Limits : Type 0 where
  pub retries : ℤ
  pub min_backoff : ℤ
  pub max_backoff : ℤ

-- -1 is none, 0 is the default.
abbrev pub sentinel : ℤ → ℤ → ℤ
sentinel v d = if v ==ℤ minus_one then pos 0 else if v ==ℤ pos 0 then d else v

unfoldable pub retry_limits : ℤ → ℤ → ℤ → Limits
retry_limits retries lo hi = record {
  retries = sentinel retries (pos 3);
  min_backoff = sentinel lo (pos (8 * millisecond));
  max_backoff = sentinel hi (pos (512 * millisecond));
}

-- `retryBackoff` of a retry index that is not negative; `jitter span` is `rand.Int63n(span)`.
unfoldable pub retry_backoff : (ℕ → ℕ) → ℕ → ℤ → ℤ → ℤ
retry_backoff jitter retry lo hi =
    let backoff = wrap64 (shift_left lo retry) in
    let spread =
      if ltb_ℤ (pos 0) backoff then wrap64 (lo +ℤ pos (jitter (pos_part backoff))) else backoff in
    if lo ==ℤ pos 0
    then pos 0
    else if ltb_ℤ backoff lo
    then hi
    else if ltb_ℤ hi spread || ltb_ℤ spread lo
    then hi
    else spread

unfoldable pub is_command_timeout : Error → Bool
is_command_timeout timeout = true
is_command_timeout _ = false

-- By identity, not by `errors.Is`.
unfoldable pub is_unreachable : Error → Bool
is_unreachable unreachable = true
is_unreachable _ = false

unfoldable pub is_context_error : Error → Bool
is_context_error canceled = true
is_context_error deadline_exceeded = true
is_context_error _ = false

unfoldable pub is_retryable_text : Bytes → Bool
is_retryable_text text =
    same_text text (codes "ERR max number of clients reached")
    || has_prefix (codes "LOADING ") text
    || has_prefix (codes "READONLY ") text
    || has_prefix (codes "MASTERDOWN ") text
    || has_prefix (codes "CLUSTERDOWN ") text
    || has_prefix (codes "TRYAGAIN ") text

unfoldable pub should_retry : Error → Bool → Bool
unfolding is_context_error is_command_timeout is_unreachable error_text
should_retry e handshake_failed =
    if is_context_error e
    then false
    else if is_command_timeout e
    then false
    else if handshake_failed
    then false
    else if is_unreachable e
    then true
    else is_retryable_text (error_text e)
