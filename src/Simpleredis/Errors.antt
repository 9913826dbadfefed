-- ===== src/Simpleredis/Errors.antt =====
-- simpleredis/simpleredis.go: the sentinels, and the errors of Go's packages that the client meets.
use traefik_middleware_utili.Prelude.{Bool, true, false, Bytes, codes}

-- `pool_wait` and `not_from_new` wrap `unreachable`; `other` is `errors.New` on a text of the peer.
pub data Error : Type 0 where
  unreachable miss timeout no_auth issue unsupported_reply : Error
  pool_wait not_from_new : Error
  canceled deadline_exceeded : Error
  os_deadline_exceeded eof unexpected_eof closed_conn : Error
  other : Bytes → Error

-- `err.Error()`.
unfoldable pub error_text : Error → Bytes
error_text unreachable = codes "redis:unreachable"
error_text miss = codes "redis:miss"
error_text timeout = codes "redis:timeout"
error_text no_auth = codes "redis:noauth"
error_text issue = codes "redis:issue?"
error_text unsupported_reply = codes "redis:unsupported-reply"
error_text pool_wait = codes "redis:unreachable"
error_text not_from_new = codes "redis:unreachable"
error_text canceled = codes "context canceled"
error_text deadline_exceeded = codes "context deadline exceeded"
error_text os_deadline_exceeded = codes "i/o timeout"
error_text eof = codes "EOF"
error_text unexpected_eof = codes "unexpected EOF"
error_text closed_conn = codes "use of closed network connection"
error_text (other text) = text

-- `IsMiss`, `IsUnreachable` and `IsPoolWait`: `errors.Is` sees through the wrapping.
unfoldable pub is_miss : Error → Bool
is_miss miss = true
is_miss _ = false

unfoldable pub is_unreachable_wrapped : Error → Bool
is_unreachable_wrapped unreachable = true
is_unreachable_wrapped pool_wait = true
is_unreachable_wrapped not_from_new = true
is_unreachable_wrapped _ = false

unfoldable pub is_pool_wait : Error → Bool
is_pool_wait pool_wait = true
is_pool_wait _ = false
