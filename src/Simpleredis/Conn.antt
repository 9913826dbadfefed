-- ===== src/Simpleredis/Conn.antt =====
-- simpleredis/resp.go `do` and commands_exec.go `runOnConn`: one command on one socket. What the
-- context, the clock and the socket answer is a `Socket`; its stops are what `contextStop` returns.
pub mod Reuse
use traefik_middleware_utili.Prelude.{
  Bool, Bytes, Option, [], false, if◌then◌else◌, none, not, some, true, ◌&&◌,
}
use traefik_middleware_utili.Prelude.Int.{ℤ, ltb_ℤ, pos}
use traefik_middleware_utili.Simpleredis.Errors.{
  Error, deadline_exceeded, issue, os_deadline_exceeded, timeout, unreachable, unsupported_reply,
}
use traefik_middleware_utili.Simpleredis.Resp.{read_reply, Reader, Reply, dirty, refused, values}
use traefik_middleware_utili.Simpleredis.Exec.{Values}

pub record Socket : Type 0 where
  pub stop_start : Option Error
  pub budget_left : ℤ
  pub stop_budget : Option Error
  pub deadline_set : Bool
  -- Bytes of an earlier reply are in the reader.
  pub unread_before : Bool
  pub write_error : Option Error
  pub reply : Reader
  pub stop_read : Option Error
  -- `ioOrContext`: the stop that it sees, and whether the context has a deadline.
  pub stop_io : Option Error
  pub has_deadline : Bool
  -- Whether the reader has already taken some of these unread bytes off the socket.
  pub read_ahead : Bytes → Bool
  pub stop_run : Option Error

-- What `do` returns.
pub record Done : Type 0 where
  pub result : Values
  pub reusable : Bool
  pub error : Option Error

abbrev pub fail : Error → Done
fail e = record { result = []; reusable = false; error = some e }

unfoldable pub io_error : Error → Error
io_error os_deadline_exceeded = timeout
io_error _ = unreachable

abbrev pub is_os_deadline : Error → Bool
is_os_deadline os_deadline_exceeded = true
is_os_deadline _ = false

unfoldable pub io_or_context : Option Error → Bool → Error → Error
unfolding io_error
io_or_context (some stop) has_deadline e = stop
io_or_context none has_deadline e =
    if has_deadline && is_os_deadline e then deadline_exceeded else io_error e

unfoldable pub is_dirty_protocol_error : Error → Bool
is_dirty_protocol_error issue = true
is_dirty_protocol_error unsupported_reply = true
is_dirty_protocol_error _ = false

-- Leftover bytes in the reader make the socket unusable, not the reply.
abbrev pub classify : Socket → Reply → Done
classify s (dirty e) =
    fail (if is_dirty_protocol_error e then e else io_or_context s.stop_io s.has_deadline e)
classify s (values vs r) = record {
  result = vs;
  reusable = not (s.read_ahead r.bytes);
  error = none;
}
classify s (refused e r) = record {
  result = [];
  reusable = not (s.read_ahead r.bytes);
  error = some e;
}

abbrev pub stop_or : Option Error → Done → Done
stop_or (some e) d = fail e
stop_or none d = d

abbrev pub after_write : Socket → Option Error → Done
after_write s (some e) = fail (io_or_context s.stop_io s.has_deadline e)
after_write s none = stop_or s.stop_read (classify s (read_reply s.reply))

unfoldable pub do_command : Socket → Done
do_command s = stop_or s.stop_start (
    if not (ltb_ℤ (pos 0) s.budget_left)
    then stop_or s.stop_budget (fail timeout)
    else if not s.deadline_set
    then fail unreachable
    else if s.unread_before
    then fail unreachable
    else after_write s s.write_error)

-- The values, the error and `reusable` that `release` is called with.
unfoldable pub run_on_conn : Socket → Done
run_on_conn s = stop_or s.stop_run (do_command s)
