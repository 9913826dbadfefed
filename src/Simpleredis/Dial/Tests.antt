-- ===== src/Simpleredis/Dial/Tests.antt =====
-- Witnesses of the properties of a dial, with a peer that refuses the password.
use traefik_middleware_utili.Prelude.{
  ℕ, Bytes, Option, [], codes, false, length, ltb, none, refl, some, true, ◌∷◌, ◌≡◌, ◌≢◌, ◌↔◌,
  arith, has_prefix,
}
use traefik_middleware_utili.Prelude.Int.{pos}
use traefik_middleware_utili.Prelude.Result.{err}
use traefik_middleware_utili.Simpleredis.Errors.{no_auth, Error, eof, unreachable}
use traefik_middleware_utili.Simpleredis.Resp.{
  read_reply, read_line, read_slice, strip_line, reply_of, reply_error,
}
use traefik_middleware_utili.Simpleredis.Retry.{retry_limits}
use traefik_middleware_utili.Simpleredis.Exec.{library_timeout, Attempt, exec, not_borrowed}
use traefik_middleware_utili.Simpleredis.Conn.{Socket, do_command}
use traefik_middleware_utili.Simpleredis.Dial.{
  Network, connected, dial, dial_connected_iff, exec_auth_refused,
}

abbrev wrong_pass : Error
wrong_pass = no_auth

abbrev refusing : Socket
refusing = record {
  stop_start = none;
  budget_left = pos 900;
  stop_budget = none;
  deadline_set = true;
  unread_before = false;
  write_error = none;
  reply = record { bytes = codes "-WRONGPASS\r\n"; ending = eof };
  stop_read = none;
  stop_io = none;
  has_deadline = true;
  read_ahead = λ s. ltb 0 (length s);
  stop_run = none;
}

abbrev guarded : Network
guarded = record {
  stop_start = none;
  connects = true;
  stop_dial = none;
  auth = refusing;
  select = refusing;
}

refused_password : (do_command refusing).error ≡ some wrong_pass
unfolding do_command read_reply read_line read_slice strip_line reply_of reply_error has_prefix
refused_password = refl

dial_connected_iff_example : (dial (codes "secret") [] guarded ≡ connected) ↔ (
    (◌≡◌ {A = Option Error} none none)
    × (true ≡ true)
    × (codes "secret" ≢ [] → (do_command refusing).error ≡ none)
    × (◌≢◌ {A = Bytes} [] [] → (do_command refusing).error ≡ none))
dial_connected_iff_example = dial_connected_iff (codes "secret") [] guarded

abbrev wrong_password : ℕ → Attempt
wrong_password i = record {
  stop = none;
  wait = none;
  closed = false;
  borrow = λ skip. not_borrowed wrong_pass true;
  run = λ from_idle. err unreachable;
}

exec_auth_refused_example :
    exec none true (pos 1) wrong_password ≡ record { result = err wrong_pass; borrows = false ∷ [] }
unfolding retry_limits dial do_command read_reply read_line read_slice strip_line reply_of
    reply_error has_prefix library_timeout
exec_auth_refused_example =
    exec_auth_refused (codes "secret") [] guarded true (pos 1) wrong_password wrong_pass
      (omega arith) (λ q. cc) refl refl refused_password refl refl
