-- ===== src/Simpleredis/Conn/Reuse.antt =====
-- When a socket goes back to the pool, and which errors a command can end with.
use traefik_middleware_utili.Simpleredis.Resp.ParseLen.{parse_len}
use traefik_middleware_utili.Prelude.Int.{pos, ℤ, negsuc, ltb_ℤ}
use traefik_middleware_utili.Simpleredis.Retry.{is_context_error}
use traefik_middleware_utili.Simpleredis.Resp.{
  read_reply, Reply, dirty, refused, values, reply_error, Bulk, Read, Reader, after_bulk,
  after_line, broken, bulk, element, failed, got, max_array_count, push_value, read_array,
  read_bulk, read_elements, reply_of, single, read_line,
}
use traefik_middleware_utili.Prelude.{
  Bool, Bytes, Option, [], arith, false, none, refl, some, true, ◌≡◌, Bool-cases, if◌then◌else◌,
  inl, inr, ltb, suc, zero, ℕ, ◌==◌, ◌||◌, ◌∷◌, if_cases, not,
}
use traefik_middleware_utili.Simpleredis.Errors.{
  Error, closed_conn, eof, os_deadline_exceeded, unexpected_eof, canceled, issue, timeout,
  unreachable,
}
use traefik_middleware_utili.Simpleredis.Resp.Framing.{is_clean}
use traefik_middleware_utili.Simpleredis.Conn.{
  run_on_conn, Socket, classify, do_command, io_or_context, Done, fail, is_dirty_protocol_error,
  stop_or, after_write,
}

abbrev pub rest_of : Reply → Bytes
rest_of (values vs r) = r.bytes
rest_of (refused e r) = r.bytes
rest_of (dirty e) = []

classify_reusable :
    (s : Socket) (r : Reply)
    → (classify s r).reusable ≡ true
    → (is_clean r ≡ true) × (s.read_ahead (rest_of r) ≡ false)
classify_reusable s (values vs r) h = (refl, ground arith)
classify_reusable s (refused e r) h = (refl, ground arith)
classify_reusable s (dirty e) h = cc

-- A socket is kept only at the end of a reply: nothing was left in its reader before the command,
-- the reply was read clean, no byte behind it has been read, and no context had fired.
pub run_on_conn_reusable :
    (s : Socket)
    → (run_on_conn s).reusable ≡ true
    → (s.unread_before ≡ false)
      × (is_clean (read_reply s.reply) ≡ true)
      × (s.read_ahead (rest_of (read_reply s.reply)) ≡ false)
      × (s.write_error ≡ none)
      × (s.stop_run ≡ none)
unfolding run_on_conn do_command
run_on_conn_reusable s h = ground (arith, classify_reusable s (read_reply s.reply))

-- The errors that `exec` knows: no error of a socket comes through as it is.
unfoldable pub is_classified : Error → Bool
is_classified os_deadline_exceeded = false
is_classified eof = false
is_classified unexpected_eof = false
is_classified closed_conn = false
is_classified _ = true

-- `contextStop` only ever returns an error of the context.
abbrev pub IsStop : Option Error → Type 0
IsStop none = Unit {0}
IsStop (some e) = is_context_error e ≡ true

stop-classified : (e : Error) → is_context_error e ≡ true → is_classified e ≡ true
unfolding is_context_error is_classified
stop-classified canceled h = refl
stop-classified e h = ground arith

io_or_context-classified :
    (stop : Option Error) (has_deadline : Bool) (e : Error)
    → IsStop stop
    → is_classified (io_or_context stop has_deadline e) ≡ true
unfolding io_or_context is_classified
io_or_context-classified (some stop) d e h = stop-classified stop h
io_or_context-classified none d os_deadline_exceeded h = ground arith
io_or_context-classified none d e h = ground arith

abbrev IsClassified : Done → Type 0
IsClassified d = (e : Error) → d.error ≡ some e → is_classified e ≡ true

fail-IsClassified : (e : Error) → is_classified e ≡ true → IsClassified (fail e)
fail-IsClassified e h e' q = ground (arith, h)

stop_or-IsClassified :
    (stop : Option Error) (d : Done) → IsStop stop → IsClassified d → IsClassified (stop_or stop d)
stop_or-IsClassified none d h k = k
stop_or-IsClassified (some e) d h k = fail-IsClassified e (stop-classified e h)

protocol-classified : (e : Error) → is_dirty_protocol_error e ≡ true → is_classified e ≡ true
unfolding is_dirty_protocol_error is_classified
protocol-classified issue h = refl
protocol-classified e h = ground arith

dirty-classified :
    (s : Socket) (e : Error)
    → IsStop s.stop_io
    → is_classified
        (if is_dirty_protocol_error e then e else io_or_context s.stop_io s.has_deadline e)
      ≡ true
dirty-classified s e h = elim (Bool-cases (is_dirty_protocol_error e)) [
  | inl framing ↦ rw framing (protocol-classified e framing)
  | inr io ↦ rw io (io_or_context-classified s.stop_io s.has_deadline e h)
]

-- The error of a clean reply is the peer's text or the AUTH sentinel.
abbrev IsAnswer : Reply → Type 0
IsAnswer (refused e r) = is_classified e ≡ true
IsAnswer (values vs r) = Unit
IsAnswer (dirty e) = Unit

reply_error-classified : (text : Bytes) → is_classified (reply_error text) ≡ true
unfolding reply_error is_classified
reply_error-classified text = ground arith

push_value-IsAnswer : (v : Option Bytes) (a : Reply) → IsAnswer a → IsAnswer (push_value v a)
push_value-IsAnswer v (values vs r) h = tt
push_value-IsAnswer v (refused e r) h = h
push_value-IsAnswer v (dirty e) h = tt

after_bulk-IsAnswer :
    (b : Bulk) (k : Reader → Reply) → ((r : Reader) → IsAnswer (k r)) → IsAnswer (after_bulk b k)
after_bulk-IsAnswer (broken e) k h = tt
after_bulk-IsAnswer (bulk v r) k h = push_value-IsAnswer v (k r) (h r)

after_line-IsAnswer :
    (l : Read Bytes) (k : Bytes → Reader → Reply)
    → ((s : Bytes) (r : Reader) → IsAnswer (k s r))
    → IsAnswer (after_line l k)
after_line-IsAnswer (failed e) k h = tt
after_line-IsAnswer (got s r) k h = h s r

element-IsAnswer :
    (head : Bytes) (r : Reader) (k : Reader → Reply)
    → ((s : Reader) → IsAnswer (k s))
    → IsAnswer (element head r k)
element-IsAnswer [] r k h = tt
element-IsAnswer (t ∷ rest) r k h = elim (Bool-cases (t == b'$')) [
  | inl dollar ↦ rw dollar (after_bulk-IsAnswer _ k h)
  | inr differs ↦ rw differs (elim (Bool-cases (t == b':' || t == b'+')) [
    | inl simple ↦ rw simple (push_value-IsAnswer _ (k r) (h r))
    | inr unknown ↦ rw unknown tt
  ])
]

read_elements-IsAnswer : (n : ℕ) (r : Reader) → IsAnswer (read_elements n r)
unfolding read_elements
read_elements-IsAnswer zero r = tt
read_elements-IsAnswer (suc n) r =
    after_line-IsAnswer (read_line r) _ (λ s t. element-IsAnswer s t _ (read_elements-IsAnswer n))

read_array-IsAnswer : (r : Reader) (o : Option ℤ) → IsAnswer (read_array r o)
read_array-IsAnswer r none = tt
read_array-IsAnswer r (some (negsuc k)) = tt
read_array-IsAnswer r (some (pos n)) = elim (Bool-cases (ltb max_array_count n)) [
  | inl over ↦ rw over tt
  | inr fits ↦ rw fits (read_elements-IsAnswer n r)
]

single-IsAnswer : (b : Bulk) → IsAnswer (single b)
single-IsAnswer (broken e) = tt
single-IsAnswer (bulk v r) = tt

reply_of-IsAnswer : (l : Bytes) (r : Reader) → IsAnswer (reply_of l r)
unfolding reply_of
reply_of-IsAnswer [] r = tt
reply_of-IsAnswer (t ∷ rest) r = ground (
  arith,
  reply_error-classified rest,
  single-IsAnswer (read_bulk r (t ∷ rest)),
  read_array-IsAnswer r (parse_len rest),
)

read_reply-IsAnswer : (r : Reader) → IsAnswer (read_reply r)
unfolding read_reply
read_reply-IsAnswer r = after_line-IsAnswer (read_line r) _ reply_of-IsAnswer

classify-IsClassified :
    (s : Socket) (r : Reply) → IsStop s.stop_io → IsAnswer r → IsClassified (classify s r)
classify-IsClassified s (values vs r) h a e q = cc
classify-IsClassified s (refused e r) h a e' q = ground arith
classify-IsClassified s (dirty e) h a e' q = fail-IsClassified _ (dirty-classified s e h) e' q

-- Every stop of a command is an error of its context.
pub record IsTimed (s : Socket) : Type 0 where
  pub at_start : IsStop s.stop_start
  pub at_budget : IsStop s.stop_budget
  pub at_read : IsStop s.stop_read
  pub at_io : IsStop s.stop_io
  pub at_run : IsStop s.stop_run

after_write-IsClassified :
    (s : Socket) (w : Option Error) → IsTimed s → IsClassified (after_write s w)
after_write-IsClassified s (some e) t =
    fail-IsClassified _ (io_or_context-classified s.stop_io s.has_deadline e t.at_io)
after_write-IsClassified s none t =
    stop_or-IsClassified s.stop_read _ t.at_read
      (classify-IsClassified s (read_reply s.reply) t.at_io (read_reply-IsAnswer s.reply))

do_command-IsClassified : (s : Socket) → IsTimed s → IsClassified (do_command s)
unfolding do_command
do_command-IsClassified s t = stop_or-IsClassified s.stop_start _ t.at_start (
    if_cases IsClassified (not (ltb_ℤ (pos 0) s.budget_left)) _ _
      (λ _.
        stop_or-IsClassified s.stop_budget _ t.at_budget
          (fail-IsClassified timeout (unfold is_classified in refl)))
      (λ _.
        if_cases IsClassified (not s.deadline_set) _ _
          (λ _. fail-IsClassified unreachable (unfold is_classified in refl))
          (λ _.
            if_cases IsClassified s.unread_before _ _
              (λ _. fail-IsClassified unreachable (unfold is_classified in refl))
              (λ _. after_write-IsClassified s s.write_error t))))

-- Whatever the socket does, where the context stops with its own errors, the error of a command is one
-- that `exec` classifies: an I/O error comes out as unreachable, as the timeout or as the context's own.
pub run_on_conn_classified :
    (s : Socket) (e : Error) → IsTimed s → (run_on_conn s).error ≡ some e → is_classified e ≡ true
unfolding run_on_conn
run_on_conn_classified s e t q =
    stop_or-IsClassified s.stop_run _ t.at_run (do_command-IsClassified s t) e q
