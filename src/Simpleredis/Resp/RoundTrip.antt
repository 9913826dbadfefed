-- ===== src/Simpleredis/Resp/RoundTrip.antt =====
-- `writeCommand` against `readReply`: what one client writes, the decoder reads back.
use traefik_middleware_utili.Simpleredis.Resp.Framing.{is_clean, extend_reply, read_reply-extend}
use traefik_middleware_utili.Simpleredis.Resp.ParseLen.Laws.{parse_len-itoa}
use traefik_middleware_utili.Prelude.Int.{pos}
use traefik_middleware_utili.Prelude.{
  ℕ, Bytes, List, [], arith, drop-append, length, map, refl, some, suc, zero, ◌++◌, ◌+◌, ◌-◌, ◌<◌,
  ◌^◌, ◌∷◌, ◌≡◌, ◌≢◌, ◌≤◌, append_assoc, get_elem?-append, length-append, le→ltb, take-append,
  false, Bool-cases, ap, append-nil, inl, inr, sym, true, ◌∙◌,
}
use traefik_middleware_utili.Prelude.Decimal.{itoa}
use traefik_middleware_utili.Prelude.Decimal.Laws.{IsDigits, itoa-IsDigits, length-itoa-le}
use traefik_middleware_utili.Simpleredis.Errors.{Error}
use traefik_middleware_utili.Simpleredis.Resp.{
  read_reply, Reader, bulk, crlf, got, header, line, max_array_count, max_bulk_length, read_bulk,
  read_elements, read_full, read_line, read_slice, strip_line, values, write_args, write_command,
  check_trailer, read_payload, after_line, element, read_array, reply_of, Reply, dirty, refused,
}

abbrev at_end : Error → Bytes → Reader
at_end e s = record { bytes = s; ending = e }

-- A line of digits is found whole, if the buffer has room for it and its newline.
read_slice-digits :
    (room : ℕ) (d rest : Bytes)
    → IsDigits d
    → length d + 2 ≤ room
    → read_slice room (d ++ (crlf ++ rest)) ≡ line (d ++ crlf) rest
unfolding read_slice
read_slice-digits zero d rest h p = absurd (omega arith)
read_slice-digits (suc zero) d rest h p = absurd (omega arith)
read_slice-digits (suc (suc room)) [] rest h p = refl
read_slice-digits (suc (suc room)) (c ∷ cs) rest h p =
    ground (arith, read_slice-digits (suc room) cs rest h.1 (omega arith))

strip_line-crlf : (l : Bytes) → strip_line (l ++ crlf) ≡ some l
unfolding strip_line
strip_line-crlf l = ground (
  arith,
  length-append l crlf,
  get_elem?-append l crlf (length (l ++ crlf) - 2) 0,
  take-append l crlf (length (l ++ crlf) - 2),
)

read_slice-header :
    (room t : ℕ) (d rest : Bytes)
    → t ≢ b'\n'
    → IsDigits d
    → length d + 2 ≤ room
    → read_slice (suc room) (t ∷ (d ++ crlf) ++ rest) ≡ line (t ∷ d ++ crlf) rest
unfolding read_slice
read_slice-header room t d rest ne h p =
    rw (append_assoc d crlf rest, read_slice-digits room d rest h p) (ground arith)

-- The header of an array or of a bulk string is one line.
read_line-header :
    (e : Error) (t n : ℕ) (rest : Bytes)
    → t ≢ b'\n'
    → n < 10 ^ 19
    → read_line (at_end e (header t n ++ rest)) ≡ got (t ∷ itoa n) (at_end e rest)
unfolding read_line
read_line-header e t n rest h p = rw (
  read_slice-header 4095 t (itoa n) rest h (itoa-IsDigits n) (omega (arith, length-itoa-le 19 n p)),
  strip_line-crlf (t ∷ itoa n),
)

read_full-append :
    (e : Error) (n : ℕ) (d rest : Bytes)
    → n ≡ length d
    → read_full n (at_end e (d ++ rest)) ≡ got d (at_end e rest)
unfolding read_full
read_full-append e n d rest h =
    ground (arith, length-append d rest, take-append d rest n h, drop-append d rest n h)

check_trailer-crlf :
    (a : Bytes) (r : Reader) → check_trailer (length a) (got (a ++ crlf) r) ≡ bulk (some a) r
check_trailer-crlf a r = ground (
  arith,
  get_elem?-append a crlf (length a) 0,
  get_elem?-append a crlf (length a + 1) 1,
  take-append a crlf (length a),
)

read_payload-append :
    (e : Error) (a rest : Bytes)
    → length a ≤ max_bulk_length
    → read_payload (at_end e ((a ++ crlf) ++ rest)) (some (pos (length a)))
      ≡ bulk (some a) (at_end e rest)
read_payload-append e a rest h = rw (
  le→ltb max_bulk_length (length a) h,
  read_full-append e (length a + 2) (a ++ crlf) rest (omega (arith, length-append a crlf)),
  check_trailer-crlf a (at_end e rest),
)

-- A bulk string in range is read back, whatever bytes it holds.
read_bulk-payload :
    (e : Error) (a rest : Bytes)
    → length a ≤ max_bulk_length
    → read_bulk (at_end e ((a ++ crlf) ++ rest)) (b'$' ∷ itoa (length a))
      ≡ bulk (some a) (at_end e rest)
unfolding read_bulk
read_bulk-payload e a rest h =
    rw (parse_len-itoa (length a) (omega arith)) (read_payload-append e a rest h)

-- Every argument fits the decoder's cap.
abbrev pub Fits : List Bytes → Type 0
Fits [] = Unit {0}
Fits (a ∷ rest) = (length a ≤ max_bulk_length) × Fits rest

regroup :
    (n : ℕ) (a args rest : Bytes)
    → (header b'$' n ++ (a ++ (crlf ++ args))) ++ rest
      ≡ header b'$' n ++ ((a ++ crlf) ++ (args ++ rest))
regroup n a args rest = simp append_assoc

read_elements-suc :
    (n : ℕ) (r : Reader)
    → read_elements (suc n) r
      ≡ after_line (read_line r) (λ head s. element head s (read_elements n))
unfolding read_elements
read_elements-suc n r = refl

read_elements-write_args :
    (e : Error) (args : List Bytes) (rest : Bytes)
    → Fits args
    → read_elements (length args) (at_end e (write_args args ++ rest))
      ≡ values (map some args) (at_end e rest)
unfolding write_args
read_elements-write_args e [] rest h = unfold read_elements in refl
read_elements-write_args e (a ∷ args) rest h =
    let tail : Bytes = write_args args ++ rest in
    rw (
      regroup (length a) a (write_args args) rest,
      read_elements-suc,
      read_line-header e b'$' (length a) ((a ++ crlf) ++ tail) (λ q. cc) (omega arith),
      read_bulk-payload e a tail h.0,
      read_elements-write_args e args rest h.1,
    )

read_array-write_args :
    (e : Error) (args : List Bytes) (rest : Bytes)
    → length args ≤ max_array_count
    → Fits args
    → read_array (at_end e (write_args args ++ rest)) (some (pos (length args)))
      ≡ values (map some args) (at_end e rest)
read_array-write_args e args rest c h =
    rw (le→ltb max_array_count (length args) c) (read_elements-write_args e args rest h)

-- A command of at most 2^20 arguments, each of at most 64 MiB, is decoded to its own arguments, and
-- the decoder stops where the command ends.
pub read_reply-write_command :
    (e : Error) (args : List Bytes) (rest : Bytes)
    → length args ≤ max_array_count
    → Fits args
    → read_reply (at_end e (write_command args ++ rest)) ≡ values (map some args) (at_end e rest)
unfolding write_command read_reply reply_of
read_reply-write_command e args rest c h =
    rw
      (
        append_assoc (header b'*' (length args)) (write_args args) rest,
        read_line-header e b'*' (length args) (write_args args ++ rest) (λ q. cc) (omega arith),
        parse_len-itoa (length args) (omega arith),
      )
      (read_array-write_args e args rest c h)

remaining : Reply → Bytes
remaining (values vs r) = r.bytes
remaining (refused e r) = r.bytes
remaining (dirty e) = []

remaining-extend_reply :
    (x : Bytes) (a : Reply) → is_clean a ≡ true → remaining (extend_reply x a) ≡ remaining a ++ x
unfolding remaining
remaining-extend_reply x (values vs r) c = refl
remaining-extend_reply x (refused e r) c = refl
remaining-extend_reply x (dirty e) c = cc

nil_of_append-nil : (xs ys : Bytes) → xs ++ ys ≡ [] → ys ≡ []
nil_of_append-nil [] ys h = h
nil_of_append-nil (x ∷ xs) ys h = cc

-- A command cut short is never taken for a whole one: with the end of the stream anywhere inside it
-- no reply is read clean.
pub read_reply-truncated :
    (e : Error) (args : List Bytes) (sent lost : Bytes)
    → length args ≤ max_array_count
    → Fits args
    → sent ++ lost ≡ write_command args
    → lost ≢ []
    → is_clean (read_reply (at_end e sent)) ≡ false
unfolding remaining
read_reply-truncated e args sent lost c h cut ne = elim (Bool-cases (is_clean reply)) [
  | inr unusable ↦ unusable
  | inl clean ↦ absurd (ne (nil_of_append-nil (remaining reply) lost (left_over clean)))
]
  where
    reply : Reply
    reply = read_reply (at_end e sent)

    whole : read_reply (at_end e (sent ++ lost)) ≡ values (map some args) (at_end e [])
    whole = rw (cut, ← append-nil (write_command args)) (read_reply-write_command e args [] c h)

    left_over : is_clean reply ≡ true → remaining reply ++ lost ≡ []
    left_over clean =
        sym (remaining-extend_reply lost reply clean)
        ∙ ap remaining (sym (read_reply-extend lost (at_end e sent) clean) ∙ whole)
