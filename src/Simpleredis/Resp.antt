-- ===== src/Simpleredis/Resp.antt =====
-- simpleredis/resp.go: the RESP encoder and decoder. Integers are Go's 64-bit `int`; the decoder's
-- guards keep every length below 2^63, so plain numbers stand for them.
pub mod ParseLen
pub mod Framing
pub mod RoundTrip
use traefik_middleware_utili.Prelude.{
  ℕ, zero, suc, ◌+◌, ◌-◌, ◌*◌, ◌^◌, Bool, false, ◌&&◌, ◌||◌, List, [], ◌∷◌, ◌++◌, Option, none,
  some, ltb, ◌==◌, if◌then◌else◌, length, get_elem?, take, drop, Bytes, codes, has_prefix,
}
use traefik_middleware_utili.Prelude.Decimal.{itoa}
use traefik_middleware_utili.Prelude.Int.{ℤ, pos, negsuc}
use traefik_middleware_utili.Simpleredis.Errors.{
  Error, issue, no_auth, unsupported_reply, eof, unexpected_eof, other,
}
use ParseLen.{parse_len}

-- The bytes that the peer sends before the stream ends, and the error that ends it.
pub record Reader : Type 0 where
  pub bytes : Bytes
  pub ending : Error

-- A read that hands on the rest of the stream, or fails.
pub data Read {ℓ} (A : Type ℓ) : Type ℓ where
  got : A → Reader → Read A
  failed : Error → Read A

-- `bufio.NewReader`'s buffer.
abbrev pub buffer_size : ℕ
buffer_size = 4096

abbrev pub max_bulk_length : ℕ
max_bulk_length = 64 * 2 ^ 20

abbrev pub max_array_count : ℕ
max_array_count = 2 ^ 20

-- `ReadSlice('\n')`: a line with its newline, a full buffer without one, or the end of the stream.
pub data Slice : Type 0 where
  line : Bytes → Bytes → Slice
  full ended : Slice

abbrev pub cons_line : ℕ → Slice → Slice
cons_line c (line l rest) = line (c ∷ l) rest
cons_line c full = full
cons_line c ended = ended

-- `room` is what the buffer still holds.
unfoldable pub read_slice : ℕ → Bytes → Slice
read_slice zero s = full
read_slice (suc room) [] = ended
read_slice (suc room) (c ∷ s) =
    let rest = cons_line c (read_slice room s) in if c == b'\n' then line (c ∷ []) s else rest

-- The line without its CRLF.
unfoldable pub strip_line : Bytes → Option Bytes
strip_line l = if ltb (length l) 2 then none else elim (get_elem? l (length l - 2)) [
  | none ↦ none
  | some c ↦ if c == b'\r' then some (take (length l - 2) l) else none
]

abbrev pub finish_line : Error → Bytes → Option Bytes → Read Bytes
finish_line e rest none = failed issue
finish_line e rest (some l) = got l (record { bytes = rest; ending = e })

abbrev pub line_of : Error → Slice → Read Bytes
line_of e full = failed issue
line_of e ended = failed e
line_of e (line l rest) = finish_line e rest (strip_line l)

unfoldable pub read_line : Reader → Read Bytes
unfolding read_slice strip_line
read_line r = line_of r.ending (read_slice buffer_size r.bytes)

-- `io.ReadFull`: an EOF after some bytes is an unexpected one.
abbrev pub short : Error → Bytes → Error
short e [] = e
short eof (c ∷ s) = unexpected_eof
short e (c ∷ s) = e

unfoldable pub read_full : ℕ → Reader → Read Bytes
read_full n r =
    if ltb (length r.bytes) n
    then failed (short r.ending r.bytes)
    else got (take n r.bytes) (record { bytes = drop n r.bytes; ending = r.ending })

-- A `$` payload: `none` is the miss that a negative length announces.
pub data Bulk : Type 0 where
  bulk : Option Bytes → Reader → Bulk
  broken : Error → Bulk

abbrev pub same_byte : ℕ → Option ℕ → Bool
same_byte c none = false
same_byte c (some d) = d == c

-- The payload and its trailer, of `n + 2` bytes.
abbrev pub check_trailer : ℕ → Read Bytes → Bulk
check_trailer n (failed e) = broken e
check_trailer n (got d r) =
    if same_byte b'\r' (get_elem? d n) && same_byte b'\n' (get_elem? d (n + 1))
    then bulk (some (take n d)) r
    else broken issue

abbrev pub read_payload : Reader → Option ℤ → Bulk
read_payload r none = broken issue
read_payload r (some (negsuc k)) = bulk none r
read_payload r (some (pos n)) =
    if ltb max_bulk_length n then broken issue else check_trailer n (read_full (n + 2) r)

-- `head` is the line that announces the payload.
unfoldable pub read_bulk : Reader → Bytes → Bulk
unfolding read_full parse_len
read_bulk r [] = broken issue
read_bulk r (t ∷ digits) = if t == b'$' then read_payload r (parse_len digits) else broken issue

-- `append([]byte(nil), line...)`: no byte copied leaves the slice nil.
abbrev pub copy_bytes : Bytes → Option Bytes
copy_bytes [] = none
copy_bytes (c ∷ s) = some (c ∷ s)

-- `NOAUTH` and the like are one sentinel; any other text is the error itself.
unfoldable pub reply_error : Bytes → Error
reply_error text =
    if has_prefix (codes "NOAUTH") text
      || has_prefix (codes "WRONGPASS") text
      || has_prefix (codes "NOPERM") text
      || has_prefix (codes "ERR Client sent AUTH") text
    then no_auth
    else other text

-- What `readReply` returns: values or the peer's error on a clean stream, or a stream that is no
-- longer usable. `none` among the values is a nil slice.
pub data Reply : Type 0 where
  values : List (Option Bytes) → Reader → Reply
  refused : Error → Reader → Reply
  dirty : Error → Reply

abbrev pub push_value : Option Bytes → Reply → Reply
push_value v (values vs r) = values (v ∷ vs) r
push_value v (refused e r) = refused e r
push_value v (dirty e) = dirty e

abbrev pub after_bulk : Bulk → (Reader → Reply) → Reply
after_bulk (broken e) k = dirty e
after_bulk (bulk v r) k = push_value v (k r)

-- One element of an array, by the line that announces it; `k` reads the others.
abbrev pub element : Bytes → Reader → (Reader → Reply) → Reply
element [] r k = dirty issue
element (t ∷ rest) r k =
    if t == b'$'
    then after_bulk (read_bulk r (t ∷ rest)) k
    else if t == b':' || t == b'+'
    then push_value (copy_bytes rest) (k r)
    else dirty unsupported_reply

abbrev pub after_line : Read Bytes → (Bytes → Reader → Reply) → Reply
after_line (failed e) k = dirty e
after_line (got l r) k = k l r

unfoldable pub read_elements : ℕ → Reader → Reply
read_elements zero r = values [] r
read_elements (suc n) r = after_line (read_line r) (λ head s. element head s (read_elements n))

abbrev pub read_array : Reader → Option ℤ → Reply
read_array r none = dirty issue
read_array r (some (negsuc k)) = dirty issue
read_array r (some (pos n)) = if ltb max_array_count n then dirty issue else read_elements n r

abbrev pub single : Bulk → Reply
single (broken e) = dirty e
single (bulk v r) = values (v ∷ []) r

-- The switch on the type byte.
unfoldable pub reply_of : Bytes → Reader → Reply
reply_of [] r = dirty issue
reply_of (t ∷ rest) r =
    if t == b'+' || t == b':'
    then values (copy_bytes rest ∷ []) r
    else if t == b'-'
    then refused (reply_error rest) r
    else if t == b'$'
    then single (read_bulk r (t ∷ rest))
    else if t == b'*'
    then read_array r (parse_len rest)
    else dirty unsupported_reply

unfoldable pub read_reply : Reader → Reply
read_reply r = after_line (read_line r) reply_of

-- `writeCommand`: an array of bulk strings.
abbrev pub crlf : Bytes
crlf = b'\r' ∷ b'\n' ∷ []

abbrev pub header : ℕ → ℕ → Bytes
header t n = t ∷ itoa n ++ crlf

unfoldable pub write_args : List Bytes → Bytes
write_args [] = []
write_args (a ∷ as') = header b'$' (length a) ++ (a ++ (crlf ++ write_args as'))

unfoldable pub write_command : List Bytes → Bytes
write_command args = header b'*' (length args) ++ write_args args
