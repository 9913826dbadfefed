-- ===== src/Simpleredis/Resp/Framing.antt =====
-- The decoder stops at the end of a reply: bytes that follow it change nothing and stay unread.
use traefik_middleware_utili.Prelude.{
  ℕ, zero, suc, Bool, true, false, [], ◌∷◌, ◌++◌, inl, inr, ◌≡◌, refl, arith, ltb, ◌==◌, Bool-cases,
  Option-cases, length, length-append, Bytes, take-append_left, drop-append_left, Option, none,
  some, ◌+◌, ◌||◌,
}
use traefik_middleware_utili.Prelude.Int.{ℤ, negsuc, pos}
use traefik_middleware_utili.Simpleredis.Errors.{Error}
use traefik_middleware_utili.Simpleredis.Resp.ParseLen.{parse_len}
use traefik_middleware_utili.Simpleredis.Resp.{
  Reader, got, line, Reply, values, refused, dirty, read_slice, read_line, read_full, Bulk, Read,
  Slice, broken, buffer_size, bulk, check_trailer, cons_line, ended, failed, full, line_of,
  read_bulk, strip_line, after_bulk, after_line, copy_bytes, element, max_array_count,
  max_bulk_length, push_value, read_array, read_elements, read_payload, read_reply, reply_of,
  single,
}

-- The peer sends `x` after the rest.
abbrev pub extend : Bytes → Reader → Reader
extend x r = record r { bytes = r.bytes ++ x }

abbrev pub extend_reply : Bytes → Reply → Reply
extend_reply x (values vs r) = values vs (extend x r)
extend_reply x (refused e r) = refused e (extend x r)
extend_reply x (dirty e) = dirty e

-- The `clean` result of `readReply`.
abbrev pub is_clean : Reply → Bool
is_clean (values vs r) = true
is_clean (refused e r) = true
is_clean (dirty e) = false

-- A line that was found is found again, with `x` behind the rest.
abbrev SliceExtends : Bytes → Slice → Slice → Type 0
SliceExtends x (line l rest) t = t ≡ line l (rest ++ x)
SliceExtends x full t = Unit
SliceExtends x ended t = Unit

cons_line-extends :
    (c : ℕ) (x : Bytes) (a b : Slice)
    → SliceExtends x a b
    → SliceExtends x (cons_line c a) (cons_line c b)
cons_line-extends c x (line l rest) b h = rw h
cons_line-extends c x full b h = tt
cons_line-extends c x ended b h = tt

read_slice-extends :
    (room : ℕ) (s x : Bytes) → SliceExtends x (read_slice room s) (read_slice room (s ++ x))
unfolding read_slice
read_slice-extends zero s x = tt
read_slice-extends (suc room) [] x = tt
read_slice-extends (suc room) (c ∷ s) x = elim (Bool-cases (c == b'\n')) [
  | inl newline ↦ rw newline refl
  | inr differs ↦ rw differs (cons_line-extends c x _ _ (read_slice-extends room s x))
]

-- A read that succeeds does so again, and leaves `x` behind what it left.
abbrev ReadExtends : Bytes → Read Bytes → Read Bytes → Type 0
ReadExtends x (got l r) t = t ≡ got l (extend x r)
ReadExtends x (failed e) t = Unit

line_of-extends :
    (x : Bytes) (e : Error) (a b : Slice)
    → SliceExtends x a b
    → ReadExtends x (line_of e a) (line_of e b)
line_of-extends x e (line l rest) b h = elim (Option-cases (strip_line l)) [
  | inl bare ↦ rw (h, bare) tt
  | inr (body, found) ↦ rw (h, found) refl
]
line_of-extends x e full b h = tt
line_of-extends x e ended b h = tt

read_line-extends : (x : Bytes) (r : Reader) → ReadExtends x (read_line r) (read_line (extend x r))
unfolding read_line
read_line-extends x r = line_of-extends x r.ending _ _ (read_slice-extends buffer_size r.bytes x)

read_full-extends :
    (x : Bytes) (n : ℕ) (r : Reader) → ReadExtends x (read_full n r) (read_full n (extend x r))
unfolding read_full
read_full-extends x n r = elim (Bool-cases (ltb (length r.bytes) n)) [
  | inl few ↦ rw few tt
  | inr enough ↦
      ground
        (arith, length-append r.bytes x, take-append_left n r.bytes x, drop-append_left n r.bytes x)
]

abbrev BulkExtends : Bytes → Bulk → Bulk → Type 0
BulkExtends x (bulk v r) t = t ≡ bulk v (extend x r)
BulkExtends x (broken e) t = Unit

check_trailer-extends :
    (x : Bytes) (n : ℕ) (a b : Read Bytes)
    → ReadExtends x a b
    → BulkExtends x (check_trailer n a) (check_trailer n b)
check_trailer-extends x n (failed e) b h = tt
check_trailer-extends x n (got d r) b h = rw h (ground arith)

read_payload-extends :
    (x : Bytes) (r : Reader) (o : Option ℤ)
    → BulkExtends x (read_payload r o) (read_payload (extend x r) o)
read_payload-extends x r none = tt
read_payload-extends x r (some (negsuc k)) = refl
read_payload-extends x r (some (pos n)) = elim (Bool-cases (ltb max_bulk_length n)) [
  | inl over ↦ rw over tt
  | inr fits ↦ rw fits (check_trailer-extends x n _ _ (read_full-extends x (n + 2) r))
]

read_bulk-extends :
    (x : Bytes) (r : Reader) (head : Bytes)
    → BulkExtends x (read_bulk r head) (read_bulk (extend x r) head)
unfolding read_bulk
read_bulk-extends x r [] = tt
read_bulk-extends x r (t ∷ digits) = elim (Bool-cases (t == b'$')) [
  | inl dollar ↦ rw dollar (read_payload-extends x r (parse_len digits))
  | inr differs ↦ rw differs tt
]

-- Nothing is said of a reply that left the stream unusable.
abbrev ReplyExtends : Bytes → Reply → Reply → Type 0
ReplyExtends x (values vs r) t = t ≡ values vs (extend x r)
ReplyExtends x (refused e r) t = t ≡ refused e (extend x r)
ReplyExtends x (dirty e) t = Unit

push_value-extends :
    (x : Bytes) (v : Option Bytes) (a b : Reply)
    → ReplyExtends x a b
    → ReplyExtends x (push_value v a) (push_value v b)
push_value-extends x v (values vs r) b h = rw h refl
push_value-extends x v (refused e r) b h = rw h refl
push_value-extends x v (dirty e) b h = tt

after_bulk-extends :
    (x : Bytes) (a b : Bulk) (k : Reader → Reply)
    → BulkExtends x a b
    → ((r : Reader) → ReplyExtends x (k r) (k (extend x r)))
    → ReplyExtends x (after_bulk a k) (after_bulk b k)
after_bulk-extends x (broken e) b k h next = tt
after_bulk-extends x (bulk v r) b k h next = rw h (push_value-extends x v _ _ (next r))

after_line-extends :
    (x : Bytes) (a b : Read Bytes) (k : Bytes → Reader → Reply)
    → ReadExtends x a b
    → ((l : Bytes) (r : Reader) → ReplyExtends x (k l r) (k l (extend x r)))
    → ReplyExtends x (after_line a k) (after_line b k)
after_line-extends x (failed e) b k h next = tt
after_line-extends x (got l r) b k h next = rw h (next l r)

element-extends :
    (x : Bytes) (head : Bytes) (r : Reader) (k : Reader → Reply)
    → ((s : Reader) → ReplyExtends x (k s) (k (extend x s)))
    → ReplyExtends x (element head r k) (element head (extend x r) k)
element-extends x [] r k next = tt
element-extends x (t ∷ rest) r k next = elim (Bool-cases (t == b'$')) [
  | inl dollar ↦ rw dollar (after_bulk-extends x _ _ k (read_bulk-extends x r (t ∷ rest)) next)
  | inr differs ↦ rw differs (elim (Bool-cases (t == b':' || t == b'+')) [
    | inl simple ↦ rw simple (push_value-extends x (copy_bytes rest) _ _ (next r))
    | inr unknown ↦ rw unknown tt
  ])
]

read_elements-extends :
    (x : Bytes) (n : ℕ) (r : Reader)
    → ReplyExtends x (read_elements n r) (read_elements n (extend x r))
unfolding read_elements
read_elements-extends x zero r = refl
read_elements-extends x (suc n) r =
    after_line-extends x _ _ _ (read_line-extends x r)
      λ l s. element-extends x l s (read_elements n) (read_elements-extends x n)

read_array-extends :
    (x : Bytes) (r : Reader) (o : Option ℤ)
    → ReplyExtends x (read_array r o) (read_array (extend x r) o)
read_array-extends x r none = tt
read_array-extends x r (some (negsuc k)) = tt
read_array-extends x r (some (pos n)) = elim (Bool-cases (ltb max_array_count n)) [
  | inl over ↦ rw over tt
  | inr fits ↦ rw fits (read_elements-extends x n r)
]

single-extends : (x : Bytes) (a b : Bulk) → BulkExtends x a b → ReplyExtends x (single a) (single b)
single-extends x (broken e) b h = tt
single-extends x (bulk v r) b h = rw h refl

reply_of-extends :
    (x : Bytes) (l : Bytes) (r : Reader) → ReplyExtends x (reply_of l r) (reply_of l (extend x r))
unfolding reply_of
reply_of-extends x [] r = tt
reply_of-extends x (t ∷ rest) r = elim (Bool-cases (t == b'+' || t == b':')) [
  | inl simple ↦ rw simple refl
  | inr a ↦ rw a (elim (Bool-cases (t == b'-')) [
    | inl minus ↦ rw minus refl
    | inr b ↦ rw b (elim (Bool-cases (t == b'$')) [
      | inl dollar ↦ rw dollar (single-extends x _ _ (read_bulk-extends x r (t ∷ rest)))
      | inr c ↦ rw c (elim (Bool-cases (t == b'*')) [
        | inl star ↦ rw star (read_array-extends x r (parse_len rest))
        | inr unknown ↦ rw unknown tt
      ])
    ])
  ])
]

read_reply-extends :
    (x : Bytes) (r : Reader) → ReplyExtends x (read_reply r) (read_reply (extend x r))
unfolding read_reply
read_reply-extends x r = after_line-extends x _ _ _ (read_line-extends x r) (reply_of-extends x)

clean-ReplyExtends :
    (x : Bytes) (a b : Reply) → ReplyExtends x a b → is_clean a ≡ true → b ≡ extend_reply x a
clean-ReplyExtends x (values vs r) b h c = h
clean-ReplyExtends x (refused e r) b h c = h
clean-ReplyExtends x (dirty e) b h c = cc

-- A reply that is read clean is read the same whatever bytes the peer sends behind it, and those
-- bytes stay unread.
pub read_reply-extend :
    (x : Bytes) (r : Reader)
    → is_clean (read_reply r) ≡ true
    → read_reply (extend x r) ≡ extend_reply x (read_reply r)
read_reply-extend x r c = clean-ReplyExtends x _ _ (read_reply-extends x r) c
