-- ===== src/Reclaim/Values.antt =====
-- reclaim/alias.go: the values that a watcher is told, `isNilValue` and `sameValue`.
use traefik_middleware_utili.Prelude.{
  ℕ, Bool, Bytes, List, false, if◌then◌else◌, same_text, true, ◌&&◌, ◌==◌, ◌||◌, ◌∷◌, [],
}

-- Go's `any`: nothing, a pointer with its type and its address, where the address 0 is nil, or
-- another value with its type and what `==` compares. A type and an address are numbers. Values of a
-- type that Go cannot compare, on which `==` panics, are left out.
pub data Any : Type 0 where
  nil : Any
  pointer : ℕ → ℕ → Any
  plain : ℕ → Bytes → Any

unfoldable pub is_nil_value : Any → Bool
is_nil_value nil = true
is_nil_value (pointer t a) = a == 0
is_nil_value (plain t b) = false

-- `sameValue` on two values that are not nil.
unfoldable pub same_shown : Any → Any → Bool
same_shown nil nil = true
same_shown nil (pointer u b) = false
same_shown nil (plain u b) = false
same_shown (pointer t a) nil = false
same_shown (pointer t a) (pointer u b) = a == b
same_shown (pointer t a) (plain u b) = false
same_shown (plain t a) nil = false
same_shown (plain t a) (pointer u b) = false
same_shown (plain t a) (plain u b) = t == u && same_text a b

unfoldable pub same_value : Any → Any → Bool
same_value left right =
    if is_nil_value left && is_nil_value right
    then true
    else if is_nil_value left || is_nil_value right
    then false
    else same_shown left right

-- A function with one value changed.
unfoldable pub put_at {ℓ} : {A : Type ℓ} → ℕ → A → (ℕ → A) → ℕ → A
put_at i a f j = if i == j then a else f j

unfoldable pub member : ℕ → List ℕ → Bool
member e [] = false
member e (k ∷ ks) = e == k || member e ks

-- Without an element, wherever it stands.
unfoldable pub all_but : ℕ → List ℕ → List ℕ
all_but e [] = []
all_but e (k ∷ ks) = if e == k then all_but e ks else k ∷ all_but e ks
