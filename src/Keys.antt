-- ===== src/Keys.antt =====
-- Go's map from keys to entries, as an association list with the operations that the packages use.
pub mod Laws
pub mod Room
use traefik_middleware_utili.Prelude.{
  ℕ, Bytes, List, Option, [], if◌then◌else◌, none, same_text, some, suc, zero, ◌∷◌, leb, length,
  ltb,
}

unfoldable pub find {ℓ} : {A : Type ℓ} → Bytes → List (Bytes × A) → Option A
find key [] = none
find key ((k, a) ∷ m) = if same_text key k then some a else find key m

unfoldable pub store {ℓ} : {A : Type ℓ} → Bytes → A → List (Bytes × A) → List (Bytes × A)
store key a [] = (key, a) ∷ []
store key a ((k, b) ∷ m) = if same_text key k then (k, a) ∷ m else (k, b) ∷ store key a m

unfoldable pub erase {ℓ} : {A : Type ℓ} → Bytes → List (Bytes × A) → List (Bytes × A)
erase key [] = []
erase key ((k, a) ∷ m) = if same_text key k then erase key m else (k, a) ∷ erase key m

-- Without the element at a place, or the last one.
unfoldable pub drop_at {ℓ} : {A : Type ℓ} → ℕ → List A → List A
drop_at i [] = []
drop_at i (a ∷ []) = []
drop_at zero (a ∷ b ∷ m) = b ∷ m
drop_at (suc i) (a ∷ b ∷ m) = a ∷ drop_at i (b ∷ m)

-- The entries of a map that is kept small: each has a time at which it expires, and at most
-- `max_memory_sources` are kept.
abbrev pub max_memory_sources : ℕ
max_memory_sources = 65536

module _ {A : Type 0} (expire : A → ℕ) where
  -- `dropExpired`.
  unfoldable pub without_expired : ℕ → List (Bytes × A) → List (Bytes × A)
  without_expired now [] = []
  without_expired now ((k, e) ∷ m) =
      let rest = without_expired now m in if ltb now (expire e) then (k, e) ∷ rest else rest

  -- `dropOne`: the map's own order decides which key goes, `pick` here.
  unfoldable pub without_one : ℕ → ℕ → List (Bytes × A) → List (Bytes × A)
  without_one pick now m =
      let kept = without_expired now m in
      if ltb (length kept) max_memory_sources then kept else drop_at pick kept

  abbrev pub with_room : ℕ → ℕ → List (Bytes × A) → List (Bytes × A)
  with_room pick now m = if leb max_memory_sources (length m) then without_one pick now m else m

  -- The entry that a lookup found, unless its time is over.
  abbrev pub live : ℕ → Option A → Option A
  live now none = none
  live now (some e) = if ltb now (expire e) then some e else none

  abbrev pub loaded : A → ℕ → ℕ → Bytes → List (Bytes × A) → Option A → List (Bytes × A) × A
  loaded fresh pick now key m (some e) = (m, e)
  loaded fresh pick now key m none =
      (store key fresh (with_room pick now (without_expired now (erase key m))), fresh)

  -- The map and the entry of a key, a fresh one if the key has none that is live.
  unfoldable pub load : A → ℕ → ℕ → Bytes → List (Bytes × A) → List (Bytes × A) × A
  load fresh pick now key m = loaded fresh pick now key m (live now (find key m))
