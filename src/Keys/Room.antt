-- ===== src/Keys/Room.antt =====
-- What `load` leaves: a property of every entry, and the cap.
use traefik_middleware_utili.Prelude.{
  ℕ, Bool-cases, Bytes, List, Option, [], arith, inl, inr, length, leb, ltb, none, refl, some, ◌+◌,
  ◌∷◌, ◌≡◌, ◌≤◌, ap, lt→ltb, ◌<◌, ◌∙◌,
}
use traefik_middleware_utili.Keys.{
  find, store, erase, load, loaded, live, max_memory_sources, with_room, without_expired,
  without_one,
}
use traefik_middleware_utili.Keys.Laws.{
  All, All-drop_at, All-erase, All-store, find-store, length-drop_at, length-erase_le,
  length-store_found, length-store_le,
}

-- The entry is in the map.
pub record IsLoaded {A : Type 0} (P : A → Type 0) (key : Bytes) (p : List (Bytes × A) × A)
    : Type 0 where
  pub there : find key p.0 ≡ some p.1
  pub entries : All P p.0
  pub capped : length p.0 ≤ max_memory_sources

module _ {A : Type 0} (expire : A → ℕ) (P : A → Type 0) where
  without_expired-All :
      (now : ℕ) (m : List (Bytes × A))
      → All P m
      → All P (without_expired expire now m) × (length (without_expired expire now m) ≤ length m)
  unfolding without_expired
  without_expired-All now [] h = (tt, omega arith)
  without_expired-All now ((k, e) ∷ m) h =
      let rest = without_expired-All now m h.1 in
      elim (Bool-cases (ltb now (expire e))) [
        | inl q ↦ rw q ((h.0, rest.0), omega (arith, rest.1))
        | inr q ↦ rw q (rest.0, omega (arith, rest.1))
      ]

  -- After `with_room` one more key fits.
  with_room-All :
      (pick now : ℕ) (m : List (Bytes × A))
      → All P m
      → length m ≤ max_memory_sources
      → All P (with_room expire pick now m)
        × (length (with_room expire pick now m) + 1 ≤ max_memory_sources)
  unfolding without_one
  with_room-All pick now m h le =
      let kept = without_expired-All now m h in
      let live = without_expired expire now m in
      elim (Bool-cases (leb max_memory_sources (length m))) [
        | inr q ↦ rw q (h, ground arith)
        | inl q ↦ rw q (elim (Bool-cases (ltb (length live) max_memory_sources)) [
          | inl r ↦ rw r (kept.0, ground arith)
          | inr r ↦
              rw r (All-drop_at P pick live kept.0, omega (arith, kept.1, length-drop_at pick live))
        ])
      ]

  fresh-IsLoaded :
      (fresh : A) (pick now : ℕ) (key : Bytes) (m : List (Bytes × A))
      → P fresh
      → All P m
      → length m ≤ max_memory_sources
      → IsLoaded P key (loaded expire fresh pick now key m none)
  fresh-IsLoaded fresh pick now key m f h le =
      let left = erase key m in
      let kept = without_expired-All now left (All-erase P key m h) in
      let lived = without_expired expire now left in
      let room =
        with_room-All pick now lived kept.0 (omega (arith, kept.1, le, length-erase_le key m)) in
      let roomy = with_room expire pick now lived in
      record {
        there = find-store key fresh roomy;
        entries = All-store P key fresh roomy f room.0;
        capped = omega (arith, room.1, length-store_le key fresh roomy);
      }

  pub load-IsLoaded :
      (fresh : A) (pick now : ℕ) (key : Bytes) (m : List (Bytes × A))
      → P fresh
      → All P m
      → length m ≤ max_memory_sources
      → IsLoaded P key (load expire fresh pick now key m)
  unfolding load
  load-IsLoaded fresh pick now key m f h le = go (find key m) refl
    where
      go :
          (o : Option A)
          → find key m ≡ o
          → IsLoaded P key (loaded expire fresh pick now key m (live expire now o))
      go none q = fresh-IsLoaded fresh pick now key m f h le
      go (some e) q = elim (Bool-cases (ltb now (expire e))) [
        | inl r ↦ rw r (record { there = q; entries = h; capped = le })
        | inr r ↦ rw r (fresh-IsLoaded fresh pick now key m f h le)
      ]

-- An entry that replaces that of a stored key.
pub length-store_capped :
    {A : Type 0} (key : Bytes) (a b : A) (m : List (Bytes × A))
    → find key m ≡ some b
    → length m ≤ max_memory_sources
    → length (store key a m) ≤ max_memory_sources
length-store_capped key a b m q le = omega (arith, le, length-store_found key a b m q)

-- A live entry is taken as it is.
pub load_live :
    {A : Type 0} (expire : A → ℕ) (fresh e : A) (pick now : ℕ) (key : Bytes) (m : List (Bytes × A))
    → find key m ≡ some e
    → now < expire e
    → load expire fresh pick now key m ≡ (m, e)
unfolding load
load_live expire fresh e pick now key m q l =
    ap (λ o. loaded expire fresh pick now key m (live expire now o)) q
    ∙ rw (lt→ltb now (expire e) l) refl
