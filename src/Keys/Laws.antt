-- ===== src/Keys/Laws.antt =====
-- Lookups after an update of the map, its length, and what holds of every entry.
use traefik_middleware_utili.Prelude.{
  ℕ, Bool-cases, Bytes, List, [], ap, arith, false, inl, inr, length, refl, same_text, same_text→eq,
  some, suc, sym, true, zero, ◌+◌, ◌-◌, ◌∙◌, ◌∷◌, ◌≡◌, ◌≢◌, ◌≤◌, none, ◌⊎◌,
}
use traefik_middleware_utili.Keys.{find, store, erase, drop_at}

pub same_text_refl : (s : Bytes) → same_text s s ≡ true
unfolding same_text
same_text_refl [] = refl
same_text_refl (c ∷ cs) = ground (arith, same_text_refl cs)

pub same_text_differs : (s t : Bytes) → s ≢ t → same_text s t ≡ false
same_text_differs s t d = elim (Bool-cases (same_text s t)) [
  | inl e ↦ absurd (d (same_text→eq s t e))
  | inr e ↦ e
]

pub find-store :
    {A : Type 0} (key : Bytes) (a : A) (m : List (Bytes × A)) → find key (store key a m) ≡ some a
unfolding find store
find-store key a [] = rw (same_text_refl key) refl
find-store key a ((k, b) ∷ m) = elim (Bool-cases (same_text key k)) [
  | inl e ↦ rw (e, e) refl
  | inr e ↦ rw (e, e) (find-store key a m)
]

pub find-store_other :
    {A : Type 0} (key other_key : Bytes) (a : A) (m : List (Bytes × A))
    → other_key ≢ key
    → find other_key (store key a m) ≡ find other_key m
unfolding find store
find-store_other key other_key a [] d = rw (same_text_differs other_key key d) refl
find-store_other key other_key a ((k, b) ∷ m) d = elim (Bool-cases (same_text key k)) [
  | inl e ↦
      let differs : same_text other_key k ≡ false =
        same_text_differs other_key k (λ q. d (q ∙ sym (same_text→eq key k e))) in
      rw (e, differs) refl
  | inr e ↦ rw e (elim (Bool-cases (same_text other_key k)) [
    | inl q ↦ rw q refl
    | inr q ↦ rw q (find-store_other key other_key a m d)
  ])
]

-- A key that is there keeps its place.
pub length-store_found :
    {A : Type 0} (key : Bytes) (a b : A) (m : List (Bytes × A))
    → find key m ≡ some b
    → length (store key a m) ≡ length m
unfolding find store
length-store_found key a b [] e = cc
length-store_found key a b ((k, c) ∷ m) e = elim (Bool-cases (same_text key k)) [
  | inl q ↦ rw q refl
  | inr q ↦ rw q (ap suc (length-store_found key a b m (rw q at e)))
]

pub length-store_le :
    {A : Type 0} (key : Bytes) (a : A) (m : List (Bytes × A))
    → length (store key a m) ≤ length m + 1
unfolding store
length-store_le key a [] = omega arith
length-store_le key a ((k, c) ∷ m) = elim (Bool-cases (same_text key k)) [
  | inl q ↦ rw q (omega arith)
  | inr q ↦ rw q (omega (arith, length-store_le key a m))
]

pub length-erase_le :
    {A : Type 0} (key : Bytes) (m : List (Bytes × A)) → length (erase key m) ≤ length m
unfolding erase
length-erase_le key [] = omega arith
length-erase_le key ((k, c) ∷ m) = elim (Bool-cases (same_text key k)) [
  | inl q ↦ rw q (omega (arith, length-erase_le key m))
  | inr q ↦ rw q (omega (arith, length-erase_le key m))
]

pub length-drop_at : {A : Type 0} (i : ℕ) (m : List A) → length (drop_at i m) ≡ length m - 1
unfolding drop_at
length-drop_at i [] = refl
length-drop_at i (a ∷ []) = refl
length-drop_at zero (a ∷ b ∷ m) = omega arith
length-drop_at (suc i) (a ∷ b ∷ m) = omega (arith, length-drop_at i (b ∷ m))

-- `P` of every entry.
abbrev pub All : {A : Type 0} → (A → Type 0) → List (Bytes × A) → Type 0
All P [] = Unit {0}
All P ((k, a) ∷ m) = P a × All P m

module _ {A : Type 0} (P : A → Type 0) where
  pub All-store :
      (key : Bytes) (a : A) (m : List (Bytes × A)) → P a → All P m → All P (store key a m)
  unfolding store
  All-store key a [] p h = (p, tt)
  All-store key a ((k, b) ∷ m) p h = elim (Bool-cases (same_text key k)) [
    | inl q ↦ rw q (p, h.1)
    | inr q ↦ rw q (h.0, All-store key a m p h.1)
  ]

  pub All-erase : (key : Bytes) (m : List (Bytes × A)) → All P m → All P (erase key m)
  unfolding erase
  All-erase key [] h = tt
  All-erase key ((k, b) ∷ m) h = elim (Bool-cases (same_text key k)) [
    | inl q ↦ rw q (All-erase key m h.1)
    | inr q ↦ rw q (h.0, All-erase key m h.1)
  ]

  pub All-drop_at : (i : ℕ) (m : List (Bytes × A)) → All P m → All P (drop_at i m)
  unfolding drop_at
  All-drop_at i [] h = tt
  All-drop_at i (a ∷ []) h = tt
  All-drop_at zero ((k, a) ∷ b ∷ m) h = h.1
  All-drop_at (suc i) ((k, a) ∷ b ∷ m) h = (h.0, All-drop_at i (b ∷ m) h.1)

  pub All-find : (key : Bytes) (a : A) (m : List (Bytes × A)) → find key m ≡ some a → All P m → P a
  unfolding find
  All-find key a [] e h = cc
  All-find key a ((k, b) ∷ m) e h = elim (Bool-cases (same_text key k)) [
    | inl q ↦ let found : some b ≡ some a = rw q at e in let same : b ≡ a = cc in rw (← same) h.0
    | inr q ↦ All-find key a m (rw q at e) h.1
  ]

pub find-erase : {A : Type 0} (key : Bytes) (m : List (Bytes × A)) → find key (erase key m) ≡ none
unfolding find erase
find-erase key [] = refl
find-erase key ((k, a) ∷ m) = elim (Bool-cases (same_text key k)) [
  | inl q ↦ rw q (find-erase key m)
  | inr q ↦ rw (q, q) (find-erase key m)
]

pub find-erase_other :
    {A : Type 0} (key other_key : Bytes) (m : List (Bytes × A))
    → other_key ≢ key
    → find other_key (erase key m) ≡ find other_key m
unfolding find erase
find-erase_other key other_key [] d = refl
find-erase_other key other_key ((k, a) ∷ m) d = elim (Bool-cases (same_text key k)) [
  | inl q ↦
      let differs : same_text other_key k ≡ false =
        same_text_differs other_key k (λ e. d (e ∙ sym (same_text→eq key k q))) in
      rw (q, differs) (find-erase_other key other_key m d)
  | inr q ↦ rw q (elim (Bool-cases (same_text other_key k)) [
    | inl r ↦ rw r refl
    | inr r ↦ rw r (find-erase_other key other_key m d)
  ])
]

-- Two keys are one or not.
pub same_key : (s t : Bytes) → (s ≡ t) ⊎ (s ≢ t)
same_key s t = elim (Bool-cases (same_text s t)) [
  | inl q ↦ inl (same_text→eq s t q)
  | inr q ↦ inr (λ e. differ (rw e at q))
]
  where
    differ : same_text t t ≡ false → ⊥
    differ q = let r = same_text_refl t in cc
