-- ===== src/Reclaim/Aliases/Told.antt =====
-- reclaim/alias.go: what the watchers of an entry have been told last.
use traefik_middleware_utili.Prelude.{
  ℕ, Bool, Bool-cases, List, Option, [], false, inl, inr, map, none, refl, some, true, ◌&&◌, ◌++◌,
  ◌==◌, ◌∷◌, ◌≡◌, ◌⊎◌, not, sym, ◌||◌,
}
use traefik_middleware_utili.Keys.Laws.{same_text_refl}
use traefik_middleware_utili.Reclaim.Values.{
  Any, is_nil_value, nil, plain, pointer, same_shown, same_value,
}
use traefik_middleware_utili.Reclaim.Aliases.{
  AliasEntry, Watcher, current_value, deliver, first_empty, is_nil, released, shown, store_watchers,
  watch_entry, without_watcher,
}
use traefik_middleware_utili.Reclaim.System.Counts.{==_refl}

-- Nothing is published, or a nil value is.
abbrev pub none_published : (ℕ → Any) → Option ℕ → Bool
none_published values none = true
none_published values (some i) = is_nil_value (values i)

-- A watcher was told the current value last; or none is published, the watcher was told nothing, and
-- it is one of the early ones.
abbrev pub IsCurrent : (ℕ → Any) → (ℕ → Type 0) → AliasEntry → Watcher → Type 0
IsCurrent values early entry w =
    (same_value w.last (current_value values entry) ≡ true)
    ⊎ ((none_published values entry.incarnation ≡ true)
        × (is_nil_value w.last ≡ true)
        × early w.identity)

abbrev pub watches : ℕ → List Watcher → Bool
watches k [] = false
watches k (w ∷ ws) = w.identity == k || watches k ws

abbrev pub EveryWatcher : (Watcher → Type 0) → List Watcher → Type 0
EveryWatcher P [] = Unit {0}
EveryWatcher P (w ∷ ws) = P w × EveryWatcher P ws

abbrev pub IsTold : (ℕ → Any) → (ℕ → Type 0) → AliasEntry → Type 0
IsTold values early entry = EveryWatcher (IsCurrent values early entry) entry.watchers

pub EveryWatcher-map :
    (P Q : Watcher → Type 0) (ws : List Watcher)
    → ((w : Watcher) → P w → Q w)
    → EveryWatcher P ws
    → EveryWatcher Q ws
EveryWatcher-map P Q [] f h = tt
EveryWatcher-map P Q (w ∷ ws) f h = (f w h.0, EveryWatcher-map P Q ws f h.1)

pub same_shown_refl : (v : Any) → same_shown v v ≡ true
unfolding same_shown
same_shown_refl nil = refl
same_shown_refl (pointer t a) = ==_refl a
same_shown_refl (plain t b) = rw (==_refl t, same_text_refl b) refl

pub same_value_refl : (v : Any) → same_value v v ≡ true
unfolding same_value
same_value_refl v = elim (Bool-cases (is_nil_value v)) [
  | inl q ↦ rw q refl
  | inr q ↦ rw q (same_shown_refl v)
]

pub deliver_told : (v : Any) (w : Watcher) → same_value (deliver v w).last v ≡ true
unfolding deliver
deliver_told v w = elim (Bool-cases (same_value w.last v)) [
  | inl q ↦ rw q q
  | inr q ↦ rw q (same_value_refl v)
]

shown_same : (v : Any) → shown v v ≡ v
shown_same v = elim (Bool-cases (is_nil_value v)) [ inl q ↦ rw q refl | inr q ↦ rw q refl ]

told_all :
    (v : Any) (entry : AliasEntry) (values : ℕ → Any) (early : ℕ → Type 0) (ws : List Watcher)
    → current_value values entry ≡ v
    → EveryWatcher (IsCurrent values early entry) (map (deliver v) ws)
told_all v entry values early [] e = tt
told_all v entry values early (w ∷ ws) e =
    (inl (rw e (deliver_told v w)), told_all v entry values early ws e)

-- An entry that nothing is published under any more.
pub released-IsTold :
    (values : ℕ → Any) (early : ℕ → Type 0) (entry : AliasEntry)
    → IsTold values early (released entry)
unfolding released store_watchers
released-IsTold values early entry =
    told_all (shown entry.empty entry.empty) (released entry) values early entry.watchers
      (sym (shown_same entry.empty))

-- An entry whose watchers are told the value of its incarnation.
pub store_watchers-IsTold :
    (values : ℕ → Any) (early : ℕ → Type 0) (i : ℕ) (entry : AliasEntry)
    → entry.incarnation ≡ some i
    → IsTold values early (store_watchers (values i) entry)
unfolding store_watchers
store_watchers-IsTold values early i entry e =
    told_all (shown (values i) entry.empty) (store_watchers (values i) entry) values early
      entry.watchers (rw e refl)

nil_last : (v : Any) → same_value v nil ≡ true → is_nil_value v ≡ true
unfolding same_value is_nil_value
nil_last v e = elim (Bool-cases (is_nil_value v)) [
  | inl q ↦ q
  | inr q ↦ let differs : false ≡ true = rw q at e in cc
]

is_nil_lem : (v : Any) → is_nil v ≡ true → v ≡ nil
is_nil_lem nil e = refl
is_nil_lem (pointer t a) e = cc
is_nil_lem (plain t b) e = cc

-- The first empty value that is given.
filled :
    (values : ℕ → Any) (early late : ℕ → Type 0) (empty : Any) (entry : AliasEntry) (w : Watcher)
    → entry.empty ≡ nil
    → late w.identity
    → IsCurrent values early entry w
    → IsCurrent values late (record entry { empty = empty }) w
unfolding is_nil_value
filled values early late empty entry w e came c = go entry.incarnation refl
  where
    nothing_told : current_value values entry ≡ nil → is_nil_value w.last ≡ true
    nothing_told q = elim c [ inl h ↦ nil_last w.last (rw q at h) | inr h ↦ h.1 ]

    go :
        (o : Option ℕ)
        → entry.incarnation ≡ o
        → IsCurrent values late (record entry { empty = empty }) w
    go none q = inr (rw q refl, nothing_told (rw q e), came)
    go (some i) q = elim (Bool-cases (is_nil_value (values i))) [
      | inl z ↦ inr (rw (q, z) refl, nothing_told (rw (q, z) e), came)
      | inr z ↦ elim c [
        | inl h ↦
            let before : same_value w.last (values i) ≡ true = rw (q, z) at h in
            inl (rw (q, z) before)
        | inr h ↦ let nothing : false ≡ true = rw (q, z) at h.0 in absurd cc
      ]
    ]

EveryWatcher-map_in :
    (P Q : Watcher → Type 0) (ws : List Watcher)
    → ((w : Watcher) → watches w.identity ws ≡ true → P w → Q w)
    → EveryWatcher P ws
    → EveryWatcher Q ws
EveryWatcher-map_in P Q [] f h = tt
EveryWatcher-map_in P Q (w ∷ ws) f h = (
  f w (rw (==_refl w.identity) refl) h.0,
  EveryWatcher-map_in P Q ws (λ v m. f v (rw m (or_true (w.identity == v.identity)))) h.1,
)
  where
    or_true : (b : Bool) → (b || true) ≡ true
    or_true true = refl
    or_true false = refl

-- A watcher that was current stays so when more are early.
pub later-IsCurrent :
    (values : ℕ → Any) (early late : ℕ → Type 0) (entry : AliasEntry) (w : Watcher)
    → ((k : ℕ) → early k → late k)
    → IsCurrent values early entry w
    → IsCurrent values late entry w
later-IsCurrent values early late entry w keeps (inl h) = inl h
later-IsCurrent values early late entry w keeps (inr h) = inr (h.0, h.1, keeps w.identity h.2)

pub later-IsTold :
    (values : ℕ → Any) (early late : ℕ → Type 0) (entry : AliasEntry)
    → ((k : ℕ) → early k → late k)
    → IsTold values early entry
    → IsTold values late entry
later-IsTold values early late entry keeps =
    EveryWatcher-map _ _ entry.watchers (λ w. later-IsCurrent values early late entry w keeps)

-- Those who watch the entry when it gets its first empty value.
abbrev pub Fills : ℕ → AliasEntry → AliasEntry → Type 0
Fills k before after =
    (watches k before.watchers ≡ true) × (before.empty ≡ nil) × (is_nil after.empty ≡ false)

first_empty-IsTold :
    (values : ℕ → Any) (early late : ℕ → Type 0) (empty : Any) (entry : AliasEntry)
    → ((k : ℕ) → early k → late k)
    → ((k : ℕ) → Fills k entry (first_empty empty entry) → late k)
    → IsTold values early entry
    → IsTold values late (first_empty empty entry)
first_empty-IsTold values early late empty entry keeps fills t =
    elim (Bool-cases (is_nil entry.empty && not (is_nil empty))) [
      | inl q ↦ rw q (
          EveryWatcher-map_in _ _ entry.watchers
            (λ w m.
              filled values early late empty entry w (was_nil q)
                (fills w.identity (m, was_nil q, rw q (not_nil q))))
            t)
      | inr q ↦ rw q (later-IsTold values early late entry keeps t)
    ]
  where
    both : (a b : Bool) → (a && not b) ≡ true → (a ≡ true) × (b ≡ false)
    both true false h = (refl, refl)
    both true true h = cc
    both false b h = cc

    was_nil : (is_nil entry.empty && not (is_nil empty)) ≡ true → entry.empty ≡ nil
    was_nil q = is_nil_lem entry.empty (both (is_nil entry.empty) (is_nil empty) q).0

    not_nil : (is_nil entry.empty && not (is_nil empty)) ≡ true → is_nil empty ≡ false
    not_nil q = (both (is_nil entry.empty) (is_nil empty) q).1

EveryWatcher-append :
    (P : Watcher → Type 0) (ws : List Watcher) (w : Watcher)
    → EveryWatcher P ws
    → P w
    → EveryWatcher P (ws ++ (w ∷ []))
EveryWatcher-append P [] w h p = (p, tt)
EveryWatcher-append P (v ∷ ws) w h p = (h.0, EveryWatcher-append P ws w h.1 p)

pub watch_entry-IsTold :
    (values : ℕ → Any) (early late : ℕ → Type 0) (identity : ℕ) (changed : Bool) (empty : Any)
    (entry : AliasEntry)
    → ((k : ℕ) → early k → late k)
    → ((k : ℕ) → Fills k entry (watch_entry values identity changed empty entry) → late k)
    → IsTold values early entry
    → IsTold values late (watch_entry values identity changed empty entry)
unfolding watch_entry
watch_entry-IsTold values early late identity changed empty entry keeps fills t =
    let settled = first_empty empty entry in
    EveryWatcher-append (IsCurrent values late settled) settled.watchers
      (deliver (current_value values settled)
        (record { identity = identity; changed = changed; last = nil; told = [] }))
      (first_empty-IsTold values early late empty entry keeps fills t)
      (inl (deliver_told (current_value values settled) _))

pub without_watcher-told :
    (P : Watcher → Type 0) (identity : ℕ) (ws : List Watcher)
    → EveryWatcher P ws
    → EveryWatcher P (without_watcher identity ws)
unfolding without_watcher
without_watcher-told P identity [] h = tt
without_watcher-told P identity (w ∷ ws) h = elim (Bool-cases (w.identity == identity)) [
  | inl q ↦ rw q (without_watcher-told P identity ws h.1)
  | inr q ↦ rw q (h.0, without_watcher-told P identity ws h.1)
]
