-- ===== src/Windowcounter/Buffer/Hits/Mapped.antt =====
-- windowcounter/limiter.go: the places of the map, and how a step that is no hit and no settled flush
-- changes the windows that the map does not have.
use traefik_middleware_utili.Windowcounter.Buffer.Flush.{
  drop_found, in_flight, drop_window, is_over, mark_found,
}
use traefik_middleware_utili.Keys.{find, erase}
use traefik_middleware_utili.Keys.Laws.{
  find-store, find-store_other, same_key, find-erase, find-erase_other,
}
use traefik_middleware_utili.Prelude.{
  ℕ, Bool, Bool-cases, Bytes, List, Option, [], ap, false, if◌then◌else◌, inl, inr, length, none,
  refl, same_text, same_text→eq, some, sym, true, ◌==◌, ◌||◌, ◌∙◌, ◌∷◌, ◌≡◌, ◌≢◌, ◌⊎◌, ==_iff,
  arith, ltb, ◌&&◌,
}
use traefik_middleware_utili.Prelude.Int.{ℤ}
use traefik_middleware_utili.Windowcounter.Buffer.{
  Buffer, apply_found, window, write, WindowState, apply_get, learn, raise_to,
}
use traefik_middleware_utili.Windowcounter.Buffer.Heap.{
  Writing, local-change_same, nth-append_other, nth-length_zero,
}
use traefik_middleware_utili.Windowcounter.Buffer.Hits.{is_mapped, is_place, maps_to}
use traefik_middleware_utili.Windowcounter.Buffer.Flush.{mark}

or_true : (b : Bool) → (b || true) ≡ true
or_true true = refl
or_true false = refl

maps_to-found :
    (i : ℕ) (windows keys : List (Bytes × ℕ))
    → maps_to i windows keys ≡ true
    → (key : Bytes) × (find key windows ≡ some i)
unfolding maps_to
maps_to-found i windows [] q = absurd cc
maps_to-found i windows ((key, j) ∷ keys) q =
    go (find key windows) refl (λ r. maps_to-found i windows keys r)
  where
    go :
        (o : Option ℕ)
        → find key windows ≡ o
        → (maps_to i windows keys ≡ true → (k : Bytes) × (find k windows ≡ some i))
        → (k : Bytes) × (find k windows ≡ some i)
    go none f beyond = beyond (rw f at q)
    go (some p) f beyond = elim (Bool-cases (p == i)) [
      | inl e ↦ (key, f ∙ ap some ((==_iff p i).0 e))
      | inr e ↦ beyond (rw (f, e) at q)
    ]

found-maps_to :
    (key : Bytes) (i p : ℕ) (windows keys : List (Bytes × ℕ))
    → find key windows ≡ some i
    → find key keys ≡ some p
    → maps_to i windows keys ≡ true
unfolding maps_to find
found-maps_to key i p windows [] f g = absurd cc
found-maps_to key i p windows ((k, j) ∷ keys) f g = elim (Bool-cases (same_text key k)) [
  | inl e ↦
      let there : find k windows ≡ some i = rw (same_text→eq key k e) at f in
      rw (there, (==_iff i i).1 refl) refl
  | inr e ↦
      rw (found-maps_to key i p windows keys f (rw e at g)) (or_true (is_place i (find k windows)))
]

-- A place is in the map exactly if a key has it.
pub mapped : (key : Bytes) (i : ℕ) (l : Buffer) → find key l.windows ≡ some i → is_mapped i l ≡ true
mapped key i l f = found-maps_to key i i l.windows l.windows f f

pub write-IsStray :
    (i j : ℕ) (f : Writing) (l : Buffer) (n : ℕ)
    → ((w : WindowState) → (f w).local_delta ≡ w.local_delta)
    → n ≡ (if is_mapped j l then 0 else (window j l).local_delta)
    → n ≡ (if is_mapped j (write i f l) then 0 else (window j (write i f l)).local_delta)
write-IsStray i j f l n k s = rw (local-change_same i j f l.heap k) s

-- A new window, for a key that the map does not have.
grown-IsStray :
    (key : Bytes) (known : ℤ) (e : ℕ) (l : Buffer) (j n : ℕ)
    → find key l.windows ≡ none
    → n ≡ (if is_mapped j l then 0 else (window j l).local_delta)
    → let m = (apply_found key known e l none).1 in
      n ≡ (if is_mapped j m then 0 else (window j m).local_delta)
grown-IsStray key known e l j n fresh s = elim (Bool-cases (is_mapped j m)) [
  | inl q ↦ rw q (none_there (maps_to-found j m.windows m.windows q))
  | inr q ↦ rw q (outside q (Bool-cases (is_mapped j l)))
]
  where
    m : Buffer
    m = (apply_found key known e l none).1

    none_at :
        (b : Bool)
        → (window j l).local_delta ≡ 0
        → n ≡ (if b then 0 else (window j l).local_delta)
        → n ≡ 0
    none_at true z h = h
    none_at false z h = h ∙ z

    none_there : ((k : Bytes) × (find k m.windows ≡ some j)) → n ≡ 0
    none_there (k, f) = elim (same_key k key) [
      | inl r ↦
          let there : find key m.windows ≡ some j = rw r at f in
          let stored = find-store key (length l.heap) l.windows in
          let last : j ≡ length l.heap = cc in
          none_at (is_mapped j l) (rw last (nth-length_zero l.heap)) s
      | inr d ↦
          let before = sym (find-store_other key k (length l.heap) l.windows d) ∙ f in
          s ∙ rw (mapped k j l before) refl
    ]

    not_last : is_mapped j m ≡ false → j ≢ length l.heap
    not_last q r =
        let there : find key m.windows ≡ some j =
          find-store key (length l.heap) l.windows ∙ ap some (sym r) in
        let hit = mapped key j m there in cc

    outside :
        is_mapped j m ≡ false
        → (is_mapped j l ≡ true) ⊎ (is_mapped j l ≡ false)
        → n ≡ (window j m).local_delta
    outside q (inr o) = (rw o at s) ∙ sym (nth-append_other j l.heap _ (not_last q))
    outside q (inl o) =
        let before = maps_to-found j l.windows l.windows o in
        elim (same_key before.0 key) [
          | inl r ↦ let gone : find key l.windows ≡ some j = rw r at before.1 in absurd cc
          | inr d ↦
              let hit =
                mapped before.0 j m
                  (find-store_other key before.0 (length l.heap) l.windows d ∙ before.1) in
              absurd cc
        ]

pub get-IsStray :
    (key : Bytes) (known : ℤ) (e : ℕ) (l : Buffer) (j n : ℕ)
    → n ≡ (if is_mapped j l then 0 else (window j l).local_delta)
    → let m = (apply_get key known e l).1 in
      n ≡ (if is_mapped j m then 0 else (window j m).local_delta)
unfolding apply_get
get-IsStray key known e l j n s = go (find key l.windows) refl
  where
    go :
        (o : Option ℕ)
        → find key l.windows ≡ o
        → n ≡ (
            if is_mapped j (apply_found key known e l o).1
            then 0
            else (window j (apply_found key known e l o).1).local_delta)
    go none f = grown-IsStray key known e l j n f s
    go (some i) f = write-IsStray i j (λ w. learn known (raise_to e w)) l n (λ w. ground arith) s

pub mark-IsStray :
    (key : Bytes) (l : Buffer) (j n : ℕ)
    → n ≡ (if is_mapped j l then 0 else (window j l).local_delta)
    → n ≡ (if is_mapped j (mark key l).1 then 0 else (window j (mark key l).1).local_delta)
unfolding mark
mark-IsStray key l j n s = go (find key l.windows)
  where
    go :
        (o : Option ℕ)
        → n ≡ (
            if is_mapped j (mark_found key l o).1
            then 0
            else (window j (mark_found key l o).1).local_delta)
    go none = s
    go (some i) =
        elim (Bool-cases (ltb 0 (window i l).local_delta && (window i l).flush_delta == 0)) [
          | inl r ↦ rw r (write-IsStray i j in_flight l n (λ w. refl) s)
          | inr r ↦ rw r s
        ]

-- A window that the flush drops has no hits.
pub drop-IsStray :
    (now_unix : ℕ) (key : Bytes) (l : Buffer) (j n : ℕ)
    → n ≡ (if is_mapped j l then 0 else (window j l).local_delta)
    → let m = drop_window now_unix key l in
      n ≡ (if is_mapped j m then 0 else (window j m).local_delta)
unfolding drop_window
drop-IsStray now_unix key l j n s = go (find key l.windows) refl
  where
    m : Buffer
    m = record l { windows = erase key l.windows }

    kept : ((k : Bytes) × (find k m.windows ≡ some j)) → n ≡ 0
    kept (k, f) = elim (same_key k key) [
      | inl r ↦
          let gone : find key (erase key l.windows) ≡ none = find-erase key l.windows in
          let still : find key (erase key l.windows) ≡ some j = rw r at f in absurd cc
      | inr d ↦
          let before = sym (find-erase_other key k l.windows d) ∙ f in
          s ∙ rw (mapped k j l before) refl
    ]

    dropped :
        (i : ℕ)
        → find key l.windows ≡ some i
        → (window i l).local_delta ≡ 0
        → is_mapped j m ≡ false
        → (is_mapped j l ≡ true) ⊎ (is_mapped j l ≡ false)
        → n ≡ (window j l).local_delta
    dropped i f z q (inr o) = rw o at s
    dropped i f z q (inl o) =
        let before = maps_to-found j l.windows l.windows o in
        elim (same_key before.0 key) [
          | inl r ↦
              let there : find key l.windows ≡ some j = rw r at before.1 in
              let same : i ≡ j = cc in
              let empty : (window j l).local_delta ≡ 0 = rw same at z in (s ∙ rw o refl) ∙ sym empty
          | inr d ↦
              let hit =
                mapped before.0 j m (find-erase_other key before.0 l.windows d ∙ before.1) in
              absurd cc
        ]

    go :
        (o : Option ℕ)
        → find key l.windows ≡ o
        → n ≡ (
            if is_mapped j (drop_found now_unix key l o)
            then 0
            else (window j (drop_found now_unix key l o)).local_delta)
    go none f = s
    go (some i) f = elim (Bool-cases (is_over now_unix (window i l))) [
      | inr r ↦ rw r s
      | inl r ↦
          let nothing : (window i l).local_delta ≡ 0 = ground (arith, r) in
          rw r (elim (Bool-cases (is_mapped j m)) [
            | inl q ↦ rw q (kept (maps_to-found j m.windows m.windows q))
            | inr q ↦ rw q (dropped i f nothing q (Bool-cases (is_mapped j l)))
          ])
    ]
