-- ===== src/Reclaim/Aliases/Links.antt =====
-- reclaim/alias.go: the links between the entries and the incarnations, in both directions.
use mathlib.Core.Path.{subst}
use traefik_middleware_utili.Keys.{find}
use traefik_middleware_utili.Prelude.{
  ℕ, Bool, Bool-cases, Bytes, List, Option, [], false, inl, inr, none, refl, some, true, ◌++◌, ◌==◌,
  ◌||◌, ◌∷◌, ◌≡◌, sym, ◌∙◌, ltb, ==_iff, ap,
}
use traefik_middleware_utili.Reclaim.Values.{all_but, member, put_at}
use traefik_middleware_utili.Reclaim.Aliases.{
  AliasEntry, Aliases, bind_entry, detach_alias, detached, is_at, write_entry,
}
use traefik_middleware_utili.Reclaim.System.Counts.{==_refl, ==_swap, same_slot}

-- An entry points at an incarnation exactly if the incarnation lists it, and the names are of entries
-- that were made.
pub record IsLinked (a : Aliases) : Type 0 where
  pub forward : (e i : ℕ) → (a.entries e).incarnation ≡ some i → member e (a.bound i) ≡ true
  pub back : (e i : ℕ) → member e (a.bound i) ≡ true → (a.entries e).incarnation ≡ some i
  pub fresh : (e : ℕ) → ltb e a.next_entry ≡ false → (a.entries e).incarnation ≡ none
  pub named : (key : Bytes) (e : ℕ) → find key a.names ≡ some e → ltb e a.next_entry ≡ true

pub member-all_but :
    (e k : ℕ) (es : List ℕ) → (e == k) ≡ false → member k (all_but e es) ≡ member k es
unfolding member all_but
member-all_but e k [] d = refl
member-all_but e k (h ∷ es) d = elim (same_slot e h) [
  | inl q ↦
      let other : (k == h) ≡ false = ==_swap k h ∙ rw q at d in
      rw ((==_iff e h).1 q, other) (member-all_but e k es d)
  | inr q ↦ rw q (rw (member-all_but e k es d) refl)
]

pub member-all_but_none : (e : ℕ) (es : List ℕ) → member e (all_but e es) ≡ false
unfolding member all_but
member-all_but_none e [] = refl
member-all_but_none e (h ∷ es) = elim (Bool-cases (e == h)) [
  | inl q ↦ rw q (member-all_but_none e es)
  | inr q ↦ rw (q, q) (member-all_but_none e es)
]

pub member-append : (k e : ℕ) (es : List ℕ) → member k (es ++ (e ∷ [])) ≡ (member k es || k == e)
unfolding member
member-append k e [] = or_false (k == e)
  where
    or_false : (b : Bool) → (b || false) ≡ b
    or_false true = refl
    or_false false = refl
member-append k e (h ∷ es) = elim (Bool-cases (k == h)) [
  | inl q ↦ rw q refl
  | inr q ↦ rw q (member-append k e es)
]

-- A write that leaves the incarnation of the entry.
pub write_entry-IsLinked :
    (e : ℕ) (entry : AliasEntry) (a : Aliases)
    → entry.incarnation ≡ (a.entries e).incarnation
    → IsLinked a
    → IsLinked (write_entry e entry a)
unfolding put_at
write_entry-IsLinked e entry a q l = record {
  forward = λ k i f. l.forward k i (sym (same k) ∙ f);
  back = λ k i m. same k ∙ l.back k i m;
  fresh = λ k n. same k ∙ l.fresh k n;
  named = l.named;
}
  where
    same : (k : ℕ) → ((write_entry e entry a).entries k).incarnation ≡ (a.entries k).incarnation
    same k = elim (same_slot e k) [
      | inl c ↦
          subst (λ k. (put_at e entry a.entries k).incarnation ≡ (a.entries k).incarnation) c
            (rw (==_refl e) q)
      | inr d ↦ rw d refl
    ]

-- A change of the links of one entry.
pub relink-IsLinked :
    (e : ℕ) (a b : Aliases)
    → b.next_entry ≡ a.next_entry
    → b.names ≡ a.names
    → ((k : ℕ) → (e == k) ≡ false → (b.entries k).incarnation ≡ (a.entries k).incarnation)
    → ((k j : ℕ) → (e == k) ≡ false → member k (b.bound j) ≡ member k (a.bound j))
    → ((j : ℕ) → (b.entries e).incarnation ≡ some j → member e (b.bound j) ≡ true)
    → ((j : ℕ) → member e (b.bound j) ≡ true → (b.entries e).incarnation ≡ some j)
    → (ltb e a.next_entry ≡ false → (b.entries e).incarnation ≡ none)
    → IsLinked a
    → IsLinked b
relink-IsLinked e a b n m others bounds to from new l = record {
  forward = λ k i f. elim (same_slot e k) [
    | inl c ↦ rw (← c) (to i (rw (← c) at f))
    | inr d ↦ bounds k i d ∙ l.forward k i (sym (others k d) ∙ f)
  ];
  back = λ k i f. elim (same_slot e k) [
    | inl c ↦ rw (← c) (from i (rw (← c) at f))
    | inr d ↦ others k d ∙ l.back k i (sym (bounds k i d) ∙ f)
  ];
  fresh = λ k f. elim (same_slot e k) [
    | inl c ↦ rw (← c) (new (rw (← c, n) at f))
    | inr d ↦ others k d ∙ l.fresh k (rw n at f)
  ];
  named = λ key k f. rw n (l.named key k (rw m at f));
}

pub detach_alias-IsLinked : (e : ℕ) (a : Aliases) → IsLinked a → IsLinked (detach_alias e a)
unfolding detach_alias put_at
detach_alias-IsLinked e a l = go (a.entries e).incarnation refl
  where
    gone :
        (i j : ℕ)
        → (a.entries e).incarnation ≡ some i
        → member e (put_at i (all_but e (a.bound i)) a.bound j) ≡ true
        → ⊥
    gone i j q m = elim (same_slot i j) [
      | inl c ↦
          let none_there = member-all_but_none e (a.bound i) in
          let left : member e (all_but e (a.bound i)) ≡ true = rw (← c, ==_refl i) at m in cc
      | inr d ↦
          let before : member e (a.bound j) ≡ true = rw d at m in
          let points = l.back e j before in
          let same : i ≡ j = cc in let hit : (i == j) ≡ true = rw (← same) (==_refl i) in cc
    ]

    bounds :
        (i k j : ℕ)
        → (e == k) ≡ false
        → member k (put_at i (all_but e (a.bound i)) a.bound j) ≡ member k (a.bound j)
    bounds i k j d = elim (same_slot i j) [
      | inl c ↦ rw (← c) (rw (==_refl i) (member-all_but e k (a.bound i) d))
      | inr r ↦ rw r refl
    ]

    go : (o : Option ℕ) → (a.entries e).incarnation ≡ o → IsLinked (detached e o a)
    go none q = l
    go (some i) q =
        relink-IsLinked e a (detached e (some i) a) refl refl (λ k d. rw d refl) (bounds i)
          (λ j f. let nothing : none ≡ some j = rw (==_refl e) at f in absurd cc)
          (λ j f. absurd (gone i j q f)) (λ _. rw (==_refl e) refl) l

pub detach_alias-none : (e : ℕ) (a : Aliases) → ((detach_alias e a).entries e).incarnation ≡ none
unfolding detach_alias put_at
detach_alias-none e a = go (a.entries e).incarnation refl
  where
    go :
        (o : Option ℕ)
        → (a.entries e).incarnation ≡ o
        → ((detached e o a).entries e).incarnation ≡ none
    go none q = q
    go (some i) q = rw (==_refl e) refl

pub detach_alias-next : (e : ℕ) (a : Aliases) → (detach_alias e a).next_entry ≡ a.next_entry
unfolding detach_alias
detach_alias-next e a = go (a.entries e).incarnation
  where
    go : (o : Option ℕ) → (detached e o a).next_entry ≡ a.next_entry
    go none = refl
    go (some i) = refl

bind_apart-IsLinked :
    (e i : ℕ) (a : Aliases)
    → (a.entries e).incarnation ≡ none
    → ltb e a.next_entry ≡ true
    → IsLinked a
    → IsLinked (record a {
      entries = put_at e (record (a.entries e) { incarnation = some i }) a.entries;
      bound = put_at i (a.bound i ++ (e ∷ [])) a.bound;
    })
unfolding put_at
bind_apart-IsLinked e i a z n l =
    relink-IsLinked e a
      (record a {
        entries = put_at e (record (a.entries e) { incarnation = some i }) a.entries;
        bound = put_at i (a.bound i ++ (e ∷ [])) a.bound;
      })
      refl refl (λ k d. rw d refl) bounds
      (λ j f.
        let points : some i ≡ some j = rw (==_refl e) at f in
        let same : i ≡ j = cc in
        rw (← same) (rw (==_refl i) (member-append e e (a.bound i) ∙ rw (==_refl e) (or_true _))))
      (λ j f. rw (==_refl e) (from j f)) (λ f. absurd (made f)) l
  where
    made : ltb e a.next_entry ≡ false → ⊥
    made f = cc

    or_true : (b : Bool) → (b || true) ≡ true
    or_true true = refl
    or_true false = refl

    or_false : (b : Bool) → (b || false) ≡ b
    or_false true = refl
    or_false false = refl

    bounds :
        (k j : ℕ)
        → (e == k) ≡ false
        → member k (put_at i (a.bound i ++ (e ∷ [])) a.bound j) ≡ member k (a.bound j)
    bounds k j d = elim (same_slot i j) [
      | inl c ↦ rw (← c) (
          rw (==_refl i) (
            member-append k e (a.bound i) ∙ rw (==_swap k e ∙ d) (or_false (member k (a.bound i)))))
      | inr r ↦ rw r refl
    ]

    from : (j : ℕ) → member e (put_at i (a.bound i ++ (e ∷ [])) a.bound j) ≡ true → some i ≡ some j
    from j f = elim (same_slot i j) [
      | inl c ↦ ap some c
      | inr d ↦ let points = l.back e j (rw d at f) in absurd cc
    ]

pub bind_entry-IsLinked :
    (e i : ℕ) (a : Aliases) → ltb e a.next_entry ≡ true → IsLinked a → IsLinked (bind_entry e i a)
unfolding bind_entry
bind_entry-IsLinked e i a n l = elim (Bool-cases (is_at i (a.entries e).incarnation)) [
  | inl q ↦ rw q l
  | inr q ↦ rw q (
      bind_apart-IsLinked e i (detach_alias e a) (detach_alias-none e a)
        (rw (detach_alias-next e a) n) (detach_alias-IsLinked e a l))
]
