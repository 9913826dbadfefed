-- ===== src/Reclaim/Aliases/Agreed.antt =====
-- reclaim/alias.go: the links and what the watchers were told, after a change of one entry.
use mathlib.Core.Path.{subst}
use traefik_middleware_utili.Keys.{find, store}
use traefik_middleware_utili.Keys.Laws.{find-store, find-store_other, same_key}
use traefik_middleware_utili.Prelude.{
  ℕ, Bool-cases, Bytes, List, Option, [], arith, false, inl, inr, none, refl, some, true, ◌==◌,
  ◌||◌, ◌∷◌, ◌≡◌, sym, ◌∙◌, ltb, ◌+◌, ==_iff, ap,
}
use traefik_middleware_utili.Reclaim.Values.{Any, put_at}
use traefik_middleware_utili.Reclaim.Aliases.{
  AliasEntry, Aliases, bind_entry, detach_alias, detached, entry_of, is_at, released,
  store_watchers, write_entry,
}
use traefik_middleware_utili.Reclaim.System.Counts.{==_refl, same_slot}
use traefik_middleware_utili.Prelude.{not, if_cases}
use traefik_middleware_utili.Reclaim.Aliases.{
  clear_alias, clear_others, publish_entry, published_by,
}
use traefik_middleware_utili.Reclaim.Aliases.Told.{IsTold, released-IsTold, store_watchers-IsTold}
use traefik_middleware_utili.Reclaim.Aliases.Links.{
  IsLinked, bind_entry-IsLinked, detach_alias-IsLinked, detach_alias-none, write_entry-IsLinked,
}

-- The links agree, and all watchers have been told.
pub record IsAgreed (values : ℕ → Any) (early : ℕ → ℕ → Type 0) (a : Aliases) : Type 0 where
  pub linked : IsLinked a
  pub told : (e : ℕ) → IsTold values (early e) (a.entries e)

pub detach_other :
    (e k : ℕ) (a : Aliases) → (e == k) ≡ false → (detach_alias e a).entries k ≡ a.entries k
unfolding detach_alias put_at
detach_other e k a d = go (a.entries e).incarnation
  where
    go : (o : Option ℕ) → (detached e o a).entries k ≡ a.entries k
    go none = refl
    go (some i) = rw d refl

-- A change of one entry, whose watchers have been told.
pub changed-IsAgreed :
    (values : ℕ → Any) (early : ℕ → ℕ → Type 0) (e : ℕ) (a b : Aliases)
    → IsLinked b
    → ((k : ℕ) → (e == k) ≡ false → b.entries k ≡ a.entries k)
    → IsTold values (early e) (b.entries e)
    → IsAgreed values early a
    → IsAgreed values early b
changed-IsAgreed values early e a b l others here g = record {
  linked = l;
  told = λ k. elim (same_slot e k) [
    | inl c ↦ subst (λ k. IsTold values (early k) (b.entries k)) c here
    | inr d ↦ rw (others k d) (g.told k)
  ];
}

store_incarnation :
    (v : Any) (entry : AliasEntry) → (store_watchers v entry).incarnation ≡ entry.incarnation
unfolding store_watchers
store_incarnation v entry = refl

pub released-none : (entry : AliasEntry) → (released entry).incarnation ≡ none
unfolding released store_watchers
released-none entry = refl

pub clear_alias-IsAgreed :
    (values : ℕ → Any) (early : ℕ → ℕ → Type 0) (e : ℕ) (a : Aliases)
    → IsAgreed values early a
    → IsAgreed values early (clear_alias e a)
unfolding clear_alias put_at
clear_alias-IsAgreed values early e a g =
    let apart = detach_alias e a in
    changed-IsAgreed values early e a (write_entry e (released (apart.entries e)) apart)
      (write_entry-IsLinked e (released (apart.entries e)) apart
        (released-none (apart.entries e) ∙ sym (detach_alias-none e a))
        (detach_alias-IsLinked e a g.linked))
      (λ k d. rw d (detach_other e k a d))
      (rw (==_refl e) (released-IsTold values (early e) (apart.entries e))) g

pub clear_others-IsAgreed :
    (values : ℕ → Any) (early : ℕ → ℕ → Type 0) (current : Option ℕ) (publisher group : Bytes)
    (names : List (Bytes × ℕ)) (a : Aliases)
    → IsAgreed values early a
    → IsAgreed values early (clear_others current publisher group names a)
unfolding clear_others
clear_others-IsAgreed values early current publisher group [] a g = g
clear_others-IsAgreed values early current publisher group ((k, e) ∷ names) a g =
    clear_others-IsAgreed values early current publisher group names _ (
      if_cases (IsAgreed values early)
        (is_at e current || not (published_by publisher group (a.entries e))) a (clear_alias e a)
        (λ _. g) (λ _. clear_alias-IsAgreed values early e a g))

-- A name that is new.
new_name-IsLinked :
    (alias : Bytes) (empty : Any) (a : Aliases)
    → IsLinked a
    → IsLinked (entry_of alias empty none a).1
unfolding put_at
new_name-IsLinked alias empty a l = record {
  forward = λ k i f. elim (same_slot n k) [
    | inl c ↦ let nothing : none ≡ some i = rw (← c, ==_refl n) at f in absurd cc
    | inr d ↦ l.forward k i (rw d at f)
  ];
  back = λ k i m.
      let points = l.back k i m in
      elim (same_slot n k) [
        | inl c ↦
            let nothing = l.fresh n not_yet in
            let here : (a.entries n).incarnation ≡ some i = rw (← c) at points in absurd cc
        | inr d ↦ rw d points
      ];
  fresh = λ k f. elim (same_slot n k) [
    | inl c ↦ rw (← c, ==_refl n) refl
    | inr d ↦ let before : ltb k n ≡ false = ground (arith, f) in rw d (l.fresh k before)
  ];
  named = λ key k f. elim (same_key key alias) [
    | inl c ↦
        let there : find alias (store alias n a.names) ≡ some k = rw c at f in
        let stored = find-store alias n a.names in let same : n ≡ k = cc in rw (← same) next
    | inr d ↦
        let before = l.named key k (sym (find-store_other alias key n a.names d) ∙ f) in
        ground (arith, before)
  ];
}
  where
    n : ℕ
    n = a.next_entry

    not_yet : ltb n n ≡ false
    not_yet = ground arith

    next : ltb n (n + 1) ≡ true
    next = ground arith

pub entry_of-IsAgreed :
    (values : ℕ → Any) (early : ℕ → ℕ → Type 0) (alias : Bytes) (empty : Any) (o : Option ℕ)
    (a : Aliases)
    → find alias a.names ≡ o
    → IsAgreed values early a
    → IsAgreed values early (entry_of alias empty o a).1
      × (ltb (entry_of alias empty o a).0 (entry_of alias empty o a).1.next_entry ≡ true)
unfolding put_at
entry_of-IsAgreed values early alias empty (some e) a f g = (g, g.linked.named alias e f)
entry_of-IsAgreed values early alias empty none a f g =
    let n = a.next_entry in
    (
      changed-IsAgreed values early n a (entry_of alias empty none a).1
          (new_name-IsLinked alias empty a g.linked) (λ k d. rw d refl) (rw (==_refl n) tt) g,
      next n,
    )
  where
    next : (n : ℕ) → ltb n (n + 1) ≡ true
    next n = ground arith

is_at_lem : (i : ℕ) (o : Option ℕ) → is_at i o ≡ true → o ≡ some i
is_at_lem i none q = cc
is_at_lem i (some k) q = ap some (sym ((==_iff i k).0 q))

pub bind_entry-here : (e i : ℕ) (a : Aliases) → ((bind_entry e i a).entries e).incarnation ≡ some i
unfolding bind_entry put_at
bind_entry-here e i a = elim (Bool-cases (is_at i (a.entries e).incarnation)) [
  | inl q ↦ rw q (is_at_lem i (a.entries e).incarnation q)
  | inr q ↦ rw q (rw (==_refl e) refl)
]

pub bind_entry-other :
    (e i k : ℕ) (a : Aliases) → (e == k) ≡ false → (bind_entry e i a).entries k ≡ a.entries k
unfolding bind_entry put_at
bind_entry-other e i k a d = elim (Bool-cases (is_at i (a.entries e).incarnation)) [
  | inl q ↦ rw q refl
  | inr q ↦ rw q (rw d (detach_other e k a d))
]

pub publish_entry-IsAgreed :
    (values : ℕ → Any) (early : ℕ → ℕ → Type 0) (e i : ℕ) (publisher group : Bytes) (a : Aliases)
    → ltb e a.next_entry ≡ true
    → IsAgreed values early a
    → IsAgreed values early (publish_entry e i (values i) publisher group a)
unfolding publish_entry put_at
publish_entry-IsAgreed values early e i publisher group a n g =
    let there = bind_entry e i a in
    let entry = record (there.entries e) { publisher = publisher; group = group } in
    changed-IsAgreed values early e a (write_entry e (store_watchers (values i) entry) there)
      (write_entry-IsLinked e (store_watchers (values i) entry) there
        (store_incarnation (values i) entry) (bind_entry-IsLinked e i a n g.linked))
      (λ k d. rw d (bind_entry-other e i k a d))
      (rw (==_refl e) (store_watchers-IsTold values (early e) i entry (bind_entry-here e i a))) g
