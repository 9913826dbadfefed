-- ===== src/Reclaim/Aliases/Unbound.antt =====
-- reclaim/alias.go: the links and what the watchers were told, after the end of an incarnation.
use mathlib.Core.Path.{subst}
use traefik_middleware_utili.Prelude.{
  ℕ, Bool, Bool-cases, List, Option, [], false, if◌then◌else◌, inl, inr, none, refl, some, true,
  ◌==◌, ◌∷◌, ◌≡◌, sym, ◌∙◌, ltb,
}
use traefik_middleware_utili.Reclaim.Values.{Any, member, put_at}
use traefik_middleware_utili.Reclaim.Aliases.{
  Aliases, released, unbind_each, unbind_incarnation, write_entry,
}
use traefik_middleware_utili.Reclaim.System.Counts.{==_refl, ==_swap, same_slot}
use traefik_middleware_utili.Reclaim.Aliases.Told.{IsTold, released-IsTold}
use traefik_middleware_utili.Reclaim.Aliases.Links.{IsLinked}
use traefik_middleware_utili.Reclaim.Aliases.Agreed.{IsAgreed, released-none}

unbind_each-IsTold :
    (values : ℕ → Any) (early : ℕ → ℕ → Type 0) (es : List ℕ) (a : Aliases)
    → ((k : ℕ) → IsTold values (early k) (a.entries k))
    → (k : ℕ) → IsTold values (early k) ((unbind_each es a).entries k)
unfolding unbind_each put_at
unbind_each-IsTold values early [] a t = t
unbind_each-IsTold values early (e ∷ es) a t =
    unbind_each-IsTold values early es (write_entry e (released (a.entries e)) a) (λ k.
      elim (same_slot e k) [
        | inl c ↦
            subst (λ k. IsTold values (early k) (put_at e (released (a.entries e)) a.entries k)) c
              (rw (==_refl e) (released-IsTold values (early e) (a.entries e)))
        | inr d ↦ rw d (t k)
      ])

-- What is left of the links after `unbind_each`.
record IsUnbound (es : List ℕ) (a b : Aliases) : Type 0 where
  same_bound : b.bound ≡ a.bound
  same_next : b.next_entry ≡ a.next_entry
  same_names : b.names ≡ a.names
  left :
      (k : ℕ)
      → (b.entries k).incarnation ≡ (if member k es then none else (a.entries k).incarnation)

unbind_each-IsUnbound : (es : List ℕ) (a : Aliases) → IsUnbound es a (unbind_each es a)
unfolding unbind_each put_at member
unbind_each-IsUnbound [] a = record {
  same_bound = refl;
  same_next = refl;
  same_names = refl;
  left = λ k. refl;
}
unbind_each-IsUnbound (e ∷ es) a =
    let rest = unbind_each-IsUnbound es (write_entry e (released (a.entries e)) a) in
    record {
      same_bound = rest.same_bound;
      same_next = rest.same_next;
      same_names = rest.same_names;
      left = λ k. elim (same_slot e k) [
        | inl c ↦
            rest.left k
            ∙ subst
                (λ k.
                  (if member k es
                    then none
                    else (put_at e (released (a.entries e)) a.entries k).incarnation)
                  ≡ (if member k (e ∷ es) then none else (a.entries k).incarnation))
                c (rw (==_refl e) (rw (released-none (a.entries e)) (both_none (member e es))))
        | inr d ↦ rest.left k ∙ rw (==_swap k e ∙ d) (rw d refl)
      ];
    }
  where
    both_none : (b : Bool) → ◌≡◌ {A = Option ℕ} (if b then none else none) none
    both_none true = refl
    both_none false = refl

unbind-IsLinked : (i : ℕ) (a : Aliases) → IsLinked a → IsLinked (unbind_incarnation i a)
unfolding unbind_incarnation put_at member
unbind-IsLinked i a l =
    let u = unbind_each-IsUnbound (a.bound i) (record a { bound = put_at i [] a.bound }) in
    record {
      forward = λ k j f. rw u.same_bound (forward k j (sym (u.left k) ∙ f));
      back = λ k j m. u.left k ∙ back k j (rw u.same_bound at m);
      fresh = λ k f. u.left k ∙ fresh k (member k (a.bound i)) (rw u.same_next at f);
      named = λ key k f. rw u.same_next (l.named key k (rw u.same_names at f));
    }
  where
    differ : (j : ℕ) → (i == j) ≡ false → i ≡ j → ⊥
    differ j d c = let hit : (i == j) ≡ true = rw (← c) (==_refl i) in cc

    forward :
        (k j : ℕ)
        → (if member k (a.bound i) then none else (a.entries k).incarnation) ≡ some j
        → member k (put_at i [] a.bound j) ≡ true
    forward k j f = elim (Bool-cases (member k (a.bound i))) [
      | inl q ↦ let nothing : none ≡ some j = rw q at f in absurd cc
      | inr q ↦
          let points : (a.entries k).incarnation ≡ some j = rw q at f in
          let listed = l.forward k j points in
          elim (same_slot i j) [
            | inl c ↦ let here : member k (a.bound i) ≡ true = rw (← c) at listed in absurd cc
            | inr d ↦ rw d listed
          ]
    ]

    back :
        (k j : ℕ)
        → member k (put_at i [] a.bound j) ≡ true
        → (if member k (a.bound i) then none else (a.entries k).incarnation) ≡ some j
    back k j m = elim (same_slot i j) [
      | inl c ↦ let nothing : false ≡ true = rw (← c, ==_refl i) at m in absurd cc
      | inr d ↦
          let points = l.back k j (rw d at m) in
          elim (Bool-cases (member k (a.bound i))) [
            | inl q ↦ let there = l.back k i q in let same : i ≡ j = cc in absurd (differ j d same)
            | inr q ↦ rw q points
          ]
    ]

    fresh :
        (k : ℕ) (b : Bool)
        → ltb k a.next_entry ≡ false
        → (if b then none else (a.entries k).incarnation) ≡ none
    fresh k true f = refl
    fresh k false f = l.fresh k f

pub unbind-IsAgreed :
    (values : ℕ → Any) (early : ℕ → ℕ → Type 0) (i : ℕ) (a : Aliases)
    → IsAgreed values early a
    → IsAgreed values early (unbind_incarnation i a)
unfolding unbind_incarnation
unbind-IsAgreed values early i a g = record {
  linked = unbind-IsLinked i a g.linked;
  told =
      unbind_each-IsTold values early (a.bound i) (record a { bound = put_at i [] a.bound }) g.told;
}
