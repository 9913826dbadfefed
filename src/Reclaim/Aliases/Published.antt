-- ===== src/Reclaim/Aliases/Published.antt =====
-- reclaim/alias.go: what SetAlias has done when it returns no error.
use traefik_middleware_utili.Keys.{find, store}
use traefik_middleware_utili.Keys.Laws.{find-store, find-store_other, same_key}
use traefik_middleware_utili.Prelude.{
  ℕ, Bool, Bool-cases, Bytes, List, Option, [], false, inl, inr, none, refl, some, true, ◌==◌, ◌||◌,
  ◌∷◌, ◌≡◌, sym, ◌∙◌, not, ◌⊎◌, if_cases, same_text, ap, ◌++◌,
}
use traefik_middleware_utili.Prelude.Result.{ok, err}
use traefik_middleware_utili.Reclaim.Values.{Any, put_at, nil}
use traefik_middleware_utili.Reclaim.Aliases.{
  AliasEntry, Aliases, alias_held, clear_alias, clear_others, is_at, is_held, publish,
  publish_entry, published_by, released, entry_of, detach_alias, store_watchers, bind_entry,
  detached,
}
use traefik_middleware_utili.Reclaim.Aliases.Agreed.{
  bind_entry-here, bind_entry-other, detach_other,
}
use traefik_middleware_utili.Reclaim.Aliases.Runs.{clear_others-names}
use mathlib.Core.Path.{subst}
use traefik_middleware_utili.Reclaim.System.Counts.{==_refl, same_slot, ==_swap}

-- What `SetAlias` leaves in the entry of the alias.
pub record IsPublished (i : ℕ) (publisher group : Bytes) (entry : AliasEntry) : Type 0 where
  pub points : entry.incarnation ≡ some i
  pub same_publisher : entry.publisher ≡ publisher
  pub same_group : entry.group ≡ group

publish_entry-IsPublished :
    (e i : ℕ) (v : Any) (publisher group : Bytes) (a : Aliases)
    → IsPublished i publisher group ((publish_entry e i v publisher group a).entries e)
unfolding publish_entry put_at store_watchers
publish_entry-IsPublished e i v publisher group a =
    rw (==_refl e)
      (record { points = bind_entry-here e i a; same_publisher = refl; same_group = refl })

publish_entry_other :
    (e i k : ℕ) (v : Any) (publisher group : Bytes) (a : Aliases)
    → (e == k) ≡ false
    → (publish_entry e i v publisher group a).entries k ≡ a.entries k
unfolding publish_entry put_at
publish_entry_other e i k v publisher group a d = rw d (bind_entry-other e i k a d)

-- A publisher with a name is not that of an entry that was cleared.
released_apart :
    (publisher group : Bytes) (entry : AliasEntry)
    → same_text [] publisher ≡ false
    → published_by publisher group (released entry) ≡ false
unfolding released store_watchers
released_apart publisher group entry z = rw z refl

-- An entry that is not the publisher's stays so when others are cleared.
clear_alias_apart :
    (publisher group : Bytes) (e k : ℕ) (a : Aliases)
    → same_text [] publisher ≡ false
    → (published_by publisher group (a.entries k) ≡ false) ⊎ ((e == k) ≡ true)
    → published_by publisher group ((clear_alias e a).entries k) ≡ false
unfolding clear_alias put_at
clear_alias_apart publisher group e k a z h = elim (same_slot e k) [
  | inl c ↦
      subst
        (λ k.
          published_by publisher group
            (put_at e (released ((detach_alias e a).entries e)) (detach_alias e a).entries k)
          ≡ false)
        c (rw (==_refl e) (released_apart publisher group ((detach_alias e a).entries e) z))
  | inr d ↦ rw d (rw (detach_other e k a d) (before d))
]
  where
    before : (e == k) ≡ false → published_by publisher group (a.entries k) ≡ false
    before d = elim h [ inl f ↦ f | inr f ↦ cc ]

clear_others_apart :
    (current : Option ℕ) (publisher group : Bytes) (names : List (Bytes × ℕ)) (k : ℕ) (a : Aliases)
    → same_text [] publisher ≡ false
    → published_by publisher group (a.entries k) ≡ false
    → published_by publisher group ((clear_others current publisher group names a).entries k)
      ≡ false
unfolding clear_others
clear_others_apart current publisher group [] k a z h = h
clear_others_apart current publisher group ((key, e) ∷ names) k a z h =
    clear_others_apart current publisher group names k _ z (
      if_cases (λ b. published_by publisher group (b.entries k) ≡ false)
        (is_at e current || not (published_by publisher group (a.entries e))) a (clear_alias e a)
        (λ _. h) (λ _. clear_alias_apart publisher group e k a z (inl h)))

clear_others_clears :
    (current : Option ℕ) (publisher group : Bytes) (names : List (Bytes × ℕ)) (key : Bytes) (k : ℕ)
    (a : Aliases)
    → same_text [] publisher ≡ false
    → find key names ≡ some k
    → is_at k current ≡ false
    → published_by publisher group ((clear_others current publisher group names a).entries k)
      ≡ false
unfolding clear_others find
clear_others_clears current publisher group [] key k a z f d = cc
clear_others_clears current publisher group ((other_key, e) ∷ names) key k a z f d =
    elim (Bool-cases (same_text key other_key)) [
      | inl q ↦
          let found : some e ≡ some k = rw q at f in
          let same : e ≡ k = cc in
          clear_others_apart current publisher group names k _ z (
            if_cases (λ b. published_by publisher group (b.entries k) ≡ false)
              (is_at e current || not (published_by publisher group (a.entries e))) a
              (clear_alias e a)
              (λ r. was_not (published_by publisher group (a.entries k)) (rw (same, d) at r))
              (λ _. clear_alias_apart publisher group e k a z (inr (rw same (==_refl k)))))
      | inr q ↦ clear_others_clears current publisher group names key k _ z (rw q at f) d
    ]
  where
    was_not : (b : Bool) → not b ≡ true → b ≡ false
    was_not true r = cc
    was_not false r = refl

-- Of the entries that have a name, no other one is the publisher's in the group.
abbrev pub IsAlone : Bytes → Bytes → Bytes → Aliases → Type 0
IsAlone alias publisher group a =
    (key : Bytes) (k : ℕ)
    → find key a.names ≡ some k
    → is_at k (find alias a.names) ≡ false
    → published_by publisher group (a.entries k) ≡ false

publish_entry-names :
    (e i : ℕ) (v : Any) (publisher group : Bytes) (a : Aliases)
    → (publish_entry e i v publisher group a).names ≡ a.names
unfolding publish_entry bind_entry detach_alias
publish_entry-names e i v publisher group a =
    if_cases (λ b. b.names ≡ a.names) (is_at i (a.entries e).incarnation) a
      (record (detach_alias e a) {
        entries =
            put_at e (record ((detach_alias e a).entries e) { incarnation = some i })
              (detach_alias e a).entries;
        bound = put_at i ((detach_alias e a).bound i ++ (e ∷ [])) (detach_alias e a).bound;
      })
      (λ _. refl) (λ _. go (a.entries e).incarnation)
  where
    go : (o : Option ℕ) → (detached e o a).names ≡ a.names
    go none = refl
    go (some j) = refl

-- The alias has its entry, and no other one is the publisher's in the group.
abbrev pub IsOnly : ℕ → Bytes → Bytes → Bytes → Aliases → Type 0
IsOnly i alias publisher group b =
    ((e : ℕ) × (find alias b.names ≡ some e) × IsPublished i publisher group (b.entries e))
    × IsAlone alias publisher group b

publish_entry-IsOnly :
    (e i : ℕ) (v : Any) (alias publisher group : Bytes) (c : Aliases)
    → find alias c.names ≡ some e
    → ((key : Bytes) (k : ℕ)
        → find key c.names ≡ some k
        → (e == k) ≡ false
        → published_by publisher group (c.entries k) ≡ false)
    → IsOnly i alias publisher group (publish_entry e i v publisher group c)
publish_entry-IsOnly e i v alias publisher group c f others =
    let names = publish_entry-names e i v publisher group c in
    let named : find alias (publish_entry e i v publisher group c).names ≡ some e =
      ap (find alias) names ∙ f in
    (
      (e, named, publish_entry-IsPublished e i v publisher group c),
      λ key k g d.
          let apart : (e == k) ≡ false = ==_swap e k ∙ (rw named at d) in
          let before = others key k (ap (find key) (sym names) ∙ g) apart in
          rw (publish_entry_other e i k v publisher group c apart) before,
    )

-- After a `publish` without an error by a publisher with a name, the entry of the alias has the
-- incarnation, the publisher and the group, and no other entry with a name is that publisher's in
-- that group.
pub publish_lem :
    (i : ℕ) (v : Any) (alias publisher group : Bytes) (a b : Aliases)
    → same_text [] publisher ≡ false
    → publish i v alias publisher group a ≡ ok b
    → IsOnly i alias publisher group b
unfolding publish put_at
publish_lem i v alias publisher group a b z q =
    elim (Bool-cases (is_held publisher (find alias a.names) a)) [
      | inl h ↦ let refused : err alias_held ≡ ok b = rw h at q in absurd cc
      | inr h ↦
          let done : ok (published_in (find alias a.names) (find alias a.names)) ≡ ok b =
            rw h at q in
          let same : published_in (find alias a.names) (find alias a.names) ≡ b = cc in
          rw (← same) (go (find alias a.names) refl)
    ]
  where
    cleared : Option ℕ → Aliases
    cleared o = clear_others o publisher group a.names a

    published_in : Option ℕ → Option ℕ → Aliases
    published_in o p =
        publish_entry (entry_of alias nil p (cleared o)).0 i v publisher group
          (entry_of alias nil p (cleared o)).1

    same_names : (o : Option ℕ) (key : Bytes) → find key (cleared o).names ≡ find key a.names
    same_names o key = ap (find key) (clear_others-names o publisher group a.names a)

    n : ℕ
    n = (cleared none).next_entry

    new :
        (key : Bytes) (k : ℕ)
        → find key (store alias n (cleared none).names) ≡ some k
        → (n == k) ≡ false
        → published_by publisher group ((entry_of alias nil none (cleared none)).1.entries k)
          ≡ false
    new key k g d = elim (same_key key alias) [
      | inl c ↦
          let there : find alias (store alias n (cleared none).names) ≡ some k = rw c at g in
          let stored = find-store alias n (cleared none).names in
          let same : n ≡ k = cc in let hit : (n == k) ≡ true = rw same (==_refl k) in absurd cc
      | inr c ↦ rw d (
          clear_others_clears none publisher group a.names key k a z
            (sym (same_names none key)
              ∙ sym (find-store_other alias key n (cleared none).names c)
              ∙ g)
            refl)
    ]

    go : (o : Option ℕ) → find alias a.names ≡ o → IsOnly i alias publisher group (published_in o o)
    go (some e) f =
        publish_entry-IsOnly e i v alias publisher group (cleared (some e))
          (same_names (some e) alias ∙ f)
          (λ key k g d.
            clear_others_clears (some e) publisher group a.names key k a z
              (sym (same_names (some e) key) ∙ g) (==_swap k e ∙ d))
    go none f =
        publish_entry-IsOnly n i v alias publisher group (entry_of alias nil none (cleared none)).1
          (find-store alias n (cleared none).names) new
