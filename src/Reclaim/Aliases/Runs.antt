-- ===== src/Reclaim/Aliases/Runs.antt =====
-- reclaim/alias.go: the operations on the public names, in any order, and what they keep.
use traefik_middleware_utili.Keys.{find}
use traefik_middleware_utili.Prelude.{
  ℕ, Bool, Bool-cases, Bytes, List, Option, [], inl, inr, none, refl, some, ◌||◌, ◌∷◌, ◌≡◌, ◌∙◌, ap,
}
use traefik_middleware_utili.Reclaim.Values.{Any, member, put_at}
use traefik_middleware_utili.Reclaim.Aliases.{
  AliasEntry, Aliases, detach_alias, detached, entry_of, is_at, unbind_incarnation, write_entry,
}
use traefik_middleware_utili.Reclaim.System.Counts.{==_refl}
use traefik_middleware_utili.Prelude.{not, ◌&&◌, if_cases, same_text}
use traefik_middleware_utili.Prelude.Result.{ok, err}
use traefik_middleware_utili.Reclaim.Aliases.{
  clear_alias, clear_others, clear_publisher, drop_watcher, dropped, is_held, no_aliases, publish,
  publish_entry, published_by, watch, watch_entry, without_watcher, alias_held, is_nil,
}
use traefik_middleware_utili.Reclaim.Aliases.Told.{
  watch_entry-IsTold, without_watcher-told, IsCurrent, Fills, later-IsTold,
}
use traefik_middleware_utili.Prelude.{◌⊎◌, true, false, ltb}
use traefik_middleware_utili.Reclaim.Aliases.Links.{write_entry-IsLinked}
use traefik_middleware_utili.Reclaim.Aliases.Agreed.{
  IsAgreed, changed-IsAgreed, clear_others-IsAgreed, entry_of-IsAgreed, publish_entry-IsAgreed,
}
use traefik_middleware_utili.Reclaim.Aliases.Unbound.{unbind-IsAgreed}
use traefik_middleware_utili.Reclaim.Values.{nil}

pub drop_watcher-IsAgreed :
    (values : ℕ → Any) (early : ℕ → ℕ → Type 0) (alias : Bytes) (identity : ℕ) (a : Aliases)
    → IsAgreed values early a
    → IsAgreed values early (drop_watcher alias identity a)
unfolding drop_watcher put_at
drop_watcher-IsAgreed values early alias identity a g =
    if_cases (IsAgreed values early) (same_text alias []) a
      (dropped identity (find alias a.names) a) (λ _. g) (λ _. go (find alias a.names))
  where
    go : (o : Option ℕ) → IsAgreed values early (dropped identity o a)
    go none = g
    go (some e) =
        changed-IsAgreed values early e a (dropped identity (some e) a)
          (write_entry-IsLinked e
            (record (a.entries e) { watchers = without_watcher identity (a.entries e).watchers }) a
            refl g.linked)
          (λ k d. rw d refl)
          (rw (==_refl e) (
            without_watcher-told (IsCurrent values (early e) (a.entries e)) identity
              (a.entries e).watchers (g.told e)))
          g

watched_incarnation :
    (values : ℕ → Any) (identity : ℕ) (changed : Bool) (empty : Any) (entry : AliasEntry)
    → (watch_entry values identity changed empty entry).incarnation ≡ entry.incarnation
unfolding watch_entry
watched_incarnation values identity changed empty entry =
    if_cases (λ e. e.incarnation ≡ entry.incarnation) (is_nil entry.empty && not (is_nil empty))
      (record entry { empty = empty }) entry (λ _. refl) (λ _. refl)

-- The entries that get their first empty value in a step, with those who watch them.
abbrev pub FilledIn : Aliases → Aliases → ℕ → ℕ → Type 0
FilledIn a b e k = Fills k (a.entries e) (b.entries e)

later-IsAgreed :
    (values : ℕ → Any) (early late : ℕ → ℕ → Type 0) (a : Aliases)
    → ((e k : ℕ) → early e k → late e k)
    → IsAgreed values early a
    → IsAgreed values late a
later-IsAgreed values early late a keeps g = record {
  linked = g.linked;
  told = λ e. later-IsTold values (early e) (late e) (a.entries e) (keeps e) (g.told e);
}

watched_entry :
    (values : ℕ → Any) (early late : ℕ → ℕ → Type 0) (identity : ℕ) (changed : Bool) (empty : Any)
    (e : ℕ) (a : Aliases)
    → ltb e a.next_entry ≡ true
    → ((e k : ℕ) → early e k → late e k)
    → ((k : ℕ)
        → Fills k (a.entries e) (watch_entry values identity changed empty (a.entries e))
        → late e k)
    → IsAgreed values early a
    → IsAgreed values late
        (write_entry e (watch_entry values identity changed empty (a.entries e)) a)
unfolding put_at
watched_entry values early late identity changed empty e a made keeps fills g =
    let entry = watch_entry values identity changed empty (a.entries e) in
    changed-IsAgreed values late e a (write_entry e entry a)
      (write_entry-IsLinked e entry a
        (watched_incarnation values identity changed empty (a.entries e)) g.linked)
      (λ k d. rw d refl)
      (rw (==_refl e) (
        watch_entry-IsTold values (early e) (late e) identity changed empty (a.entries e) (keeps e)
          fills (g.told e)))
      (later-IsAgreed values early late a keeps g)

pub watch-IsAgreed :
    (values : ℕ → Any) (early late : ℕ → ℕ → Type 0) (alias : Bytes) (identity : ℕ) (changed : Bool)
    (empty : Any) (a : Aliases)
    → ((e k : ℕ) → early e k → late e k)
    → ((e k : ℕ) → FilledIn a (watch values alias identity changed empty a) e k → late e k)
    → IsAgreed values early a
    → IsAgreed values late (watch values alias identity changed empty a)
unfolding watch put_at
watch-IsAgreed values early late alias identity changed empty a keeps fills g =
    elim (Bool-cases (same_text alias [])) [
      | inl q ↦ rw q (later-IsAgreed values early late a keeps g)
      | inr q ↦ rw q (go (find alias a.names) refl (λ e k f. fills e k (rw q f)))
    ]
  where
    after : Option ℕ → Aliases
    after o =
        let found = entry_of alias empty o a in
        write_entry found.0 (watch_entry values identity changed empty (found.1.entries found.0))
          found.1

    go :
        (o : Option ℕ)
        → find alias a.names ≡ o
        → ((e k : ℕ) → FilledIn a (after (find alias a.names)) e k → late e k)
        → IsAgreed values late (after o)
    go (some e) f fill =
        watched_entry values early late identity changed empty e a (g.linked.named alias e f) keeps
          (λ k h. fill e k (rw (f, ==_refl e) h)) g
    go none f fill =
        let made = entry_of-IsAgreed values early alias empty none a f g in
        watched_entry values early late identity changed empty a.next_entry
          (entry_of alias empty none a).1 made.1 keeps
          (λ k h. let nobody : false ≡ true = rw (==_refl a.next_entry) at h.0 in absurd cc) made.0

pub clear_others-names :
    (current : Option ℕ) (publisher group : Bytes) (names : List (Bytes × ℕ)) (a : Aliases)
    → (clear_others current publisher group names a).names ≡ a.names
unfolding clear_others clear_alias detach_alias
clear_others-names current publisher group [] a = refl
clear_others-names current publisher group ((k, e) ∷ names) a =
    clear_others-names current publisher group names _
    ∙ if_cases (λ b. b.names ≡ a.names)
        (is_at e current || not (published_by publisher group (a.entries e))) a (clear_alias e a)
        (λ _. refl) (λ _. go (a.entries e).incarnation)
  where
    go : (o : Option ℕ) → (detached e o a).names ≡ a.names
    go none = refl
    go (some i) = refl

pub publish-IsAgreed :
    (values : ℕ → Any) (early : ℕ → ℕ → Type 0) (i : ℕ) (alias publisher group : Bytes)
    (a b : Aliases)
    → publish i (values i) alias publisher group a ≡ ok b
    → IsAgreed values early a
    → IsAgreed values early b
unfolding publish
publish-IsAgreed values early i alias publisher group a b q g =
    elim (Bool-cases (is_held publisher (find alias a.names) a)) [
      | inl h ↦ let refused : err alias_held ≡ ok b = rw h at q in absurd cc
      | inr h ↦
          let cleared = clear_others (find alias a.names) publisher group a.names a in
          let found = entry_of alias nil (find alias a.names) cleared in
          let done : ok (publish_entry found.0 i (values i) publisher group found.1) ≡ ok b =
            rw h at q in
          let same : publish_entry found.0 i (values i) publisher group found.1 ≡ b = cc in
          let made =
            entry_of-IsAgreed values early alias nil (find alias a.names) cleared
              (ap (find alias) (clear_others-names (find alias a.names) publisher group a.names a))
              (clear_others-IsAgreed values early (find alias a.names) publisher group a.names a
                g) in
          rw (← same)
            (publish_entry-IsAgreed values early found.0 i publisher group found.1 made.1 made.0)
    ]

pub clear_publisher-IsAgreed :
    (values : ℕ → Any) (early : ℕ → ℕ → Type 0) (publisher group : Bytes) (a : Aliases)
    → IsAgreed values early a
    → IsAgreed values early (clear_publisher publisher group a)
unfolding clear_publisher
clear_publisher-IsAgreed values early publisher group a g =
    if_cases (IsAgreed values early) (same_text publisher [] || same_text group []) a
      (clear_others none publisher group a.names a) (λ _. g)
      (λ _. clear_others-IsAgreed values early none publisher group a.names a g)

-- `values` is what each incarnation was created with. A refused `SetAlias` changes nothing.
pub data AliasStep (values : ℕ → Any) : Aliases → Aliases → Type 0 where
  by_publish :
      (i : ℕ) (alias publisher group : Bytes) (a b : Aliases)
      → publish i (values i) alias publisher group a ≡ ok b
      → AliasStep values a b
  by_watch :
      (alias : Bytes) (identity : ℕ) (changed : Bool) (empty : Any) (a : Aliases)
      → AliasStep values a (watch values alias identity changed empty a)
  by_drop_watcher :
      (alias : Bytes) (identity : ℕ) (a : Aliases)
      → AliasStep values a (drop_watcher alias identity a)
  by_clear_publisher :
      (publisher group : Bytes) (a : Aliases)
      → AliasStep values a (clear_publisher publisher group a)
  by_end : (i : ℕ) (a : Aliases) → AliasStep values a (unbind_incarnation i a)

pub data AliasReach (values : ℕ → Any) : Aliases → Type 0 where
  no_names : AliasReach values no_aliases
  then_alias : (a b : Aliases) → AliasReach values a → AliasStep values a b → AliasReach values b

-- Who watched an entry when it got its first empty value, in a run.
unfoldable pub CameEarly : {values : ℕ → Any} (a : Aliases) → AliasReach values a → ℕ → ℕ → Type 0
CameEarly _ no_names e k = ⊥
CameEarly _ (then_alias a b r step) e k = CameEarly a r e k ⊎ FilledIn a b e k

AliasStep-IsAgreed :
    (values : ℕ → Any) (early late : ℕ → ℕ → Type 0) (a b : Aliases)
    → AliasStep values a b
    → ((e k : ℕ) → early e k → late e k)
    → ((e k : ℕ) → FilledIn a b e k → late e k)
    → IsAgreed values early a
    → IsAgreed values late b
AliasStep-IsAgreed values early late _ _ (by_publish i alias publisher group a b q) keeps fills g =
    later-IsAgreed values early late b keeps
      (publish-IsAgreed values early i alias publisher group a b q g)
AliasStep-IsAgreed values early late _ _ (by_watch alias identity changed empty a) keeps fills g =
    watch-IsAgreed values early late alias identity changed empty a keeps fills g
AliasStep-IsAgreed values early late _ _ (by_drop_watcher alias identity a) keeps fills g =
    later-IsAgreed values early late _ keeps (drop_watcher-IsAgreed values early alias identity a g)
AliasStep-IsAgreed values early late _ _ (by_clear_publisher publisher group a) keeps fills g =
    later-IsAgreed values early late _ keeps
      (clear_publisher-IsAgreed values early publisher group a g)
AliasStep-IsAgreed values early late _ _ (by_end i a) keeps fills g =
    later-IsAgreed values early late _ keeps (unbind-IsAgreed values early i a g)

-- Through every sequence of SetAlias, Watch, the end of watchers, ClearPublisher and the end of
-- incarnations, each with one value: an entry points at an incarnation exactly if that one lists
-- it, and each watcher was told the current value last, unless nothing or a nil value is
-- published, the watcher was told nothing, and a watcher of its identity watched the entry already
-- when the entry got its first empty value.
pub AliasReach-IsAgreed :
    (values : ℕ → Any) (a : Aliases) (r : AliasReach values a) → IsAgreed values (CameEarly a r) a
unfolding member find CameEarly
AliasReach-IsAgreed values _ no_names = record {
  linked = record {
    forward = λ e i f. cc;
    back = λ e i f. cc;
    fresh = λ e f. refl;
    named = λ key e f. cc;
  };
  told = λ e. tt;
}
AliasReach-IsAgreed values _ (then_alias a b r step) =
    AliasStep-IsAgreed values (CameEarly a r) (CameEarly b (then_alias a b r step)) a b step
      (λ e k c. inl c) (λ e k f. inr f) (AliasReach-IsAgreed values a r)
