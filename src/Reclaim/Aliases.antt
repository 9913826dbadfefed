-- ===== src/Reclaim/Aliases.antt =====
-- reclaim/alias.go: the public names. An entry and an incarnation are known by numbers, as pointers
-- are; `entries` holds what the entries contain, and `bound` the reverse links of each incarnation.
-- The loops over the map go through it in the order of its list.
pub mod Told
pub mod Links
pub mod Agreed
pub mod Unbound
pub mod Runs
pub mod History
pub mod Published
use traefik_middleware_utili.Keys.{find, store}
use traefik_middleware_utili.Prelude.{
  ℕ, Bool, Bytes, List, false, if◌then◌else◌, same_text, true, ◌&&◌, ◌==◌, ◌||◌, ◌∷◌, map, Option,
  some, none, [], not, ◌+◌, ◌++◌,
}
use traefik_middleware_utili.Prelude.Result.{Result, err, ok}
use traefik_middleware_utili.Reclaim.Values.{
  Any, nil, is_nil_value, same_value, put_at, all_but, pointer, plain,
}

-- `changed` tells whether there is a function to call, and `told` the values it was called with, the
-- last one first.
pub record Watcher : Type 0 where
  pub identity : ℕ
  pub changed : Bool
  pub last : Any
  pub told : List Any

pub record AliasEntry : Type 0 where
  pub incarnation : Option ℕ
  pub publisher : Bytes
  pub group : Bytes
  pub empty : Any
  pub watchers : List Watcher

pub record Aliases : Type 0 where
  pub names : List (Bytes × ℕ)
  pub entries : ℕ → AliasEntry
  pub next_entry : ℕ
  pub bound : ℕ → List ℕ

pub data AliasError : Type 0 where
  no_mapped_key : AliasError
  alias_held : AliasError

abbrev pub blank_entry : AliasEntry
blank_entry = record { incarnation = none; publisher = []; group = []; empty = nil; watchers = [] }

abbrev pub no_aliases : Aliases
no_aliases = record { names = []; entries = λ e. blank_entry; next_entry = 0; bound = λ i. [] }

-- `deliverLocked`: a panic of `changed` is recovered, and does not matter here.
unfoldable pub deliver : Any → Watcher → Watcher
deliver value w =
    if same_value w.last value
    then w
    else record w { last = value; told = if w.changed then value ∷ w.told else w.told }

abbrev pub shown : Any → Any → Any
shown current empty = if is_nil_value current then empty else current

unfoldable pub store_watchers : Any → AliasEntry → AliasEntry
store_watchers current entry = record entry {
  watchers = map (deliver (shown current entry.empty)) entry.watchers;
}

abbrev pub write_entry : ℕ → AliasEntry → Aliases → Aliases
write_entry e entry a = record a { entries = put_at e entry a.entries }

abbrev pub detached : ℕ → Option ℕ → Aliases → Aliases
detached e none a = a
detached e (some i) a = record a {
  entries = put_at e (record (a.entries e) { incarnation = none }) a.entries;
  bound = put_at i (all_but e (a.bound i)) a.bound;
}

unfoldable pub detach_alias : ℕ → Aliases → Aliases
detach_alias e a = detached e (a.entries e).incarnation a

-- An entry that nothing is published under, its watchers told so.
unfoldable pub released : AliasEntry → AliasEntry
released entry =
    store_watchers entry.empty (record entry { incarnation = none; publisher = []; group = [] })

-- `detachAliasLocked` has left no incarnation.
unfoldable pub clear_alias : ℕ → Aliases → Aliases
clear_alias e a = let apart = detach_alias e a in write_entry e (released (apart.entries e)) apart

unfoldable pub unbind_each : List ℕ → Aliases → Aliases
unbind_each [] a = a
unbind_each (e ∷ es) a = unbind_each es (write_entry e (released (a.entries e)) a)

unfoldable pub unbind_incarnation : ℕ → Aliases → Aliases
unbind_incarnation i a = unbind_each (a.bound i) (record a { bound = put_at i [] a.bound })

abbrev pub is_at : ℕ → Option ℕ → Bool
is_at e none = false
is_at e (some k) = e == k

-- What a publisher has in a group.
abbrev pub published_by : Bytes → Bytes → AliasEntry → Bool
published_by publisher group entry =
    same_text entry.publisher publisher && same_text entry.group group

-- The loops of `SetAlias`, which skips the entry `current`, and of `ClearPublisher`.
unfoldable pub clear_others : Option ℕ → Bytes → Bytes → List (Bytes × ℕ) → Aliases → Aliases
clear_others current publisher group [] a = a
clear_others current publisher group ((k, e) ∷ names) a =
    clear_others current publisher group names (
      if is_at e current || not (published_by publisher group (a.entries e))
      then a
      else clear_alias e a)

-- Another publisher has the entry.
abbrev pub is_held : Bytes → Option ℕ → Aliases → Bool
is_held publisher none a = false
is_held publisher (some e) a =
    not (same_text (a.entries e).publisher []) && not (same_text (a.entries e).publisher publisher)

-- The entry of a name, a new one with `empty` if there is none.
abbrev pub entry_of : Bytes → Any → Option ℕ → Aliases → ℕ × Aliases
entry_of alias empty (some e) a = (e, a)
entry_of alias empty none a = (
  a.next_entry,
  record a {
    names = store alias a.next_entry a.names;
    entries = put_at a.next_entry (record blank_entry { empty = empty }) a.entries;
    next_entry = a.next_entry + 1;
  },
)

unfoldable pub bind_entry : ℕ → ℕ → Aliases → Aliases
bind_entry e i a =
    if is_at i (a.entries e).incarnation
    then a
    else let apart = detach_alias e a in
      record apart {
        entries = put_at e (record (apart.entries e) { incarnation = some i }) apart.entries;
        bound = put_at i (apart.bound i ++ (e ∷ [])) apart.bound;
      }

unfoldable pub publish_entry : ℕ → ℕ → Any → Bytes → Bytes → Aliases → Aliases
publish_entry e i value publisher group a =
    let there = bind_entry e i a in
    write_entry e
      (store_watchers value (record (there.entries e) { publisher = publisher; group = group }))
      there

-- `SetAlias` from the test of the publisher on, for an incarnation that is mapped and has `value`.
unfoldable pub publish : ℕ → Any → Bytes → Bytes → Bytes → Aliases → Result AliasError Aliases
publish i value alias publisher group a =
    let current = find alias a.names in
    if is_held publisher current a
    then err alias_held
    else let cleared = clear_others current publisher group a.names a in
      let found = entry_of alias nil current cleared in
      ok (publish_entry found.0 i value publisher group found.1)

-- The value that `Watch` finds: that of the incarnation, unless it is nil.
abbrev pub current_of : (ℕ → Any) → Any → Option ℕ → Any
current_of values empty none = empty
current_of values empty (some i) = shown (values i) empty

abbrev pub current_value : (ℕ → Any) → AliasEntry → Any
current_value values entry = current_of values entry.empty entry.incarnation

abbrev pub is_nil : Any → Bool
is_nil nil = true
is_nil (pointer t p) = false
is_nil (plain t b) = false

-- `entry.empty` after `Watch`.
abbrev pub first_empty : Any → AliasEntry → AliasEntry
first_empty empty entry =
    if is_nil entry.empty && not (is_nil empty) then record entry { empty = empty } else entry

unfoldable pub watch_entry : (ℕ → Any) → ℕ → Bool → Any → AliasEntry → AliasEntry
watch_entry values identity changed empty entry =
    let settled = first_empty empty entry in
    let watcher =
      deliver (current_value values settled)
        (record { identity = identity; changed = changed; last = nil; told = [] }) in
    record settled { watchers = settled.watchers ++ (watcher ∷ []) }

-- `Watch` under the lock, for a new watcher; a name that is empty is ignored.
unfoldable pub watch : (ℕ → Any) → Bytes → ℕ → Bool → Any → Aliases → Aliases
watch values alias identity changed empty a =
    if same_text alias []
    then a
    else let found = entry_of alias empty (find alias a.names) a in
      write_entry found.0 (watch_entry values identity changed empty (found.1.entries found.0))
        found.1

unfoldable pub without_watcher : ℕ → List Watcher → List Watcher
without_watcher identity [] = []
without_watcher identity (w ∷ ws) =
    if w.identity == identity then without_watcher identity ws else w ∷ without_watcher identity ws

abbrev pub dropped : ℕ → Option ℕ → Aliases → Aliases
dropped identity none a = a
dropped identity (some e) a =
    write_entry e
      (record (a.entries e) { watchers = without_watcher identity (a.entries e).watchers }) a

unfoldable pub drop_watcher : Bytes → ℕ → Aliases → Aliases
drop_watcher alias identity a =
    if same_text alias [] then a else dropped identity (find alias a.names) a

unfoldable pub clear_publisher : Bytes → Bytes → Aliases → Aliases
clear_publisher publisher group a =
    if same_text publisher [] || same_text group []
    then a
    else clear_others none publisher group a.names a
