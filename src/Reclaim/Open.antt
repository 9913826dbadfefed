-- ===== src/Reclaim/Open.antt =====
-- reclaim/table.go and reclaim/opentyped.go: what Open and OpenTyped answer before and after the
-- table is asked, Peek, SetAlias, and Reset.
pub mod Aliased
use traefik_middleware_utili.Keys.{find}
use traefik_middleware_utili.Prelude.{
  ℕ, Bool, Bytes, List, Option, [], false, if◌then◌else◌, none, some, true, ◌∷◌, ◌||◌, same_text,
  ◌++◌,
}
use traefik_middleware_utili.Prelude.Result.{Result, err, ok, ◌>>=◌}
use traefik_middleware_utili.Reclaim.Values.{Any, put_at}
use traefik_middleware_utili.Reclaim.Aliases.{
  Aliases, AliasError, no_mapped_key, publish, unbind_incarnation,
}
use traefik_middleware_utili.Reclaim.Table.{
  Table, Slot, SlotState, slot_busy, slot_awake, slot_asleep, slot_gone, gone, write_slot,
}

pub data OpenError : Type 0 where
  nil_table : OpenError
  nil_logger : OpenError
  nil_create : OpenError
  wrong_type : OpenError
  from_create : Bytes → OpenError
  from_context : Bytes → OpenError

-- The tests of `OpenWithHooks`; `Open` makes the same ones in the same order when `create` is nil.
-- Each argument is whether the table, the logger and `create` are there.
unfoldable pub open_allowed : Bool → Bool → Bool → Option OpenError
open_allowed table logger create =
    if table
    then (if logger then (if create then none else some nil_create) else some nil_logger)
    else some nil_table

unfoldable pub open_arguments : Bool → Bool → Bool → Option OpenError
open_arguments table logger create =
    if create
    then open_allowed table logger create
    else if table
    then (if logger then some nil_create else some nil_logger)
    else some nil_table

-- `openPark` after its wait: the failure of `create` or Wake that the slot is stuck with, or another
-- time around the loop.
unfoldable pub replay : Slot → Option OpenError
replay x = go x.create_err
  where
    go : Option Bytes → Option OpenError
    go none = none
    go (some e) = some (from_create e)

-- `finishBind`: the value, unless the context is done by then, and whether the holder is dropped now.
unfoldable pub finish_bind : Option Bytes → Any → Result OpenError Any × Bool
finish_bind none value = (ok value, false)
finish_bind (some e) value = (err (from_context e), true)

-- `OpenTyped`; `is_t` is the type assertion.
unfoldable pub open_typed : (Any → Bool) → Result OpenError Any → Result OpenError Any
open_typed is_t stored = stored >>= λ v. if is_t v then ok v else err wrong_type

pub data PeekState : Type 0 where
  awake : PeekState
  asleep : PeekState

unfoldable pub peek_slot : Slot → SlotState → Option (Any × PeekState)
peek_slot x slot_awake = some (x.value, awake)
peek_slot x slot_asleep = some (x.value, asleep)
peek_slot x slot_busy = none
peek_slot x slot_gone = none

abbrev pub peek_found : Table → Option ℕ → Option (Any × PeekState)
peek_found t none = none
peek_found t (some i) = peek_slot (t.slots i) (t.slots i).state

unfoldable pub peek : Bytes → Table → Option (Any × PeekState)
peek key t = peek_found t (find key t.items)

-- `SetAlias` of a slot in this state.
abbrev pub publish_slot : ℕ → SlotState → Bytes → Bytes → Bytes → Table → Result AliasError Aliases
publish_slot i slot_awake alias publisher group t =
    publish i (t.slots i).value alias publisher group t.aliases
publish_slot i slot_asleep alias publisher group t =
    publish i (t.slots i).value alias publisher group t.aliases
publish_slot i slot_busy alias publisher group t = err no_mapped_key
publish_slot i slot_gone alias publisher group t = err no_mapped_key

abbrev pub publish_found : Option ℕ → Bytes → Bytes → Bytes → Table → Result AliasError Aliases
publish_found none alias publisher group t = err no_mapped_key
publish_found (some i) alias publisher group t =
    publish_slot i (t.slots i).state alias publisher group t

-- `SetAlias`: an empty alias or key is no error, and changes nothing.
unfoldable pub set_alias : Bytes → Bytes → Bytes → Bytes → Table → Result AliasError Table
set_alias key alias publisher group t =
    if same_text alias [] || same_text key []
    then ok t
    else publish_found (find key t.items) alias publisher group t >>= λ a.
        ok (record t { aliases = a })

abbrev pub slots_of : List (Bytes × ℕ) → List ℕ
slots_of [] = []
slots_of ((key, i) ∷ items) = i ∷ slots_of items

unfoldable pub unbind_all : List ℕ → Aliases → Aliases
unbind_all [] a = a
unbind_all (i ∷ is) a = unbind_all is (unbind_incarnation i a)

unfoldable pub stop_timers : List ℕ → (ℕ → Slot) → ℕ → Slot
stop_timers [] slots = slots
stop_timers (i ∷ is) slots =
    stop_timers is (put_at i (record (slots i) { grace_timer = false }) slots)

-- The items, and the table without them.
unfoldable pub take_all : Table → List (Bytes × ℕ) × Table
take_all t = (
  t.items,
  record t {
    items = [];
    slots = stop_timers (slots_of t.items) t.slots;
    aliases = record (unbind_all (slots_of t.items) t.aliases) { names = [] };
  },
)

-- The hooks that Reset runs next for a slot: none for one that another goroutine ends.
pub data ResetHook : Type 0 where
  run_sleep : ℕ → ResetHook
  run_close : ℕ → ResetHook

abbrev pub end_in : ℕ → SlotState → Table → List ResetHook × Table
end_in i slot_awake t = (run_sleep i ∷ run_close i ∷ [], write_slot i (gone (t.slots i)) t)
end_in i slot_asleep t = (run_close i ∷ [], write_slot i (gone (t.slots i)) t)
end_in i slot_busy t = ([], t)
end_in i slot_gone t = ([], t)

unfoldable pub end_reset_slot : ℕ → Table → List ResetHook × Table
end_reset_slot i t = end_in i (t.slots i).state t

-- `Reset`: the hooks it runs, in their order, and the table it leaves.
abbrev pub reset_each : List ℕ → Table → List ResetHook × Table
reset_each [] t = ([], t)
reset_each (i ∷ is) t =
    let one = end_reset_slot i t in let rest = reset_each is one.1 in (one.0 ++ rest.0, rest.1)

unfoldable pub reset : Table → List ResetHook × Table
reset t = let taken = take_all t in reset_each (slots_of taken.0) taken.1
