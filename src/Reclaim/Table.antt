-- ===== src/Reclaim/Table.antt =====
-- reclaim/table.go: the table and what each section under its lock does. A slot, that is an
-- incarnation, is known by a number, as a pointer is; hooks run outside the lock, and what they are
-- about is in Reclaim/System.antt. The `ready` channels of a slot are numbered in the order in which
-- it makes them.
use traefik_middleware_utili.Keys.{find, store, erase}
use traefik_middleware_utili.Prelude.{
  ℕ, Bool, Bytes, List, false, if◌then◌else◌, true, ◌&&◌, ◌==◌, ◌∷◌, Option, some, none, [], not,
  ◌+◌,
}
use traefik_middleware_utili.Prelude.Int.{ℤ, pos, ◌+ℤ◌, ◌-ℤ◌, ltb_ℤ, pos_part, ◌==ℤ◌}
use traefik_middleware_utili.Reclaim.Values.{Any, nil, put_at}
use traefik_middleware_utili.Reclaim.Aliases.{Aliases, no_aliases, unbind_incarnation, is_at}

pub data SlotState : Type 0 where
  slot_busy : SlotState
  slot_awake : SlotState
  slot_asleep : SlotState
  slot_gone : SlotState

-- The functions themselves are not in the model: what they do is a step of the system.
pub record Hooks : Type 0 where
  pub enforce_close_before_open : Bool

-- `made` numbers the current channel `ready`, and `closed` are those of its channels that have been
-- closed. `finished` tells whether that channel is there, which is whether it is open.
pub record Slot : Type 0 where
  pub value : Any
  pub hooks : Hooks
  pub create_err : Option Bytes
  pub state : SlotState
  pub holders : ℤ
  pub ready : ℕ
  pub closed : List ℕ
  pub grace_timer : Bool
  pub finished : Bool

-- `next_slot` is the number of the next slot to be made.
pub record Table : Type 0 where
  pub grace : ℕ
  pub items : List (Bytes × ℕ)
  pub slots : ℕ → Slot
  pub next_slot : ℕ
  pub aliases : Aliases

-- 10 seconds.
abbrev pub default_grace : ℕ
default_grace = 10000000000

abbrev pub blank_slot : Slot
blank_slot = record {
  value = nil;
  hooks = record { enforce_close_before_open = false };
  create_err = none;
  state = slot_gone;
  holders = pos 0;
  ready = 0;
  closed = [];
  grace_timer = false;
  finished = false;
}

-- `New`.
unfoldable pub new_table : ℤ → Table
new_table grace = record {
  grace = if ltb_ℤ grace (pos 0) then default_grace else pos_part grace;
  items = [];
  slots = λ i. blank_slot;
  next_slot = 0;
  aliases = no_aliases;
}

unfoldable pub write_slot : ℕ → Slot → Table → Table
write_slot i x t = record t { slots = put_at i x t.slots }

-- `delete` if the key is still mapped to this slot.
unfoldable pub unmap : Bytes → ℕ → Table → Table
unmap key i t = record t {
  items = if is_at i (find key t.items) then erase key t.items else t.items;
}

unfoldable pub unbind : ℕ → Table → Table
unbind i t = record t { aliases = unbind_incarnation i t.aliases }

-- `close(ready)` for the channel with this number; Go panics when it is closed already.
unfoldable pub close_channel : ℕ → Slot → Slot
close_channel n x = record x { closed = n ∷ x.closed }

-- `make` for `ready`.
unfoldable pub make_ready : Slot → Slot
make_ready x = record x { ready = x.ready + 1 }

-- `slotGone` and `closeFinished`.
unfoldable pub gone : Slot → Slot
gone x = record x { state = slot_gone; finished = false }

unfoldable pub end_busy_slot : Bytes → ℕ → Option Bytes → Table → Table
end_busy_slot key i create_err t =
    let ended = unbind i (write_slot i (record (gone (t.slots i)) { create_err = create_err }) t) in
    let free = unmap key i ended in
    write_slot i (close_channel (t.slots i).ready (free.slots i)) free

-- The channel that it returns is `ready`.
unfoldable pub unmap_locked : Bytes → ℕ → Table → Table
unmap_locked key i t = unbind i (write_slot i (gone (t.slots i)) (unmap key i t))

-- The number of the closer; `oldReady` is `ready` of the slot.
unfoldable pub install_closer : Bytes → ℕ → Option Bytes → Table → ℕ × Table
install_closer key i create_err t =
    let ended = unbind i (write_slot i (record (gone (t.slots i)) { create_err = create_err }) t) in
    let closer = ended.next_slot in
    (
      closer,
      record (write_slot closer (record blank_slot { state = slot_busy }) ended) {
        items = store key closer ended.items;
        next_slot = closer + 1;
      },
    )

-- What Open does next, with the slot that it is about.
pub data OpenStep : Type 0 where
  open_create : ℕ → OpenStep
  open_bind : ℕ → OpenStep
  open_wake : ℕ → OpenStep
  open_park : ℕ → ℕ → OpenStep
  open_retry : OpenStep

abbrev pub one_more : Slot → Slot
one_more x = record x { holders = x.holders +ℤ pos 1 }

unfoldable pub open_mapped : Bytes → ℕ → SlotState → Table → OpenStep × Table
open_mapped key i slot_awake t = (open_bind i, write_slot i (one_more (t.slots i)) t)
open_mapped key i slot_asleep t = (
  open_wake i,
  write_slot i
      (record (one_more (make_ready (t.slots i))) { state = slot_busy; grace_timer = false }) t,
)
open_mapped key i slot_busy t = (open_park i (t.slots i).ready, t)
open_mapped key i slot_gone t = (open_retry, unmap key i t)

abbrev pub open_found : Bytes → Option ℕ → Table → OpenStep × Table
open_found key (some i) t = open_mapped key i (t.slots i).state t
open_found key none t = (
  open_create t.next_slot,
  record (write_slot t.next_slot (record blank_slot { state = slot_busy; finished = true }) t) {
    items = store key t.next_slot t.items;
    next_slot = t.next_slot + 1;
  },
)

-- On a table that `New` has made.
unfoldable pub lookup_open : Bytes → Table → OpenStep × Table
lookup_open key t = open_found key (find key t.items) t

unfoldable pub publish_put : Bytes → ℕ → Any → Hooks → Table → Table
publish_put key i value hooks t =
    record (write_slot i
      (close_channel (t.slots i).ready
        (record (one_more (t.slots i)) { value = value; hooks = hooks; state = slot_awake }))
      t) { items = store key i t.items }

unfoldable pub publish_wake : ℕ → Table → Table
publish_wake i t =
    write_slot i (close_channel (t.slots i).ready (record (t.slots i) { state = slot_awake })) t

unfoldable pub release_holder : ℕ → Table → Table
release_holder i t = write_slot i (record (t.slots i) { holders = (t.slots i).holders -ℤ pos 1 }) t

pub data DropAction : Type 0 where
  drop_park : DropAction
  drop_stop : DropAction
  drop_claim : DropAction

abbrev pub drop_in : ℕ → SlotState → Table → DropAction × Table
drop_in i slot_busy t = (drop_park, t)
drop_in i slot_awake t =
    if (t.slots i).holders ==ℤ pos 0
    then (drop_claim, write_slot i (record (make_ready (t.slots i)) { state = slot_busy }) t)
    else (drop_stop, t)
drop_in i slot_asleep t = (drop_stop, t)
drop_in i slot_gone t = (drop_stop, t)

unfoldable pub claim_drop : ℕ → Table → DropAction × Table
claim_drop i t = drop_in i (t.slots i).state t

abbrev pub asleep_at : ℕ → Table → Table
asleep_at i t =
    write_slot i (close_channel (t.slots i).ready (record (t.slots i) { state = slot_asleep })) t

abbrev pub armed_at : ℕ → Table → Table
armed_at i t =
    let asleep = asleep_at i t in
    write_slot i (record (asleep.slots i) { grace_timer = true }) asleep

abbrev pub unmapped_at : Bytes → ℕ → Table → Table
unmapped_at key i t = let asleep = asleep_at i t in record asleep { items = erase key asleep.items }

-- Whether the slot is still mapped, and then its grace timer is armed.
unfoldable pub park_asleep : Bytes → ℕ → Table → Bool × Table
park_asleep key i t =
    if not (is_at i (find key t.items))
    then (false, asleep_at i t)
    else if t.grace == 0
    then (false, unmapped_at key i t)
    else (true, armed_at i t)

pub data ExpireAction : Type 0 where
  expire_skip : ExpireAction
  expire_enforce : ExpireAction
  expire_dispose : ExpireAction

abbrev pub expire_idle : Bytes → ℕ → Bool → Table → ExpireAction × Table
expire_idle key i true t =
    (expire_enforce, write_slot i (record (make_ready (t.slots i)) { state = slot_busy }) t)
expire_idle key i false t = (expire_dispose, unmap key i (write_slot i (gone (t.slots i)) t))

abbrev pub is_asleep : SlotState → Bool
is_asleep slot_asleep = true
is_asleep slot_busy = false
is_asleep slot_awake = false
is_asleep slot_gone = false

unfoldable pub claim_expire : Bytes → ℕ → Table → ExpireAction × Table
claim_expire key i t =
    if is_asleep (t.slots i).state && (t.slots i).holders ==ℤ pos 0
    then expire_idle key i (t.slots i).hooks.enforce_close_before_open t
    else (expire_skip, t)
