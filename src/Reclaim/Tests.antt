-- ===== src/Reclaim/Tests.antt =====
-- reclaim: one incarnation from its creation to its Close, and an alias with a watcher.
use traefik_middleware_utili.Prelude.{◌||◌, ◌&&◌}
use traefik_middleware_utili.Reclaim.System.{readied, closing_behind, by_swapped}
use traefik_middleware_utili.Reclaim.System.Behind.{enforces}
use traefik_middleware_utili.Reclaim.System.Enforced.{Parks, Reach-Parks}
use traefik_middleware_utili.Keys.{find, store}
use traefik_middleware_utili.Prelude.{
  ℕ, Bytes, [], arith, false, none, refl, some, true, ◌∷◌, ◌≡◌, ◌≤◌, ◌<◌, ◌⊎◌, ◌+◌, same_text,
}
use traefik_middleware_utili.Prelude.Int.{pos, ◌+ℤ◌, ◌-ℤ◌}
use traefik_middleware_utili.Prelude.Result.{ok}
use traefik_middleware_utili.Reclaim.Values.{
  Any, pointer, put_at, nil, member, same_value, is_nil_value,
}
use traefik_middleware_utili.Reclaim.Aliases.{
  Aliases, no_aliases, publish, watch, clear_others, publish_entry, deliver, watch_entry,
}
use traefik_middleware_utili.Reclaim.Aliases.Runs.{
  AliasReach, AliasReach-IsAgreed, by_publish, by_watch, no_names, then_alias,
}
use traefik_middleware_utili.Reclaim.Aliases.Agreed.{IsAgreed}
use traefik_middleware_utili.Reclaim.Open.{set_alias}
use traefik_middleware_utili.Reclaim.Aliases.Runs.{CameEarly}
use traefik_middleware_utili.Reclaim.Open.Aliased.{IsAliased, set_alias_lem}
use traefik_middleware_utili.Reclaim.Table.{Table, blank_slot, slot_awake}
use traefik_middleware_utili.Prelude.{◌||◌, ◌⊎◌, same_text, true, false}
use traefik_middleware_utili.Reclaim.Aliases.History.{Differing, deliver_all, deliver_all-Differing}
use traefik_middleware_utili.Reclaim.Table.{
  Hooks, new_table, lookup_open, publish_put, release_holder, claim_drop, write_slot, close_channel,
  make_ready, gone, unbind, install_closer,
}
use traefik_middleware_utili.Reclaim.System.{
  Reach, System, Picked, at_start, by_created, by_done, by_drop, by_open, by_slept, by_sleep_panic,
  by_timer, created, drop_once, end_busy_after_panic, behind_closer, expire, first, open_once,
  release, sleeping, slept, start, swapped, then_step, without,
}
use traefik_middleware_utili.Reclaim.System.Counts.{closer, hooked, owner, tally, debtor}
use traefik_middleware_utili.Reclaim.System.Claims.{IsHeld, Reach-IsHeld, Reach-one_hook}
use traefik_middleware_utili.Reclaim.System.Channels.{
  Reach-IsServed, Reach-closes_open, SomeWork, will_close,
}

abbrev key : Bytes
key = 107 ∷ []

abbrev enforcing : Hooks
enforcing = record { enforce_close_before_open = true }

abbrev opening_run : System
opening_run = open_once key (start (pos 5))

abbrev created_run : System
created_run = created 0 (pointer 1 7) enforcing [] opening_run

abbrev dropping_run : System
dropping_run = release 0 created_run

abbrev sleeping_run : System
sleeping_run = drop_once 0 [] dropping_run

abbrev asleep_run : System
asleep_run = slept 0 [] sleeping_run

abbrev closing_run : System
closing_run = expire 0 asleep_run.works asleep_run

abbrev panic_run : System
panic_run = end_busy_after_panic 0 none [] sleeping_run

opening_run-Reach : Reach (pos 5) opening_run
opening_run-Reach = then_step (start (pos 5)) opening_run at_start (by_open key (start (pos 5)))

created_run-Reach : Reach (pos 5) created_run
unfolding open_once lookup_open new_table find
created_run-Reach =
    then_step opening_run created_run opening_run-Reach
      (by_created 0 (pointer 1 7) enforcing [] opening_run (first []))

sleeping_run-Reach : Reach (pos 5) sleeping_run
unfolding open_once lookup_open new_table find created release member without
sleeping_run-Reach =
    then_step dropping_run sleeping_run
      (then_step created_run dropping_run created_run-Reach (by_done 0 created_run refl))
      (by_drop 0 [] dropping_run (first []))

is_sleeping : sleeping_run.works ≡ sleeping 0 ∷ []
unfolding open_once lookup_open new_table find created release member without drop_once claim_drop
    publish_put write_slot close_channel put_at release_holder ◌+ℤ◌ ◌-ℤ◌ store
is_sleeping = refl

pick_sleeping : Picked (sleeping 0) sleeping_run.works []
pick_sleeping = rw is_sleeping (first [])

closing_run-Reach : Reach (pos 5) closing_run
closing_run-Reach =
    then_step asleep_run closing_run
      (then_step sleeping_run asleep_run sleeping_run-Reach
        (by_slept 0 [] sleeping_run pick_sleeping))
      (by_timer 0 asleep_run)

panic_run-Reach : Reach (pos 5) panic_run
panic_run-Reach =
    then_step sleeping_run panic_run sleeping_run-Reach
      (by_sleep_panic 0 [] sleeping_run pick_sleeping)

is_swapped : panic_run.works ≡ swapped 0 1 1 ∷ []
unfolding open_once lookup_open new_table find created release member without drop_once claim_drop
    publish_put write_slot close_channel put_at release_holder ◌+ℤ◌ ◌-ℤ◌ store make_ready
    end_busy_after_panic behind_closer install_closer unbind gone
is_swapped = refl

created_held : member 0 created_run.holders ≡ true
unfolding created member
created_held = refl

pick_swapped : Picked (swapped 0 1 1) panic_run.works []
pick_swapped = rw is_swapped (first [])

has_to_close : will_close panic_run 0 1 (swapped 0 1 1) ≡ true
unfolding open_once lookup_open new_table find created release member without drop_once claim_drop
    publish_put write_slot close_channel put_at release_holder ◌+ℤ◌ ◌-ℤ◌ store make_ready
    end_busy_after_panic behind_closer install_closer unbind gone owner debtor
has_to_close = refl

two_slots : 0 < panic_run.table.next_slot
unfolding open_once lookup_open new_table find created release member without drop_once claim_drop
    publish_put write_slot close_channel put_at release_holder ◌+ℤ◌ ◌-ℤ◌ store make_ready
    end_busy_after_panic behind_closer install_closer unbind gone
two_slots = omega arith

one_channel : 1 ≤ (panic_run.table.slots 0).ready
unfolding open_once lookup_open new_table find created release member without drop_once claim_drop
    publish_put write_slot close_channel put_at release_holder ◌+ℤ◌ ◌-ℤ◌ store make_ready
    end_busy_after_panic behind_closer install_closer unbind gone
one_channel = omega arith

abbrev behind_run : System
behind_run = readied 0 1 (closing_behind 0 1 ∷ []) panic_run

behind_run-Reach : Reach (pos 5) behind_run
behind_run-Reach =
    then_step panic_run behind_run panic_run-Reach (by_swapped 0 1 1 [] panic_run pick_swapped)

pick_behind : Picked (closing_behind 0 1) behind_run.works []
unfolding readied
pick_behind = first []

has_to_park :
    (owner 0 (closing_behind 0 1) || (closer 0 (closing_behind 0 1) && enforces behind_run 0))
    ≡ true
unfolding open_once lookup_open new_table find created release member without drop_once claim_drop
    publish_put write_slot close_channel put_at release_holder ◌+ℤ◌ ◌-ℤ◌ store make_ready
    end_busy_after_panic behind_closer install_closer unbind gone owner closer readied
has_to_park = refl

-- The one holder of an incarnation that has just been created.
Reach-IsHeld_example : IsHeld created_run 0
Reach-IsHeld_example = Reach-IsHeld (pos 5) created_run 0 created_run-Reach created_held

-- While the Close runs that keeps the key mapped.
Reach-one_hook_example :
    (tally (hooked 0) closing_run.works + tally (closer 0) closing_run.works ≤ 1)
    × (closing_run.closes 0 ≤ 1)
Reach-one_hook_example = Reach-one_hook (pos 5) closing_run 0 closing_run-Reach

-- While the Close runs behind a closer, after Sleep has panicked.
Reach-Parks_example : Parks (behind_run.opened 0) behind_run.table
Reach-Parks_example =
    Reach-Parks (pos 5) behind_run 0 (closing_behind 0 1) [] behind_run-Reach pick_behind
      has_to_park

-- After Sleep has panicked, the channel on which Opens wait is still to be closed.
Reach-IsServed_example :
    (member 1 (panic_run.table.slots 0).closed ≡ true)
    ⊎ SomeWork (will_close panic_run 0 1) panic_run.works
Reach-IsServed_example = Reach-IsServed (pos 5) panic_run 0 1 panic_run-Reach two_slots one_channel

Reach-closes_open_example :
    (member 1 (panic_run.table.slots 0).closed ≡ false) × (tally (will_close panic_run 0 1) [] ≡ 0)
Reach-closes_open_example =
    Reach-closes_open (pos 5) panic_run 0 1 (swapped 0 1 1) [] panic_run-Reach pick_swapped
      has_to_close

abbrev values : ℕ → Any
values i = pointer 1 (i + 7)

abbrev watched : Aliases
watched = watch values key 1 true nil no_aliases

abbrev published : Aliases
published =
    publish_entry 0 0 (values 0) key key (clear_others (some 0) key key watched.names watched)

is_published : publish 0 (values 0) key key key watched ≡ ok published
unfolding publish watch find store same_text put_at deliver watch_entry same_value is_nil_value
is_published = refl

published-Reach : AliasReach values published
published-Reach =
    then_alias watched published
      (then_alias no_aliases watched no_names (by_watch key 1 true nil no_aliases))
      (by_publish 0 key key key watched published is_published)

has_name : same_text [] key ≡ false
unfolding same_text
has_name = refl

-- A watcher that came before the value was published.
AliasReach-IsAgreed_example : IsAgreed values (CameEarly published published-Reach) published
AliasReach-IsAgreed_example = AliasReach-IsAgreed values published published-Reach

-- A table whose key is mapped to an awake slot, and whose name has a watcher.
abbrev mapped_table : Table
mapped_table = record {
  grace = 5;
  items = (key, 0) ∷ [];
  slots = λ i. record blank_slot { value = values 0; state = slot_awake };
  next_slot = 1;
  aliases = watched;
}

is_set : set_alias key key key key mapped_table ≡ ok (record mapped_table { aliases = published })
unfolding set_alias publish watch find store same_text put_at deliver watch_entry same_value
    is_nil_value
is_set = refl

set_alias_lem_example :
    (((same_text key [] || same_text key []) ≡ true)
      × (record mapped_table { aliases = published } ≡ mapped_table))
    ⊎ (((same_text key [] || same_text key []) ≡ false)
        × IsAliased key key key key mapped_table (record mapped_table { aliases = published }))
set_alias_lem_example =
    set_alias_lem key key key key mapped_table (record mapped_table { aliases = published })
      has_name is_set

deliver_all-Differing_example :
    Differing
      (deliver_all
        (nil ∷ pointer 1 7 ∷ pointer 2 7 ∷ nil ∷ pointer 1 8 ∷ [])
        (record { identity = 1; changed = true; last = nil; told = [] })).told
deliver_all-Differing_example =
    deliver_all-Differing (nil ∷ pointer 1 7 ∷ pointer 2 7 ∷ nil ∷ pointer 1 8 ∷ []) 1
