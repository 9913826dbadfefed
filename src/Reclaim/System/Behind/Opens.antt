-- ===== src/Reclaim/System/Behind/Opens.antt =====
-- reclaim/table.go: the closers and the disposed incarnations after an Open or the end of a holder.
use traefik_middleware_utili.Prelude.{
  ℕ, Bool-cases, Bytes, List, Option, arith, false, inl, inr, none, refl, some, true, ◌+◌, ◌==◌,
  ◌∷◌, ◌≡◌, ltb,
}
use traefik_middleware_utili.Prelude.Int.{pos, ◌==ℤ◌, ◌-ℤ◌}
use traefik_middleware_utili.Keys.{find}
use traefik_middleware_utili.Reclaim.Values.{put_at}
use traefik_middleware_utili.Reclaim.Table.{
  SlotState, drop_in, lookup_open, make_ready, one_more, open_found, open_mapped, release_holder,
  slot_asleep, slot_awake, slot_busy, slot_gone, unmap, write_slot,
}
use traefik_middleware_utili.Reclaim.System.{Work, sleeping, Picked, System}
use traefik_middleware_utili.Reclaim.System.{open_once, after_open, release, after_drop}
use traefik_middleware_utili.Reclaim.System.Behind.{
  Behind, EveryWork, EveryWork-Picked, enforces, framed-EveryWork, hooks_put, writes-IsFramed,
}

abbrev pub IsBehind : System → Type 0
IsBehind s = EveryWork (Behind s) s.works

-- The goroutines but the one that makes the step.
pub rest-Behind :
    (w : Work) (rest : List Work) (s : System)
    → Picked w s.works rest
    → IsBehind s
    → EveryWork (Behind s) rest
rest-Behind w rest s p b = (EveryWork-Picked (Behind s) w s.works rest p b).1

new_one-IsBehind :
    (key : Bytes) (s : System)
    → IsBehind s
    → IsBehind (after_open key (open_found key none s.table).0 (open_found key none s.table).1 s)
unfolding write_slot put_at
new_one-IsBehind key s b =
    let t = after_open key (open_found key none s.table).0 (open_found key none s.table).1 s in
    (
      tt,
      framed-EveryWork s t s.works
          (record {
            same_opened = λ j m. rw (apart j m) refl;
            still_made = λ j m. later_made j m;
            same_hooks = λ j m. rw (enforces, apart j m) refl;
          })
          b,
    )
  where
    apart : (j : ℕ) → ltb j s.table.next_slot ≡ true → (s.table.next_slot == j) ≡ false
    apart j m = ground (arith, m)

    later_made : (j : ℕ) → ltb j s.table.next_slot ≡ true → ltb j (s.table.next_slot + 1) ≡ true
    later_made j m = ground (arith, m)

open_mapped-IsBehind :
    (key : Bytes) (i : ℕ) (s : System) (q : SlotState)
    → IsBehind s
    → IsBehind (after_open key (open_mapped key i q s.table).0 (open_mapped key i q s.table).1 s)
unfolding open_mapped write_slot unmap make_ready
open_mapped-IsBehind key i s slot_awake b =
    let t =
      after_open key (open_mapped key i slot_awake s.table).0
        (open_mapped key i slot_awake s.table).1 s in
    framed-EveryWork s t s.works
      (writes-IsFramed s t refl refl
        (λ j. hooks_put i (one_more (s.table.slots i)) s.table.slots j refl))
      b
open_mapped-IsBehind key i s slot_asleep b =
    let t =
      after_open key (open_mapped key i slot_asleep s.table).0
        (open_mapped key i slot_asleep s.table).1 s in
    (
      tt,
      framed-EveryWork s t s.works
          (writes-IsFramed s t refl refl (λ j.
            hooks_put i
              (record (one_more (make_ready (s.table.slots i))) {
                state = slot_busy;
                grace_timer = false;
              })
              s.table.slots j refl))
          b,
    )
open_mapped-IsBehind key i s slot_busy b = b
open_mapped-IsBehind key i s slot_gone b =
    let t =
      after_open key (open_mapped key i slot_gone s.table).0 (open_mapped key i slot_gone s.table).1
        s in
    framed-EveryWork s t s.works (writes-IsFramed s t refl refl (λ j. refl)) b

pub open_once-IsBehind : (key : Bytes) (s : System) → IsBehind s → IsBehind (open_once key s)
unfolding open_once lookup_open
open_once-IsBehind key s b = go (find key s.table.items)
  where
    go :
        (o : Option ℕ)
        → IsBehind (after_open key (open_found key o s.table).0 (open_found key o s.table).1 s)
    go none = new_one-IsBehind key s b
    go (some i) = open_mapped-IsBehind key i s (s.table.slots i).state b

pub release-IsBehind : (i : ℕ) (s : System) → IsBehind s → IsBehind (release i s)
unfolding release release_holder write_slot
release-IsBehind i s b = (
  tt,
  framed-EveryWork s (release i s) s.works
      (writes-IsFramed s (release i s) refl refl (λ j.
        hooks_put i (record (s.table.slots i) { holders = (s.table.slots i).holders -ℤ pos 1 })
          s.table.slots j refl))
      b,
)

pub drop_in-IsBehind :
    (i : ℕ) (rest : List Work) (s : System) (q : SlotState)
    → EveryWork (Behind s) rest
    → IsBehind (after_drop i (drop_in i q s.table).0 (drop_in i q s.table).1 rest s)
unfolding write_slot make_ready
drop_in-IsBehind i rest s slot_busy b = (tt, b)
drop_in-IsBehind i rest s slot_asleep b = b
drop_in-IsBehind i rest s slot_gone b = b
drop_in-IsBehind i rest s slot_awake b = elim (Bool-cases ((s.table.slots i).holders ==ℤ pos 0)) [
  | inl z ↦
      let t = record s {
        table = write_slot i (record (make_ready (s.table.slots i)) { state = slot_busy }) s.table;
        works = sleeping i ∷ rest;
      } in
      rw z (
        tt,
        framed-EveryWork s t rest
            (writes-IsFramed s t refl refl (λ j.
              hooks_put i (record (make_ready (s.table.slots i)) { state = slot_busy })
                s.table.slots j refl))
            b,
      )
  | inr z ↦ rw z b
]
