-- ===== src/Reclaim/System/Mapped.antt =====
-- reclaim/table.go: where a key is mapped to.
use mathlib.Core.Path.{subst}
use traefik_middleware_utili.Keys.{find, erase}
use traefik_middleware_utili.Keys.Laws.{find-erase, find-erase_other, same_key}
use traefik_middleware_utili.Prelude.{
  ℕ, Bool, Bytes, List, ◌≡◌, refl, arith, false, true, ltb, ◌==◌, some, inl, inr, Bool-cases, suc,
  sym, ◌∙◌,
}
use traefik_middleware_utili.Reclaim.Aliases.{is_at}
use traefik_middleware_utili.Reclaim.Table.{
  Slot, SlotState, slot_busy, slot_awake, slot_asleep, slot_gone, unmap, Table,
}
use traefik_middleware_utili.Reclaim.System.{Work, System, Picked}
use traefik_middleware_utili.Reclaim.System.Counts.{owner, tally, same_slot, tally-Picked}
use traefik_middleware_utili.Reclaim.System.Kept.{busy_flag}
use traefik_middleware_utili.Reclaim.System.Steps.{IsKept}

-- The states in which the key of a slot is mapped to it.
unfoldable pub stays_mapped : SlotState → Bool → Bool
stays_mapped slot_busy enforce = true
stays_mapped slot_awake enforce = true
stays_mapped slot_asleep enforce = enforce
stays_mapped slot_gone enforce = false

abbrev pub must_map : Slot → Bool
must_map x = stays_mapped x.state x.hooks.enforce_close_before_open

pub record IsMapped (s : System) : Type 0 where
  pub there : (j : ℕ) → must_map (s.table.slots j) ≡ true → find (s.opened j) s.table.items ≡ some j
  pub keyed :
      (key : Bytes) (j : ℕ)
      → find key s.table.items ≡ some j
      → (s.opened j ≡ key) × (ltb j s.table.next_slot ≡ true)

-- The owner of a slot finds it busy, and so mapped.
pub owner_busy :
    (i : ℕ) (w : Work) (rest : List Work) (s : System)
    → Picked w s.works rest
    → owner i w ≡ true
    → IsKept s
    → (s.table.slots i).state ≡ slot_busy
unfolding tally
owner_busy i w rest s p o k = go (s.table.slots i).state counted
  where
    counted : suc (tally (owner i) rest) ≡ busy_flag (s.table.slots i).state
    counted = rw (tally-Picked (owner i) w s.works rest p, o) at (k i).owned

    go : (q : SlotState) → suc (tally (owner i) rest) ≡ busy_flag q → q ≡ slot_busy
    go slot_busy e = refl
    go slot_awake e = absurd (omega (arith, e))
    go slot_asleep e = absurd (omega (arith, e))
    go slot_gone e = absurd (omega (arith, e))

pub owner_mapped :
    (i : ℕ) (w : Work) (rest : List Work) (s : System)
    → Picked w s.works rest
    → owner i w ≡ true
    → IsKept s
    → IsMapped s
    → find (s.opened i) s.table.items ≡ some i
unfolding stays_mapped
owner_mapped i w rest s p o k m = m.there i (rw (owner_busy i w rest s p o k) refl)

-- What `unmap` leaves, and what it had.
pub unmap_keeps :
    (key other_key : Bytes) (i j : ℕ) (t : Table)
    → (i == j) ≡ false
    → find other_key t.items ≡ some j
    → find other_key (unmap key i t).items ≡ some j
unfolding unmap
unmap_keeps key other_key i j t d f = elim (Bool-cases (is_at i (find key t.items))) [
  | inl q ↦ elim (same_key other_key key) [
    | inl e ↦
        let at_key : find key t.items ≡ some j = rw e at f in
        let hit : (i == j) ≡ true = rw at_key at q in absurd cc
    | inr e ↦ rw q (find-erase_other key other_key t.items e ∙ f)
  ]
  | inr q ↦ rw q f
]

pub unmap_had :
    (key other_key : Bytes) (i j : ℕ) (t : Table)
    → find other_key (unmap key i t).items ≡ some j
    → find other_key t.items ≡ some j
unfolding unmap
unmap_had key other_key i j t f = elim (Bool-cases (is_at i (find key t.items))) [
  | inl q ↦
      let erased : find other_key (erase key t.items) ≡ some j = rw q at f in
      elim (same_key other_key key) [
        | inl e ↦
            let nothing = find-erase key t.items in
            let hit : find key (erase key t.items) ≡ some j = rw e at erased in absurd cc
        | inr e ↦ sym (find-erase_other key other_key t.items e) ∙ erased
      ]
  | inr q ↦ rw q at f
]

-- A step that keeps the keys, or gives some of them up.
pub fewer_keys-IsMapped :
    (s t : System) (i : ℕ)
    → t.opened ≡ s.opened
    → t.table.next_slot ≡ s.table.next_slot
    → (must_map (t.table.slots i) ≡ true → find (s.opened i) t.table.items ≡ some i)
    → ((j : ℕ)
        → (i == j) ≡ false
        → (must_map (t.table.slots j) ≡ true)
        → find (s.opened j) t.table.items ≡ some j)
    → ((key : Bytes) (j : ℕ) → find key t.table.items ≡ some j → find key s.table.items ≡ some j)
    → IsMapped s
    → IsMapped t
fewer_keys-IsMapped s t i o n here others had m = record {
  there = λ j. elim (same_slot i j) [
    | inl e ↦
        subst (λ j. must_map (t.table.slots j) ≡ true → find (t.opened j) t.table.items ≡ some j) e
          (rw o here)
    | inr q ↦ rw o (others j q)
  ];
  keyed = λ key j f. rw (o, n) (m.keyed key j (had key j f));
}
