-- ===== src/Reclaim/System/Rekeyed.antt =====
-- reclaim/table.go: the keys that the sections under the lock map, keep and give up.
use traefik_middleware_utili.Reclaim.System.Locked.{is_asleep_lem, and_left}
use mathlib.Core.Path.{subst}
use traefik_middleware_utili.Keys.{find, store}
use traefik_middleware_utili.Keys.Laws.{find-store, find-store_other, same_key}
use traefik_middleware_utili.Prelude.{
  ℕ, Bool, Bytes, List, Option, ◌∷◌, ◌≡◌, refl, arith, false, true, ltb, ◌==◌, some, none, inl, inr,
  Bool-cases, sym, ◌∙◌, ◌+◌, ◌&&◌, if_cases,
}
use traefik_middleware_utili.Prelude.Int.{pos, ◌==ℤ◌}
use traefik_middleware_utili.Reclaim.Values.{put_at}
use traefik_middleware_utili.Reclaim.Table.{
  SlotState, slot_busy, slot_awake, slot_asleep, slot_gone, unmap, write_slot, unbind,
  close_channel, gone, open_found, open_mapped, lookup_open, make_ready, claim_drop, drop_in,
  claim_expire, expire_idle, expire_skip, is_asleep, unmap_locked, release_holder, blank_slot,
}
use traefik_middleware_utili.Reclaim.System.{
  Work, System, sleeping, open_once, after_open, release, drop_once, after_drop, expire,
  after_expire, unmapped, readied, unbound,
}
use traefik_middleware_utili.Reclaim.System.Counts.{==_refl, same_slot}
use traefik_middleware_utili.Reclaim.System.Mapped.{
  IsMapped, stays_mapped, must_map, unmap_keeps, unmap_had, fewer_keys-IsMapped,
}

new_one-IsMapped :
    (key : Bytes) (s : System)
    → find key s.table.items ≡ none
    → IsMapped s
    → IsMapped (after_open key (open_found key none s.table).0 (open_found key none s.table).1 s)
unfolding write_slot put_at stays_mapped
new_one-IsMapped key s absent m = record {
  there = λ j. elim (same_slot c j) [
    | inl e ↦
        subst
          (λ j.
            must_map (
                put_at c (record blank_slot { state = slot_busy; finished = true }) s.table.slots j)
              ≡ true
            → find (put_at c key s.opened j) (store key c s.table.items) ≡ some j)
          e (rw (==_refl c) (λ _. find-store key c s.table.items))
    | inr q ↦ rw q (λ l.
        let before = m.there j l in
        find-store_other key (s.opened j) c s.table.items (λ e. differ j (rw e at before)) ∙ before)
  ];
  keyed = λ other_key j f. elim (same_key other_key key) [
    | inl e ↦
        let at_key : find key (store key c s.table.items) ≡ some j = rw e at f in
        let stored = find-store key c s.table.items in
        let same : c ≡ j = cc in rw (← same, ==_refl c) (sym e, next)
    | inr d ↦
        let before =
          m.keyed other_key j (sym (find-store_other key other_key c s.table.items d) ∙ f) in
        let other : (c == j) ≡ false = ground (arith, before.1) in
        let still : ltb j (c + 1) ≡ true = ground (arith, before.1) in rw other (before.0, still)
  ];
}
  where
    c : ℕ
    c = s.table.next_slot

    next : ltb c (c + 1) ≡ true
    next = ground arith

    differ : (j : ℕ) → find key s.table.items ≡ some j → ⊥
    differ j f = cc

open_mapped-IsMapped :
    (key : Bytes) (i : ℕ) (s : System) (q : SlotState)
    → (s.table.slots i).state ≡ q
    → find key s.table.items ≡ some i
    → IsMapped s
    → IsMapped (after_open key (open_mapped key i q s.table).0 (open_mapped key i q s.table).1 s)
unfolding open_mapped write_slot put_at stays_mapped unmap
open_mapped-IsMapped key i s slot_awake e f m =
    fewer_keys-IsMapped s
      (after_open key (open_mapped key i slot_awake s.table).0
        (open_mapped key i slot_awake s.table).1 s)
      i refl refl (λ _. rw (m.keyed key i f).0 f) (λ j q. rw q (m.there j)) (λ key j f. f) m
open_mapped-IsMapped key i s slot_asleep e f m =
    fewer_keys-IsMapped s
      (after_open key (open_mapped key i slot_asleep s.table).0
        (open_mapped key i slot_asleep s.table).1 s)
      i refl refl (λ _. rw (m.keyed key i f).0 f) (λ j q. rw q (m.there j)) (λ key j f. f) m
open_mapped-IsMapped key i s slot_busy e f m = record { there = m.there; keyed = m.keyed }
open_mapped-IsMapped key i s slot_gone e f m =
    fewer_keys-IsMapped s
      (after_open key (open_mapped key i slot_gone s.table).0
        (open_mapped key i slot_gone s.table).1 s)
      i refl refl (rw e (λ l. absurd cc))
      (λ j q l. unmap_keeps key (s.opened j) i j s.table q (m.there j l))
      (λ other_key j f. unmap_had key other_key i j s.table f) m

pub open_once-IsMapped : (key : Bytes) (s : System) → IsMapped s → IsMapped (open_once key s)
unfolding open_once lookup_open
open_once-IsMapped key s m = go (find key s.table.items) refl
  where
    go :
        (o : Option ℕ)
        → find key s.table.items ≡ o
        → IsMapped (after_open key (open_found key o s.table).0 (open_found key o s.table).1 s)
    go none e = new_one-IsMapped key s e m
    go (some i) e = open_mapped-IsMapped key i s (s.table.slots i).state refl e m

pub release-IsMapped : (i : ℕ) (s : System) → IsMapped s → IsMapped (release i s)
unfolding release release_holder write_slot put_at
release-IsMapped i s m =
    fewer_keys-IsMapped s (release i s) i refl refl (rw (==_refl i) (m.there i))
      (λ j q. rw q (m.there j)) (λ key j f. f) m

drop_in-IsMapped :
    (i : ℕ) (rest : List Work) (s : System) (q : SlotState)
    → (s.table.slots i).state ≡ q
    → IsMapped s
    → IsMapped (after_drop i (drop_in i q s.table).0 (drop_in i q s.table).1 rest s)
unfolding write_slot put_at stays_mapped
drop_in-IsMapped i rest s slot_busy e m = record { there = m.there; keyed = m.keyed }
drop_in-IsMapped i rest s slot_asleep e m = record { there = m.there; keyed = m.keyed }
drop_in-IsMapped i rest s slot_gone e m = record { there = m.there; keyed = m.keyed }
drop_in-IsMapped i rest s slot_awake e m = elim (Bool-cases ((s.table.slots i).holders ==ℤ pos 0)) [
  | inl z ↦ rw z (
      fewer_keys-IsMapped s
        (record s {
          table =
              write_slot i (record (make_ready (s.table.slots i)) { state = slot_busy }) s.table;
          works = sleeping i ∷ rest;
        })
        i refl refl (λ _. m.there i (rw e refl)) (λ j q. rw q (m.there j)) (λ key j f. f) m)
  | inr z ↦ rw z (record { there = m.there; keyed = m.keyed })
]

pub drop_once-IsMapped :
    (i : ℕ) (rest : List Work) (s : System) → IsMapped s → IsMapped (drop_once i rest s)
unfolding drop_once claim_drop
drop_once-IsMapped i rest s m = drop_in-IsMapped i rest s (s.table.slots i).state refl m

expire_idle-IsMapped :
    (i : ℕ) (enforce : Bool) (rest : List Work) (s : System)
    → (s.table.slots i).state ≡ slot_asleep
    → (s.table.slots i).hooks.enforce_close_before_open ≡ enforce
    → IsMapped s
    → IsMapped (
        after_expire i
          (expire_idle (s.opened i) i enforce s.table).0
          (expire_idle (s.opened i) i enforce s.table).1
          rest
          s)
unfolding write_slot put_at stays_mapped gone unmap
expire_idle-IsMapped i true rest s e h m =
    fewer_keys-IsMapped s
      (after_expire i (expire_idle (s.opened i) i true s.table).0
        (expire_idle (s.opened i) i true s.table).1 rest s)
      i refl refl (λ _. m.there i (rw (e, h) refl)) (λ j q. rw q (m.there j)) (λ key j f. f) m
expire_idle-IsMapped i false rest s e h m =
    fewer_keys-IsMapped s
      (after_expire i (expire_idle (s.opened i) i false s.table).0
        (expire_idle (s.opened i) i false s.table).1 rest s)
      i refl refl (rw (==_refl i) (λ l. absurd cc))
      (λ j q. rw q (λ l. unmap_keeps (s.opened i) (s.opened j) i j s.table q (m.there j l)))
      (λ key j f. unmap_had (s.opened i) key i j s.table f) m

pub expire-IsMapped :
    (i : ℕ) (rest : List Work) (s : System) → IsMapped s → IsMapped (expire i rest s)
unfolding expire claim_expire
expire-IsMapped i rest s m =
    if_cases (λ e. IsMapped (after_expire i e.0 e.1 rest s))
      (is_asleep (s.table.slots i).state && (s.table.slots i).holders ==ℤ pos 0)
      (expire_idle (s.opened i) i (s.table.slots i).hooks.enforce_close_before_open s.table)
      (expire_skip, s.table)
      (λ e.
        expire_idle-IsMapped i (s.table.slots i).hooks.enforce_close_before_open rest s
          (is_asleep_lem (s.table.slots i).state (and_left _ _ e)) refl m)
      (λ _. record { there = m.there; keyed = m.keyed })

pub unmapped-IsMapped :
    (i : ℕ) (rest : List Work) (s : System) → IsMapped s → IsMapped (unmapped i rest s)
unfolding unmapped unmap_locked unbind write_slot put_at stays_mapped gone unmap
unmapped-IsMapped i rest s m =
    fewer_keys-IsMapped s (unmapped i rest s) i refl refl (rw (==_refl i) (λ l. absurd cc))
      (λ j q. rw q (λ l. unmap_keeps (s.opened i) (s.opened j) i j s.table q (m.there j l)))
      (λ key j f. unmap_had (s.opened i) key i j s.table f) m

pub readied-IsMapped :
    (i n : ℕ) (rest : List Work) (s : System) → IsMapped s → IsMapped (readied i n rest s)
unfolding readied close_channel write_slot put_at
readied-IsMapped i n rest s m =
    fewer_keys-IsMapped s (readied i n rest s) i refl refl (rw (==_refl i) (m.there i))
      (λ j q. rw q (m.there j)) (λ key j f. f) m

pub unbound-IsMapped :
    (i : ℕ) (rest : List Work) (s : System) → IsMapped s → IsMapped (unbound i rest s)
unfolding unbound unbind
unbound-IsMapped i rest s m = record { there = m.there; keyed = m.keyed }
