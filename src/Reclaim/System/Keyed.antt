-- ===== src/Reclaim/System/Keyed.antt =====
-- reclaim/table.go: the keys that the end of a hook keeps, and those that it gives up.
use mathlib.Core.Path.{subst}
use traefik_middleware_utili.Keys.{find, store}
use traefik_middleware_utili.Keys.Laws.{find-store, find-store_other, same_key}
use traefik_middleware_utili.Prelude.{
  ℕ, Bytes, List, Option, ◌∷◌, ◌≡◌, refl, arith, false, true, ltb, ◌==◌, some, inl, inr, Bool-cases,
  sym, ◌∙◌, ◌+◌, ◌&&◌, if_cases,
}
use traefik_middleware_utili.Reclaim.Values.{Any, put_at}
use traefik_middleware_utili.Reclaim.Aliases.{is_at}
use traefik_middleware_utili.Reclaim.Table.{
  Hooks, unmap, write_slot, publish_put, publish_wake, end_busy_slot, unbind, close_channel, gone,
  install_closer, park_asleep, armed_at, unmapped_at,
}
use traefik_middleware_utili.Reclaim.System.{
  Work, System, Picked, creating, waking, sleeping, closing, created, create_failed, woke,
  end_busy_after_panic, behind_closer, ended_first, slept, parked, after_park, one_close,
}
use traefik_middleware_utili.Reclaim.System.Counts.{owner, ==_refl, same_slot}
use traefik_middleware_utili.Reclaim.System.Steps.{IsKept}
use traefik_middleware_utili.Reclaim.System.Mapped.{
  IsMapped, stays_mapped, must_map, owner_mapped, unmap_keeps, unmap_had, fewer_keys-IsMapped,
}

-- Storing what is there changes no lookup.
pub find-store_there :
    (key other_key : Bytes) (i : ℕ) (items : List (Bytes × ℕ))
    → find key items ≡ some i
    → find other_key (store key i items) ≡ find other_key items
find-store_there key other_key i items f = elim (same_key other_key key) [
  | inl e ↦ rw e (find-store key i items ∙ sym f)
  | inr e ↦ find-store_other key other_key i items e
]

pub created-IsMapped :
    (i : ℕ) (value : Any) (hooks : Hooks) (rest : List Work) (s : System)
    → Picked (creating i) s.works rest
    → IsKept s
    → IsMapped s
    → IsMapped (created i value hooks rest s)
unfolding created publish_put write_slot put_at owner
created-IsMapped i value hooks rest s p k m =
    let mine = owner_mapped i (creating i) rest s p (==_refl i) k m in
    fewer_keys-IsMapped s (created i value hooks rest s) i refl refl
      (λ _. find-store (s.opened i) i s.table.items)
      (λ j q.
        rw q (λ l. find-store_there (s.opened i) (s.opened j) i s.table.items mine ∙ m.there j l))
      (λ key j f. sym (find-store_there (s.opened i) key i s.table.items mine) ∙ f) m

pub woke-IsMapped :
    (i : ℕ) (rest : List Work) (s : System)
    → Picked (waking i) s.works rest
    → IsKept s
    → IsMapped s
    → IsMapped (woke i rest s)
unfolding woke publish_wake write_slot put_at owner
woke-IsMapped i rest s p k m =
    fewer_keys-IsMapped s (woke i rest s) i refl refl
      (λ _. owner_mapped i (waking i) rest s p (==_refl i) k m) (λ j q. rw q (m.there j))
      (λ key j f. f) m

pub create_failed-IsMapped :
    (i : ℕ) (error : Bytes) (rest : List Work) (s : System)
    → IsMapped s
    → IsMapped (create_failed i error rest s)
unfolding create_failed end_busy_slot unbind unmap write_slot put_at close_channel gone stays_mapped
create_failed-IsMapped i error rest s m =
    fewer_keys-IsMapped s (create_failed i error rest s) i refl refl
      (rw (==_refl i) (λ l. absurd cc))
      (λ j q. rw q (λ l. unmap_keeps (s.opened i) (s.opened j) i j s.table q (m.there j l)))
      (λ key j f. unmap_had (s.opened i) key i j s.table f) m

ended_first-IsMapped :
    (i : ℕ) (create_err : Option Bytes) (rest : List Work) (s : System)
    → IsMapped s
    → IsMapped (ended_first i create_err rest s)
unfolding ended_first end_busy_slot unbind unmap write_slot put_at close_channel gone stays_mapped
ended_first-IsMapped i create_err rest s m =
    fewer_keys-IsMapped s (ended_first i create_err rest s) i refl refl
      (rw (==_refl i) (λ l. absurd cc))
      (λ j q. rw q (λ l. unmap_keeps (s.opened i) (s.opened j) i j s.table q (m.there j l)))
      (λ key j f. unmap_had (s.opened i) key i j s.table f) m

-- A new slot, mapped to a key that no slot needs but `i`, which is gone.
behind_closer-IsMapped :
    (i : ℕ) (create_err : Option Bytes) (rest : List Work) (s : System)
    → find (s.opened i) s.table.items ≡ some i
    → IsMapped s
    → IsMapped (behind_closer i create_err rest s)
unfolding behind_closer install_closer unbind write_slot put_at gone stays_mapped
behind_closer-IsMapped i create_err rest s mine m = record {
  there = λ j. elim (same_slot c j) [
    | inl e ↦
        subst
          (λ j.
            must_map ((behind_closer i create_err rest s).table.slots j) ≡ true
            → find ((behind_closer i create_err rest s).opened j)
                (store (s.opened i) c s.table.items)
              ≡ some j)
          e (rw (==_refl c) (λ _. find-store (s.opened i) c s.table.items))
    | inr q ↦ elim (same_slot i j) [
      | inl e ↦
          subst
            (λ j.
              must_map ((behind_closer i create_err rest s).table.slots j) ≡ true
              → find ((behind_closer i create_err rest s).opened j)
                  (store (s.opened i) c s.table.items)
                ≡ some j)
            e (rw (not_new, ==_refl i) (λ l. absurd cc))
      | inr r ↦
          rw (q, r)
            (λ l.
              let before = m.there j l in
              find-store_other (s.opened i) (s.opened j) c s.table.items
                (λ e. differ j r (rw e at before))
              ∙ before)
    ]
  ];
  keyed = λ key j f. elim (same_key key (s.opened i)) [
    | inl e ↦
        let at_key : find (s.opened i) (store (s.opened i) c s.table.items) ≡ some j = rw e at f in
        let stored = find-store (s.opened i) c s.table.items in
        let same : c ≡ j = cc in rw (← same, ==_refl c) (sym e, next)
    | inr d ↦
        let before =
          m.keyed key j (sym (find-store_other (s.opened i) key c s.table.items d) ∙ f) in
        let other : (c == j) ≡ false = ground (arith, before.1) in
        let still : ltb j (c + 1) ≡ true = ground (arith, before.1) in rw other (before.0, still)
  ];
}
  where
    c : ℕ
    c = s.table.next_slot

    not_new : (c == i) ≡ false
    not_new = let made = (m.keyed (s.opened i) i mine).1 in ground (arith, made)

    next : ltb c (c + 1) ≡ true
    next = ground arith

    differ : (j : ℕ) → (i == j) ≡ false → find (s.opened i) s.table.items ≡ some j → ⊥
    differ j r f =
        let same : i ≡ j = cc in let hit : (i == j) ≡ true = rw (← same) (==_refl i) in cc

pub after_panic-IsMapped :
    (i : ℕ) (create_err : Option Bytes) (rest : List Work) (s : System)
    → find (s.opened i) s.table.items ≡ some i
    → IsMapped s
    → IsMapped (end_busy_after_panic i create_err rest s)
unfolding end_busy_after_panic
after_panic-IsMapped i create_err rest s mine m =
    if_cases IsMapped (s.table.slots i).hooks.enforce_close_before_open
      (behind_closer i create_err rest s) (ended_first i create_err rest s)
      (λ _. behind_closer-IsMapped i create_err rest s mine m)
      (λ _. ended_first-IsMapped i create_err rest s m)

parked-IsMapped :
    (i : ℕ) (rest : List Work) (s : System)
    → find (s.opened i) s.table.items ≡ some i
    → ((s.table.slots i).hooks.enforce_close_before_open && s.table.grace == 0) ≡ false
    → IsMapped s
    → IsMapped (parked i rest s)
unfolding parked park_asleep write_slot put_at close_channel stays_mapped unmap
parked-IsMapped i rest s mine z m =
    let here : is_at i (find (s.opened i) s.table.items) ≡ true = rw mine (==_refl i) in
    rw here (elim (Bool-cases (s.table.grace == 0)) [
      | inl q ↦ rw q (
          fewer_keys-IsMapped s (after_park i (false, unmapped_at (s.opened i) i s.table) rest s) i
            refl refl (rw (==_refl i) (λ l. absurd (clash l q)))
            (λ j r.
              rw r (λ l.
                rw here at (unmap_keeps (s.opened i) (s.opened j) i j s.table r (m.there j l))))
            (λ key j f. unmap_had (s.opened i) key i j s.table (rw here f)) m)
      | inr q ↦ rw q (
          fewer_keys-IsMapped s (after_park i (true, armed_at i s.table) rest s) i refl refl
            (λ _. mine) (λ j r. rw r (m.there j)) (λ key j f. f) m)
    ])
  where
    clash :
        (s.table.slots i).hooks.enforce_close_before_open ≡ true → (s.table.grace == 0) ≡ true → ⊥
    clash l q = let bad : (true && true) ≡ false = rw (l, q) at z in cc

pub slept-IsMapped :
    (i : ℕ) (rest : List Work) (s : System)
    → Picked (sleeping i) s.works rest
    → IsKept s
    → IsMapped s
    → IsMapped (slept i rest s)
unfolding slept owner
slept-IsMapped i rest s p k m =
    if_cases IsMapped ((s.table.slots i).hooks.enforce_close_before_open && s.table.grace == 0)
      (record s { works = closing i ∷ rest; closes = one_close i s }) (parked i rest s)
      (λ _. record { there = m.there; keyed = m.keyed })
      (λ z. parked-IsMapped i rest s (owner_mapped i (sleeping i) rest s p (==_refl i) k m) z m)
