-- ===== src/Reclaim/System/Behind/Locks.antt =====
-- reclaim/table.go: the closers and the disposed incarnations after the sections under the lock.
use traefik_middleware_utili.Prelude.{
  ℕ, Bool, List, false, if◌then◌else◌, if_cases, not, refl, true, ◌&&◌, ◌==◌, ◌∷◌, ◌≡◌, ◌∙◌, ltb,
}
use traefik_middleware_utili.Prelude.Int.{pos, ◌==ℤ◌}
use traefik_middleware_utili.Keys.{find}
use traefik_middleware_utili.Reclaim.Aliases.{is_at}
use traefik_middleware_utili.Reclaim.Table.{
  Table, armed_at, asleep_at, claim_expire, close_channel, expire_idle, expire_skip, gone,
  is_asleep, make_ready, park_asleep, slot_asleep, slot_busy, unbind, unmap, unmap_locked,
  unmapped_at, write_slot,
}
use traefik_middleware_utili.Reclaim.System.{Work, closing, System}
use traefik_middleware_utili.Reclaim.System.Counts.{load_of}
use traefik_middleware_utili.Reclaim.System.Steps.{IsKept}
use traefik_middleware_utili.Reclaim.System.{
  after_dispose, one_close, slept, parked, after_park, expire, after_expire, unmapped, readied,
  unbound,
}
use traefik_middleware_utili.Reclaim.System.Behind.{
  Behind, EveryWork, IsFramed, enforces, framed-EveryWork, hooks_put, writes-IsFramed,
}
use traefik_middleware_utili.Prelude.{
  ℕ, Bool, List, false, true, ◌≡◌, ◌∷◌, refl, ◌&&◌, if_cases, ◌∙◌, not, if◌then◌else◌, ◌==◌, ltb,
}
use traefik_middleware_utili.Reclaim.System.Behind.Opens.{IsBehind}
use traefik_middleware_utili.Reclaim.System.Starts.{made_of}
use traefik_middleware_utili.Reclaim.System.Locked.{is_asleep_lem, and_left}

asleep-IsFramed :
    (i : ℕ) (p : Bool) (t : Table) (rest : List Work) (s : System)
    → t.slots ≡ (asleep_at i s.table).slots
    → t.next_slot ≡ s.table.next_slot
    → IsFramed s (after_park i (p, t) rest s)
unfolding write_slot close_channel
asleep-IsFramed i p t rest s e n = writes-IsFramed s (after_park i (p, t) rest s) refl n (λ j.
    rw e (
      hooks_put i
        (close_channel (s.table.slots i).ready (record (s.table.slots i) { state = slot_asleep }))
        s.table.slots j refl))

parked-IsBehind :
    (i : ℕ) (rest : List Work) (s : System) → EveryWork (Behind s) rest → IsBehind (parked i rest s)
unfolding parked park_asleep write_slot close_channel
parked-IsBehind i rest s b =
    if_cases (λ r. IsBehind (after_park i r rest s))
      (not (is_at i (find (s.opened i) s.table.items))) (false, asleep_at i s.table)
      (if s.table.grace == 0
        then (false, unmapped_at (s.opened i) i s.table)
        else (true, armed_at i s.table))
      (λ _. (
        tt,
        framed-EveryWork s _ rest (asleep-IsFramed i false (asleep_at i s.table) rest s refl refl)
            b,
      ))
      (λ _.
        if_cases (λ r. IsBehind (after_park i r rest s)) (s.table.grace == 0)
          (false, unmapped_at (s.opened i) i s.table) (true, armed_at i s.table)
          (λ _. (
            tt,
            framed-EveryWork s _ rest
                (asleep-IsFramed i false (unmapped_at (s.opened i) i s.table) rest s refl refl) b,
          ))
          (λ _. framed-EveryWork s _ rest armed b))
  where
    armed : IsFramed s (after_park i (true, armed_at i s.table) rest s)
    armed = writes-IsFramed s (after_park i (true, armed_at i s.table) rest s) refl refl (λ j.
        hooks_put i (record ((asleep_at i s.table).slots i) { grace_timer = true })
          (asleep_at i s.table).slots j refl
        ∙ hooks_put i
            (close_channel (s.table.slots i).ready
              (record (s.table.slots i) { state = slot_asleep }))
            s.table.slots j refl)

pub slept-IsBehind :
    (i : ℕ) (rest : List Work) (s : System) → EveryWork (Behind s) rest → IsBehind (slept i rest s)
unfolding slept
slept-IsBehind i rest s b =
    let t = record s { works = closing i ∷ rest; closes = one_close i s } in
    if_cases IsBehind (enforces s i && s.table.grace == 0) t (parked i rest s)
      (λ _. (tt, framed-EveryWork s t rest (writes-IsFramed s t refl refl (λ j. refl)) b))
      (λ _. parked-IsBehind i rest s b)

expire_idle-IsBehind :
    (i : ℕ) (e : Bool) (rest : List Work) (s : System)
    → enforces s i ≡ e
    → ltb i s.table.next_slot ≡ true
    → EveryWork (Behind s) rest
    → IsBehind (
        after_expire i
          (expire_idle (s.opened i) i e s.table).0
          (expire_idle (s.opened i) i e s.table).1
          rest
          s)
unfolding write_slot make_ready unmap gone
expire_idle-IsBehind i true rest s q m b =
    let t =
      after_expire i (expire_idle (s.opened i) i true s.table).0
        (expire_idle (s.opened i) i true s.table).1 rest s in
    (
      tt,
      framed-EveryWork s t rest
          (writes-IsFramed s t refl refl (λ j.
            hooks_put i (record (make_ready (s.table.slots i)) { state = slot_busy }) s.table.slots
              j refl))
          b,
    )
expire_idle-IsBehind i false rest s q m b =
    let t =
      after_expire i (expire_idle (s.opened i) i false s.table).0
        (expire_idle (s.opened i) i false s.table).1 rest s in
    let f =
      writes-IsFramed s t refl refl
        (λ j. hooks_put i (gone (s.table.slots i)) s.table.slots j refl) in
    ((f.same_hooks i m ∙ q, f.still_made i m), framed-EveryWork s t rest f b)

pub expire-IsBehind :
    (i : ℕ) (rest : List Work) (s : System)
    → IsKept s
    → EveryWork (Behind s) rest
    → IsBehind (expire i rest s)
unfolding expire claim_expire
expire-IsBehind i rest s k b =
    if_cases (λ e. IsBehind (after_expire i e.0 e.1 rest s))
      (is_asleep (s.table.slots i).state && (s.table.slots i).holders ==ℤ pos 0)
      (expire_idle (s.opened i) i (enforces s i) s.table) (expire_skip, s.table)
      (λ e.
        let asleep = is_asleep_lem (s.table.slots i).state (and_left _ _ e) in
        expire_idle-IsBehind i (enforces s i) rest s refl
          (made_of (s.table.slots i) (load_of s s.works i) (k i) (rw asleep refl)) b)
      (λ _. b)

pub unmapped-IsBehind :
    (i : ℕ) (rest : List Work) (s : System)
    → EveryWork (Behind s) rest
    → IsBehind (unmapped i rest s)
unfolding unmapped unmap_locked unbind unmap write_slot gone
unmapped-IsBehind i rest s b = (
  tt,
  framed-EveryWork s (unmapped i rest s) rest
      (writes-IsFramed s (unmapped i rest s) refl refl
        (λ j. hooks_put i (gone (s.table.slots i)) s.table.slots j refl))
      b,
)

pub readied-IsBehind :
    (i n : ℕ) (next : List Work) (s : System)
    → EveryWork (Behind s) next
    → IsBehind (readied i n next s)
unfolding readied write_slot close_channel
readied-IsBehind i n next s b =
    framed-EveryWork s (readied i n next s) next
      (writes-IsFramed s (readied i n next s) refl refl
        (λ j. hooks_put i (close_channel n (s.table.slots i)) s.table.slots j refl))
      b

pub unbound-IsBehind :
    (i : ℕ) (rest : List Work) (s : System)
    → EveryWork (Behind s) rest
    → IsBehind (unbound i rest s)
unfolding unbound unbind
unbound-IsBehind i rest s b =
    framed-EveryWork s (unbound i rest s) rest
      (writes-IsFramed s (unbound i rest s) refl refl (λ j. refl)) b

pub disposed-IsBehind :
    (i : ℕ) (expired : Bool) (rest : List Work) (s : System)
    → EveryWork (Behind s) rest
    → IsBehind (record s { works = after_dispose i expired rest })
disposed-IsBehind i true rest s b =
    let t = record s { works = after_dispose i true rest } in
    (tt, framed-EveryWork s t rest (writes-IsFramed s t refl refl (λ j. refl)) b)
disposed-IsBehind i false rest s b =
    let t = record s { works = after_dispose i false rest } in
    framed-EveryWork s t rest (writes-IsFramed s t refl refl (λ j. refl)) b
