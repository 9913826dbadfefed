-- ===== src/Reclaim/System/Behind/Hooks.antt =====
-- reclaim/table.go: the closers and the disposed incarnations after the end of a hook.
use traefik_middleware_utili.Prelude.{
  ℕ, Bool-cases, Bytes, List, Option, [], arith, false, if_cases, inl, inr, refl, some, true, ◌+◌,
  ◌==◌, ◌∷◌, ◌≡◌, ◌∙◌, ltb, suc, ap,
}
use traefik_middleware_utili.Reclaim.Values.{Any, put_at}
use traefik_middleware_utili.Reclaim.Table.{
  Hooks, close_channel, end_busy_slot, gone, install_closer, publish_put, publish_wake, slot_awake,
  unbind, unmap, write_slot,
}
use traefik_middleware_utili.Reclaim.System.{
  Work, creating, waking, dropping, sleeping, expiring, closing, swapped, closing_behind, readying,
  disposing, unbinding, Picked, System,
}
use traefik_middleware_utili.Reclaim.System.Counts.{
  closer, hooked, load_of, tally, ==_refl, ==_swap,
}
use traefik_middleware_utili.Reclaim.System.Kept.{Kept}
use traefik_middleware_utili.Reclaim.System.Steps.{IsKept, pick-Kept}
use traefik_middleware_utili.Reclaim.System.{
  created, create_failed, woke, behind_closer, ended_first, end_busy_after_panic,
}
use traefik_middleware_utili.Reclaim.System.Behind.{
  Behind, EveryWork, IsFramed, enforces, framed-EveryWork, hooks_put, writes-IsFramed,
}
use traefik_middleware_utili.Reclaim.System.Behind.Opens.{IsBehind, rest-Behind}

-- An incarnation that is being created has no Close.
no_closer :
    (i : ℕ) (ws : List Work) → tally (closer i) ws ≡ 0 → EveryWork (λ w. closer i w ≡ false) ws
unfolding tally
no_closer i [] e = tt
no_closer i (w ∷ ws) e = elim (Bool-cases (closer i w)) [
  | inl q ↦ let one : suc (tally (closer i) ws) ≡ 0 = rw q at e in absurd (omega (arith, one))
  | inr q ↦ (q, no_closer i ws (rw q at e))
]

-- `publish_put` writes the hooks of `i`.
put-Behind :
    (i : ℕ) (value : Any) (hooks : Hooks) (rest : List Work) (s : System) (w : Work)
    → closer i w ≡ false
    → Behind s w
    → Behind (created i value hooks rest s) w
unfolding created publish_put write_slot put_at closer
put-Behind i value hooks rest s (creating k) c b = tt
put-Behind i value hooks rest s (waking k) c b = tt
put-Behind i value hooks rest s (dropping k) c b = tt
put-Behind i value hooks rest s (sleeping k) c b = tt
put-Behind i value hooks rest s (expiring k) c b = tt
put-Behind i value hooks rest s (closing k) c b = tt
put-Behind i value hooks rest s (swapped k m n) c b = b
put-Behind i value hooks rest s (closing_behind k m) c b = b
put-Behind i value hooks rest s (readying k n) c b = tt
put-Behind i value hooks rest s (disposing k e) c b = (rw (enforces, ==_swap i k ∙ c) b.0, b.1)
put-Behind i value hooks rest s (unbinding k) c b = tt

EveryWork-put :
    (i : ℕ) (value : Any) (hooks : Hooks) (rest : List Work) (s : System) (ws : List Work)
    → EveryWork (λ w. closer i w ≡ false) ws
    → EveryWork (Behind s) ws
    → EveryWork (Behind (created i value hooks rest s)) ws
EveryWork-put i value hooks rest s [] c b = tt
EveryWork-put i value hooks rest s (w ∷ ws) c b =
    (put-Behind i value hooks rest s w c.0 b.0, EveryWork-put i value hooks rest s ws c.1 b.1)

pub created-IsBehind :
    (i : ℕ) (value : Any) (hooks : Hooks) (rest : List Work) (s : System)
    → Picked (creating i) s.works rest
    → IsKept s
    → IsBehind s
    → IsBehind (created i value hooks rest s)
unfolding tally hooked closer created
created-IsBehind i value hooks rest s p k b =
    let before = pick-Kept (creating i) rest s p k i in
    let runs : tally (closer i) rest ≡ 0 = no_close before in
    EveryWork-put i value hooks rest s rest (no_closer i rest runs)
      (rest-Behind (creating i) rest s p b)
  where
    no_close : Kept (s.table.slots i) (load_of s (creating i ∷ rest) i) → tally (closer i) rest ≡ 0
    no_close before = let one = rw (==_refl i) at before.once in omega (arith, one, before.running)

-- `end_busy_slot` in a step.
ended-IsFramed :
    (i : ℕ) (create_err : Option Bytes) (s t : System)
    → t.table ≡ end_busy_slot (s.opened i) i create_err s.table
    → t.opened ≡ s.opened
    → IsFramed s t
unfolding end_busy_slot unbind unmap write_slot close_channel gone
ended-IsFramed i create_err s t e o = writes-IsFramed s t o (rw e refl) (λ j.
    let ended =
      put_at i (record (gone (s.table.slots i)) { create_err = create_err }) s.table.slots in
    rw e (
      hooks_put i (close_channel (s.table.slots i).ready (ended i)) ended j refl
      ∙ hooks_put i (record (gone (s.table.slots i)) { create_err = create_err }) s.table.slots j
          refl))

pub create_failed-IsBehind :
    (i : ℕ) (error : Bytes) (rest : List Work) (s : System)
    → Picked (creating i) s.works rest
    → IsBehind s
    → IsBehind (create_failed i error rest s)
unfolding create_failed
create_failed-IsBehind i error rest s p b =
    framed-EveryWork s (create_failed i error rest s) rest
      (ended-IsFramed i (some error) s (create_failed i error rest s) refl refl)
      (rest-Behind (creating i) rest s p b)

pub woke-IsBehind :
    (i : ℕ) (rest : List Work) (s : System)
    → Picked (waking i) s.works rest
    → IsBehind s
    → IsBehind (woke i rest s)
unfolding woke publish_wake write_slot close_channel
woke-IsBehind i rest s p b =
    framed-EveryWork s (woke i rest s) rest
      (writes-IsFramed s (woke i rest s) refl refl (λ j.
        hooks_put i
          (close_channel (s.table.slots i).ready (record (s.table.slots i) { state = slot_awake }))
          s.table.slots j refl))
      (rest-Behind (waking i) rest s p b)

-- The owner of `i` finds it made.
ended_first-IsBehind :
    (i : ℕ) (create_err : Option Bytes) (rest : List Work) (s : System)
    → enforces s i ≡ false
    → ltb i s.table.next_slot ≡ true
    → EveryWork (Behind s) rest
    → IsBehind (ended_first i create_err rest s)
unfolding ended_first
ended_first-IsBehind i create_err rest s z m b =
    let t = ended_first i create_err rest s in
    let f = ended-IsFramed i create_err s t refl refl in
    ((f.same_hooks i m ∙ z, f.still_made i m), framed-EveryWork s t rest f b)

behind_closer-IsBehind :
    (i : ℕ) (create_err : Option Bytes) (rest : List Work) (s : System)
    → ltb i s.table.next_slot ≡ true
    → EveryWork (Behind s) rest
    → IsBehind (behind_closer i create_err rest s)
unfolding behind_closer install_closer unbind write_slot put_at gone
behind_closer-IsBehind i create_err rest s m b = (
  (same_key_of, next s.table.next_slot, later_made i m),
  framed-EveryWork s (behind_closer i create_err rest s) rest
      (record {
        same_opened = λ j n. rw (apart j n) refl;
        still_made = λ j n. later_made j n;
        same_hooks = λ j n.
            rw (enforces, apart j n)
              (ap (λ h. h.enforce_close_before_open)
                (hooks_put i (record (gone (s.table.slots i)) { create_err = create_err })
                  s.table.slots j refl));
      })
      b,
)
  where
    apart : (j : ℕ) → ltb j s.table.next_slot ≡ true → (s.table.next_slot == j) ≡ false
    apart j n = ground (arith, n)

    later_made : (j : ℕ) → ltb j s.table.next_slot ≡ true → ltb j (s.table.next_slot + 1) ≡ true
    later_made j n = ground (arith, n)

    next : (c : ℕ) → ltb c (c + 1) ≡ true
    next c = ground arith

    same_key_of :
        (behind_closer i create_err rest s).opened s.table.next_slot
        ≡ (behind_closer i create_err rest s).opened i
    same_key_of = rw (==_refl s.table.next_slot, apart i m) refl

pub after_panic-IsBehind :
    (i : ℕ) (create_err : Option Bytes) (rest : List Work) (s : System)
    → ltb i s.table.next_slot ≡ true
    → EveryWork (Behind s) rest
    → IsBehind (end_busy_after_panic i create_err rest s)
unfolding end_busy_after_panic
after_panic-IsBehind i create_err rest s m b =
    if_cases IsBehind (enforces s i) (behind_closer i create_err rest s)
      (ended_first i create_err rest s) (λ _. behind_closer-IsBehind i create_err rest s m b)
      (λ z. ended_first-IsBehind i create_err rest s z m b)
