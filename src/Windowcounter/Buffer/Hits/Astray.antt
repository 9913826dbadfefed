-- ===== src/Windowcounter/Buffer/Hits/Astray.antt =====
-- windowcounter/limiter.go: no hit is lost when a flush drops a window from the map.
use traefik_middleware_utili.Windowcounter.Buffer.Hits.Mapped.{
  mapped, write-IsStray, get-IsStray, mark-IsStray, drop-IsStray,
}
use traefik_middleware_utili.Windowcounter.Buffer.Hits.Conserved.{IsConserved, Counted-IsConserved}
use traefik_middleware_utili.Prelude.Result.{ok}
use traefik_middleware_utili.Windowcounter.Buffer.Flush.{Job, after_eval, not_flushed}
use traefik_middleware_utili.Keys.{find}
use traefik_middleware_utili.Prelude.{
  ℕ, Bool-cases, List, ap, if◌then◌else◌, inl, inr, length, refl, some, sym, true, ◌==◌, ◌∙◌, ◌≡◌,
  ◌≢◌, ==_iff, arith, ◌+◌, ◌<◌,
}
use traefik_middleware_utili.Prelude.Int.{ℤ}
use traefik_middleware_utili.Windowcounter.Buffer.{window, write, change, nth, raise_to}
use traefik_middleware_utili.Windowcounter.Buffer.Heap.{nth-change, nth-change_other}
use traefik_middleware_utili.Windowcounter.Buffer.Hits.{
  Counting, is_mapped, IsPicked, maps_to, Counted, HitStep, Picked-IsPicked, by_drop, by_failed,
  by_get, by_hit, by_mark, by_note, by_raise, by_sent, none_counted, nothing_counted, stray_hit,
  then_step,
}
use traefik_middleware_utili.Windowcounter.Limiter.{hit}
use traefik_middleware_utili.Windowcounter.Buffer.Flush.{settle}

-- The local delta of a place that the map does not have is the strays on it.
abbrev pub IsStray : Counting → ℕ → Type 0
IsStray c i = c.stray i ≡ (if is_mapped i c.buffer then 0 else (window i c.buffer).local_delta)

hit-IsStray :
    (i j : ℕ) (c : Counting)
    → i < length c.buffer.heap
    → IsStray c j
    → IsStray
        (record c { buffer = write i hit c.buffer; taken = c.taken + 1; stray = stray_hit i c })
        j
hit-IsStray i j c bound s = elim (Bool-cases (i == j)) [
  | inl e ↦
      let same : i ≡ j = (==_iff i j).0 e in
      let changed : (nth j (change i hit c.buffer.heap)).local_delta
          ≡ (nth j c.buffer.heap).local_delta + 1 =
        ap (λ k. (nth k (change i hit c.buffer.heap)).local_delta) (sym same)
        ∙ ap (λ w. w.local_delta) (nth-change i hit c.buffer.heap bound)
        ∙ ap (λ k. (nth k c.buffer.heap).local_delta + 1) same in
      let mapped_both = ap (λ k. is_mapped k c.buffer) same in
      elim (Bool-cases (is_mapped j c.buffer)) [
        | inl q ↦ rw (mapped_both ∙ q, q) (rw q at s)
        | inr q ↦ rw (mapped_both ∙ q, q, e, changed) (ap (λ n. n + 1) (rw q at s))
      ]
  | inr e ↦
      let apart : j ≢ i = λ q. let hit_same : (i == j) ≡ true = (==_iff i j).1 (sym q) in cc in
      let unchanged = ap (λ w. w.local_delta) (nth-change_other i j hit c.buffer.heap apart) in
      elim (Bool-cases (is_mapped i c.buffer)) [
        | inl q ↦ rw (q, unchanged) s
        | inr q ↦ rw (q, e, unchanged) s
      ]
]

sent-IsStray :
    (now : ℕ) (job : Job) (n : ℤ) (rest : List Job) (c : Counting) (j : ℕ)
    → IsPicked c.buffer job rest
    → IsStray c j
    → IsStray
        (record c {
          buffer = settle now job (ok n) c.buffer;
          jobs = rest;
          sent = c.sent + job.delta;
        })
        j
unfolding settle
sent-IsStray now job n rest c j p s =
    let i = p.picked.place in
    rw p.picked.there (elim (Bool-cases (i == j)) [
      | inl e ↦
          let there : find job.redis_key c.buffer.windows ≡ some j =
            p.picked.there ∙ ap some ((==_iff i j).0 e) in
          let hit = mapped job.redis_key j c.buffer there in rw hit (rw hit at s)
      | inr e ↦
          let apart : j ≢ i = λ q. let hit_same : (i == j) ≡ true = (==_iff i j).1 (sym q) in cc in
          rw
            (ap (λ w. w.local_delta)
              (nth-change_other i j (after_eval n job.delta) c.buffer.heap apart))
            s
    ])

HitStep-IsStray :
    (c d : Counting) → HitStep c d → IsConserved c → (j : ℕ) → IsStray c j → IsStray d j
unfolding settle
HitStep-IsStray _ _ (by_hit i c l) k j s = hit-IsStray i j c l s
HitStep-IsStray _ _ (by_raise i e c) k j s =
    write-IsStray i j (raise_to e) c.buffer (c.stray j) (λ w. ground arith) s
HitStep-IsStray _ _ (by_get key known e c) k j s = get-IsStray key known e c.buffer j (c.stray j) s
HitStep-IsStray _ _ (by_mark key c) k j s = mark-IsStray key c.buffer j (c.stray j) s
HitStep-IsStray _ _ (by_sent now job n rest c p) k j s =
    sent-IsStray now job n rest c j (Picked-IsPicked c.buffer job c.jobs rest p k.shaped) s
HitStep-IsStray _ _ (by_failed now job e rest c p) k j s =
    let picked = Picked-IsPicked c.buffer job c.jobs rest p k.shaped in
    rw picked.picked.there
      (write-IsStray picked.picked.place j not_flushed c.buffer (c.stray j) (λ w. refl) s)
HitStep-IsStray _ _ (by_drop now_unix key c) k j s =
    drop-IsStray now_unix key c.buffer j (c.stray j) s
HitStep-IsStray _ _ (by_note l c p q) k j s = rw (p, q) s

-- The account of the hits, with those on windows that the map has dropped.
pub record IsAccounted (c : Counting) : Type 0 where
  pub conserved : IsConserved c
  pub strays : (j : ℕ) → IsStray c j

-- Through every interleaving of the locked sections of Take, Peek and the flushes: the hits taken
-- are the local deltas and those in flushes that came back without an error; no window has more in
-- flight than is local; each flush that is out is the one of its key's window; and the local delta
-- of a window that the map does not have is exactly the hits taken on it while the map did not
-- have it, so that dropping a window loses no hit.
pub Counted-IsAccounted : (c : Counting) → Counted c → IsAccounted c
unfolding maps_to nth
Counted-IsAccounted _ none_counted = record {
  conserved = Counted-IsConserved nothing_counted none_counted;
  strays = λ j. refl;
}
Counted-IsAccounted _ (then_step c d counted step) =
    let before = Counted-IsAccounted c counted in
    record {
      conserved = Counted-IsConserved d (then_step c d counted step);
      strays = λ j. HitStep-IsStray c d step before.conserved j (before.strays j);
    }
