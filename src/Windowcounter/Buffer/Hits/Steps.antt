-- ===== src/Windowcounter/Buffer/Hits/Steps.antt =====
-- windowcounter/limiter.go: each step on the windows keeps their shape.
use traefik_middleware_utili.Keys.{erase, find}
use traefik_middleware_utili.Keys.Laws.{
  find-erase, find-erase_other, find-store, find-store_other, same_key,
}
use traefik_middleware_utili.Prelude.{
  ℕ, Bool-cases, Bytes, List, Option, ap, arith, inl, inr, length, ltb, none, refl, some, sym, ◌&&◌,
  ◌==◌, ◌∙◌, ◌≡◌, ◌≢◌, ◌⊎◌,
}
use traefik_middleware_utili.Prelude.Int.{ℤ}
use traefik_middleware_utili.Windowcounter.Buffer.{
  Buffer, WindowState, apply_found, apply_get, learn, nth, raise_to, window, write,
}
use traefik_middleware_utili.Windowcounter.Buffer.Flush.{
  Job, drop_window, drop_found, in_flight, is_over, mark, mark_found, with_job,
}
use traefik_middleware_utili.Windowcounter.Buffer.Heap.{
  HasEnough, Writing, enough-change, length-append_one, length-change, nth-append_before,
  nth-append_cases, nth-change, nth-change_other,
}
use traefik_middleware_utili.Windowcounter.Buffer.Hits.{
  Every-map, Every-zip, IsOpen, IsPicked, IsShaped, write-IsShaped,
}

raise_same : (e : ℕ) (w : WindowState) → (raise_to e w).flush_delta ≡ w.flush_delta
raise_same e w = ground arith

pub raise-IsShaped :
    (i e : ℕ) (l : Buffer) (jobs : List Job)
    → IsShaped l jobs
    → IsShaped (write i (raise_to e) l) jobs
raise-IsShaped i e l jobs =
    write-IsShaped i (raise_to e) l jobs (λ w enough. ground (arith, enough)) (raise_same e)

pub learn_raised : ℤ → ℕ → Writing
learn_raised known e w = learn known (raise_to e w)

-- A new window, for a key that the map does not have.
module _ (key : Bytes) (known : ℤ) (e : ℕ) (l : Buffer) (jobs : List Job) (s : IsShaped l jobs)
    (fresh : find key l.windows ≡ none) where
  abbrev grown : Buffer
  grown = (apply_found key known e l none).1

  found_place :
      (k : Bytes) (i : ℕ)
      → find k grown.windows ≡ some i
      → ((k ≡ key) × (i ≡ length l.heap)) ⊎ (find k l.windows ≡ some i)
  found_place k i q = elim (same_key k key) [
    | inl r ↦
        let there = find-store key (length l.heap) l.windows in
        let at_key : find key grown.windows ≡ some i = rw r at q in inl (r, cc)
    | inr d ↦ inr (sym (find-store_other key k (length l.heap) l.windows d) ∙ q)
  ]

  grown-IsShaped : IsShaped grown jobs
  grown-IsShaped = record {
    in_heap = λ k i q. elim (found_place k i q) [
      | inl r ↦ omega (arith, r.1, length-append_one l.heap _)
      | inr r ↦ omega (arith, s.in_heap k i r, length-append_one l.heap _)
    ];
    one_key = λ k k' i q q'. elim (found_place k i q) [
      | inl r ↦ elim (found_place k' i q') [
        | inl r' ↦ r'.0 ∙ sym r.0
        | inr r' ↦ absurd (omega (arith, r.1, s.in_heap k' i r'))
      ]
      | inr r ↦ elim (found_place k' i q') [
        | inl r' ↦ absurd (omega (arith, r'.1, s.in_heap k i r))
        | inr r' ↦ s.one_key k k' i r r'
      ]
    ];
    enough = nth-append_cases HasEnough l.heap _ (omega arith) s.enough;
    open_jobs =
        Every-map (IsOpen l) (IsOpen grown) jobs
          (λ j o. record {
            place = o.place;
            there =
                find-store_other key j.redis_key (length l.heap) l.windows
                  (λ q. let missing : find key l.windows ≡ some o.place = rw q at o.there in cc)
                ∙ o.there;
            same_delta =
                ap (λ w. w.flush_delta)
                  (nth-append_before o.place l.heap _ (s.in_heap j.redis_key o.place o.there))
                ∙ o.same_delta;
            some_hits = o.some_hits;
          })
          s.open_jobs;
    apart_jobs = s.apart_jobs;
  }

pub apply_get-IsShaped :
    (key : Bytes) (known : ℤ) (e : ℕ) (l : Buffer) (jobs : List Job)
    → IsShaped l jobs
    → IsShaped (apply_get key known e l).1 jobs
unfolding apply_get
apply_get-IsShaped key known e l jobs s = go (find key l.windows) refl
  where
    go : (o : Option ℕ) → find key l.windows ≡ o → IsShaped (apply_found key known e l o).1 jobs
    go none q = grown-IsShaped key known e l jobs s q
    go (some i) q =
        write-IsShaped i (λ w. learn known (raise_to e w)) l jobs
          (λ w enough. ground (arith, enough)) (λ w. ground arith) s

-- The place of an open job is that of its key alone.
place_differs :
    (l : Buffer) (jobs : List Job) (key : Bytes) (i : ℕ) (j : Job) (o : IsOpen l j)
    → IsShaped l jobs
    → find key l.windows ≡ some i
    → j.redis_key ≢ key
    → o.place ≢ i
place_differs l jobs key i j o s q d r = d (s.one_key key j.redis_key i q (o.there ∙ ap some r))

-- A window with nothing in flight has no job.
no_job :
    (l : Buffer) (key : Bytes) (i : ℕ) (j : Job)
    → find key l.windows ≡ some i
    → (nth i l.heap).flush_delta ≡ 0
    → IsOpen l j
    → j.redis_key ≢ key
no_job l key i j q z o e =
    let there : find key l.windows ≡ some o.place = rw e at o.there in
    let same : i ≡ o.place = cc in
    let in_flight_none : (nth o.place l.heap).flush_delta ≡ 0 = rw same at z in
    absurd (omega (arith, in_flight_none, o.same_delta, o.some_hits))

-- Jobs of other keys stay open through a write.
still-IsOpen :
    (l : Buffer) (jobs : List Job) (key : Bytes) (i : ℕ) (f : Writing) (j : Job)
    → IsShaped l jobs
    → find key l.windows ≡ some i
    → IsOpen l j
    → j.redis_key ≢ key
    → IsOpen (write i f l) j
still-IsOpen l jobs key i f j s q o d = record {
  place = o.place;
  there = o.there;
  same_delta =
      ap (λ w. w.flush_delta)
        (nth-change_other i o.place f l.heap (place_differs l jobs key i j o s q d))
      ∙ o.same_delta;
  some_hits = o.some_hits;
}

pub mark-IsShaped :
    (key : Bytes) (l : Buffer) (jobs : List Job)
    → IsShaped l jobs
    → IsShaped (mark key l).1 (with_job (mark key l).0 jobs)
unfolding mark
mark-IsShaped key l jobs s = go (find key l.windows) refl
  where
    go :
        (o : Option ℕ)
        → find key l.windows ≡ o
        → IsShaped (mark_found key l o).1 (with_job (mark_found key l o).0 jobs)
    go none q = s
    go (some i) q =
        elim (Bool-cases (ltb 0 (window i l).local_delta && (window i l).flush_delta == 0)) [
          | inr r ↦ rw r s
          | inl r ↦
              let nothing : (nth i l.heap).flush_delta ≡ 0 = ground (arith, r) in
              let changed = nth-change i in_flight l.heap (s.in_heap key i q) in
              rw r (record {
                in_heap = λ k j p. rw (length-change i in_flight l.heap) (s.in_heap k j p);
                one_key = s.one_key;
                enough = enough-change i in_flight l.heap (λ w enough. omega arith) s.enough;
                open_jobs = (
                  record {
                    place = i;
                    there = q;
                    same_delta = ap (λ w. w.flush_delta) changed;
                    some_hits = ground (arith, r);
                  },
                  Every-map (IsOpen l) (IsOpen (write i in_flight l)) jobs
                      (λ j o.
                        still-IsOpen l jobs key i in_flight j s q o (no_job l key i j q nothing o))
                      s.open_jobs,
                );
                apart_jobs = (
                  Every-map (IsOpen l) (λ j. j.redis_key ≢ key) jobs
                      (λ j o. no_job l key i j q nothing o) s.open_jobs,
                  s.apart_jobs,
                );
              })
        ]

-- A flush that is over leaves nothing in flight.
pub over-IsShaped :
    (f : Writing) (l : Buffer) (jobs : List Job) (j : Job) (rest : List Job)
    → ((w : WindowState) → (f w).flush_delta ≡ 0)
    → IsShaped l jobs
    → (p : IsPicked l j rest) → IsShaped (write p.picked.place f l) rest
over-IsShaped f l jobs j rest zero_after s p =
    let i = p.picked.place in
    record {
      in_heap = λ k n q. rw (length-change i f l.heap) (s.in_heap k n q);
      one_key = s.one_key;
      enough = enough-change i f l.heap (λ w enough. omega (arith, zero_after w)) s.enough;
      open_jobs =
          Every-zip (IsOpen l) (λ k. k.redis_key ≢ j.redis_key) (IsOpen (write i f l)) rest
            (λ k o d. still-IsOpen l jobs j.redis_key i f k s p.picked.there o d) p.others
            p.other_keys;
      apart_jobs = p.apart_rest;
    }

pub drop_window-IsShaped :
    (now_unix : ℕ) (key : Bytes) (l : Buffer) (jobs : List Job)
    → IsShaped l jobs
    → IsShaped (drop_window now_unix key l) jobs
unfolding drop_window
drop_window-IsShaped now_unix key l jobs s = go (find key l.windows) refl
  where
    erased : (k : Bytes) (i : ℕ) → find k (erase key l.windows) ≡ some i → find k l.windows ≡ some i
    erased k i q = elim (same_key k key) [
      | inl r ↦
          let gone : find key (erase key l.windows) ≡ none = find-erase key l.windows in
          let still : find key (erase key l.windows) ≡ some i = rw r at q in cc
      | inr d ↦ sym (find-erase_other key k l.windows d) ∙ q
    ]

    go : (o : Option ℕ) → find key l.windows ≡ o → IsShaped (drop_found now_unix key l o) jobs
    go none q = s
    go (some i) q = elim (Bool-cases (is_over now_unix (window i l))) [
      | inr r ↦ rw r s
      | inl r ↦
          let nothing : (nth i l.heap).flush_delta ≡ 0 = ground (arith, r) in
          rw r (record {
            in_heap = λ k n p. s.in_heap k n (erased k n p);
            one_key = λ k k' n p p'. s.one_key k k' n (erased k n p) (erased k' n p');
            enough = s.enough;
            open_jobs =
                Every-map (IsOpen l) (IsOpen (record l { windows = erase key l.windows })) jobs
                  (λ j o. record {
                    place = o.place;
                    there =
                        find-erase_other key j.redis_key l.windows (no_job l key i j q nothing o)
                        ∙ o.there;
                    same_delta = o.same_delta;
                    some_hits = o.some_hits;
                  })
                  s.open_jobs;
            apart_jobs = s.apart_jobs;
          })
    ]
