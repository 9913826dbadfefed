-- ===== src/Windowcounter/Buffer/Hits/Take.antt =====
-- windowcounter/limiter.go: a whole `takeBuffered`, when no other goroutine comes between.
use traefik_middleware_utili.Windowcounter.Sliding.{Error}
use traefik_middleware_utili.Keys.{find}
use traefik_middleware_utili.Keys.Laws.{find-store, find-store_other, same_key}
use traefik_middleware_utili.Prelude.{◌∙◌}
use traefik_middleware_utili.Prelude.{
  ℕ, Bytes, Option, arith, length, none, refl, some, ◌≡◌, ◌<◌, ◌≤◌, Bool-cases, inl, inr, ◌==◌,
}
use traefik_middleware_utili.Prelude.Int.{ℤ}
use traefik_middleware_utili.Prelude.Result.{Result, ok}
use traefik_middleware_utili.Simpleredis.Errors
use traefik_middleware_utili.Windowcounter.Buffer.{
  Buffer, Gap, apply_found, apply_get, contacted, got, learn, raise_to, buffered_count, count_of,
  counted_at, found_count, found_window, window, window_of, write,
}
use traefik_middleware_utili.Windowcounter.Buffer.Heap.{length-append_one, length-change}
use traefik_middleware_utili.Windowcounter.Buffer.Hits.{Counting, by_get, by_note, by_raise}
use traefik_middleware_utili.Windowcounter.Buffer.Hits.Conserved.{HitStep-IsConserved, IsConserved}
use traefik_middleware_utili.Windowcounter.Buffer.Hits.Whole.{
  HitRun, IsRun, go_on, stay, HitRun-trans,
}

pub HitRun-IsConserved : (c d : Counting) → HitRun c d → IsConserved c → IsConserved d
HitRun-IsConserved c _ stay k = k
HitRun-IsConserved c _ (go_on d e r s) k = HitStep-IsConserved d e s (HitRun-IsConserved c d r k)

-- A GET that Redis answers while no other goroutine comes between.
pub record IsAnswered (g : Gap (Result Errors.Error ℤ)) : Type 0 where
  pub known : ℤ
  pub answered : g.reply ≡ ok known
  pub alone : (l : Buffer) → g.others l ≡ l

-- The map keeps the places that it had.
abbrev pub Keeps : Buffer → Buffer → Type 0
Keeps l m = (k : Bytes) (i : ℕ) → find k l.windows ≡ some i → find k m.windows ≡ some i

-- The place of the key that the code has found, and what was run to find it.
pub record IsFound (key : Bytes) (c : Counting) (least : ℕ) (r : Result Error ℕ × Buffer)
    : Type 0 where
  pub place : ℕ
  pub found : r.0 ≡ ok place
  pub run : IsRun c r.1 c.jobs c.taken c.sent
  pub in_heap : place < length r.1.heap
  pub named : find key r.1.windows ≡ some place
  pub keeps : Keeps c.buffer r.1
  pub longer : least ≤ length r.1.heap

apply_get_place :
    (key : Bytes) (known : ℤ) (e : ℕ) (l : Buffer)
    → ((i : ℕ) → find key l.windows ≡ some i → i < length l.heap)
    → ((apply_get key known e l).0 < length (apply_get key known e l).1.heap)
      × (length l.heap ≤ length (apply_get key known e l).1.heap)
unfolding apply_get
apply_get_place key known e l in_heap = go (find key l.windows) refl
  where
    go :
        (o : Option ℕ)
        → find key l.windows ≡ o
        → ((apply_found key known e l o).0 < length (apply_found key known e l o).1.heap)
          × (length l.heap ≤ length (apply_found key known e l o).1.heap)
    go none q =
        (omega (arith, length-append_one l.heap _), omega (arith, length-append_one l.heap _))
    go (some i) q =
        let same = length-change i (λ w. learn known (raise_to e w)) l.heap in
        (omega (arith, same, in_heap i q), omega (arith, same))

apply_get_named :
    (key : Bytes) (known : ℤ) (e : ℕ) (l : Buffer)
    → (find key (apply_get key known e l).1.windows ≡ some (apply_get key known e l).0)
      × Keeps l (apply_get key known e l).1
unfolding apply_get
apply_get_named key known e l = go (find key l.windows) refl
  where
    go :
        (o : Option ℕ)
        → find key l.windows ≡ o
        → (find key (apply_found key known e l o).1.windows ≡ some (apply_found key known e l o).0)
          × Keeps l (apply_found key known e l o).1
    go (some i) q = (q, λ k j f. f)
    go none q = (
      find-store key (length l.heap) l.windows,
      λ k j f. elim (same_key k key) [
        | inl r ↦ let there : find key l.windows ≡ some j = rw r at f in absurd cc
        | inr d ↦ find-store_other key k (length l.heap) l.windows d ∙ f
      ],
    )

got-IsFound :
    (g : Gap (Result Errors.Error ℤ)) (key : Bytes) (e : ℕ) (c : Counting)
    → IsAnswered g
    → IsConserved c
    → IsFound key c (length c.buffer.heap) (got g key e c.buffer)
got-IsFound g key e c a k =
    let l = contacted g.now c.buffer in
    let noted = record c { buffer = l } in
    let done = record c { buffer = (apply_get key a.known e l).1 } in
    let bounds = apply_get_place key a.known e l (k.shaped.in_heap key) in
    rw (a.answered, a.alone c.buffer)
      (record {
        place = (apply_get key a.known e l).0;
        found = refl;
        run = record {
          end = done;
          run =
              go_on noted done (go_on c noted stay (by_note l c refl refl))
                (by_get key a.known e noted);
          at_buffer = refl;
          at_jobs = refl;
          at_taken = refl;
          at_sent = refl;
        };
        in_heap = bounds.0;
        named = (apply_get_named key a.known e l).0;
        keeps = (apply_get_named key a.known e l).1;
        longer = bounds.1;
      })

pub window_of-IsFound :
    (g : Gap (Result Errors.Error ℤ)) (key : Bytes) (e : ℕ) (c : Counting)
    → IsAnswered g
    → IsConserved c
    → IsFound key c 0 (window_of g key e c.buffer)
unfolding window_of
window_of-IsFound g key e c a k = go (find key c.buffer.windows) refl
  where
    go :
        (o : Option ℕ)
        → find key c.buffer.windows ≡ o
        → IsFound key c 0 (found_window g key e c.buffer o)
    go none q =
        let f = got-IsFound g key e c a k in
        record {
          place = f.place;
          found = f.found;
          run = f.run;
          in_heap = f.in_heap;
          named = f.named;
          keeps = f.keeps;
          longer = omega arith;
        }
    go (some i) q =
        let raised = record c { buffer = write i (raise_to e) c.buffer } in
        let one : HitRun c raised = go_on c raised stay (by_raise i e c) in
        let f = got-IsFound g key e raised a (HitRun-IsConserved c raised one k) in
        elim (Bool-cases ((window i raised.buffer).local_delta == 0)) [
          | inl r ↦ rw r (record {
            place = f.place;
            found = f.found;
            run = record {
              end = f.run.end;
              run = HitRun-trans c raised f.run.end one f.run.run;
              at_buffer = f.run.at_buffer;
              at_jobs = f.run.at_jobs;
              at_taken = f.run.at_taken;
              at_sent = f.run.at_sent;
            };
            in_heap = f.in_heap;
            named = f.named;
            keeps = f.keeps;
            longer = omega arith;
          })
          | inr r ↦ rw r (record {
            place = i;
            found = refl;
            run = record {
              end = raised;
              run = one;
              at_buffer = refl;
              at_jobs = refl;
              at_taken = refl;
              at_sent = refl;
            };
            in_heap = rw (length-change i (raise_to e) c.buffer.heap) (k.shaped.in_heap key i q);
            named = q;
            keeps = λ k j h. h;
            longer = omega arith;
          })
        ]

-- A count that the code has found.
pub record IsCountFound (c : Counting) (r : Result Error ℤ × Buffer) : Type 0 where
  pub count : ℤ
  pub found : r.0 ≡ ok count
  pub run : IsRun c r.1 c.jobs c.taken c.sent
  pub longer : length c.buffer.heap ≤ length r.1.heap
  pub keeps : Keeps c.buffer r.1

counted_at-IsCountFound :
    (key : Bytes) (c : Counting) (r : Result Error ℕ × Buffer)
    → IsFound key c (length c.buffer.heap) r
    → IsCountFound c (counted_at r)
counted_at-IsCountFound key c (r, l) f = rw f.found (record {
  count = count_of (window f.place l);
  found = refl;
  run = f.run;
  longer = f.longer;
  keeps = f.keeps;
})

pub buffered_count-IsCountFound :
    (g : Gap (Result Errors.Error ℤ)) (key : Bytes) (c : Counting)
    → IsAnswered g
    → IsConserved c
    → IsCountFound c (buffered_count g key c.buffer)
unfolding buffered_count
buffered_count-IsCountFound g key c a k = go (find key c.buffer.windows)
  where
    go : (o : Option ℕ) → IsCountFound c (found_count g key c.buffer o)
    go none = counted_at-IsCountFound key c (got g key 0 c.buffer) (got-IsFound g key 0 c a k)
    go (some i) = record {
      count = _;
      found = refl;
      run = record {
        end = c;
        run = stay;
        at_buffer = refl;
        at_jobs = refl;
        at_taken = refl;
        at_sent = refl;
      };
      longer = omega arith;
      keeps = λ k j h. h;
    }
