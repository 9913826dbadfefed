-- ===== src/Windowcounter/Buffer/Hits.antt =====
-- windowcounter/limiter.go: the steps that Take, Peek and the flushes of any number of goroutines
-- take on the windows, each under the lock, and what they keep. A Take that had its window before it
-- dropped the lock hits a place that the map may have dropped by then.
pub mod Steps
pub mod Conserved
pub mod Whole
pub mod Take
pub mod OneHit
pub mod Mapped
pub mod Astray
use traefik_middleware_utili.Keys.{find}
use traefik_middleware_utili.Prelude.{
  ℕ, Bool, Bytes, List, Option, [], false, if◌then◌else◌, ◌==◌, ◌||◌, length, none, some, ◌+◌, ◌<◌,
  ◌∷◌, ◌≡◌, ◌≢◌, ◌∙◌, sym,
}
use traefik_middleware_utili.Prelude.Int.{ℤ}
use traefik_middleware_utili.Prelude.Result.{err, ok}
use traefik_middleware_utili.Windowcounter.Buffer.{
  Buffer, WindowState, apply_get, nth, raise_to, window, write,
}
use traefik_middleware_utili.Windowcounter.Buffer.Flush.{Job, drop_window, mark, settle, with_job}
use traefik_middleware_utili.Windowcounter.Buffer.Heap.{
  HasEnough, Writing, enough-change, flush-change_same, length-change,
}
use traefik_middleware_utili.Windowcounter.Limiter.{hit}
use traefik_middleware_utili.Windowcounter.Sliding.{Error}

abbrev pub is_place : ℕ → Option ℕ → Bool
is_place i none = false
is_place i (some j) = j == i

-- Whether one of these keys has the place in the map.
unfoldable pub maps_to : ℕ → List (Bytes × ℕ) → List (Bytes × ℕ) → Bool
maps_to i windows [] = false
maps_to i windows ((key, j) ∷ keys) = is_place i (find key windows) || maps_to i windows keys

abbrev pub is_mapped : ℕ → Buffer → Bool
is_mapped i l = maps_to i l.windows l.windows

-- `jobs` are the flushes that have been marked and not settled; `taken` counts the hits, `sent` those
-- in an EVAL that came back without an error, and `stray` those on a place that the map does not
-- have, for each place.
pub record Counting : Type 0 where
  pub buffer : Buffer
  pub jobs : List Job
  pub taken : ℕ
  pub sent : ℕ
  pub stray : ℕ → ℕ

-- The strays after a hit on a place.
abbrev pub stray_hit : ℕ → Counting → ℕ → ℕ
stray_hit i c j =
    if is_mapped i c.buffer then c.stray j else if i == j then c.stray j + 1 else c.stray j

-- A job among others.
pub data Picked (j : Job) : List Job → List Job → Type 0 where
  first : (rest : List Job) → Picked j (j ∷ rest) rest
  later : (k : Job) (jobs rest : List Job) → Picked j jobs rest → Picked j (k ∷ jobs) (k ∷ rest)

pub data HitStep : Counting → Counting → Type 0 where
  by_hit :
      (i : ℕ) (c : Counting)
      → i < length c.buffer.heap
      → HitStep c
          (record c { buffer = write i hit c.buffer; taken = c.taken + 1; stray = stray_hit i c })
  by_raise :
      (i expire_at : ℕ) (c : Counting)
      → HitStep c (record c { buffer = write i (raise_to expire_at) c.buffer })
  by_get :
      (key : Bytes) (known : ℤ) (expire_at : ℕ) (c : Counting)
      → HitStep c (record c { buffer = (apply_get key known expire_at c.buffer).1 })
  by_mark :
      (key : Bytes) (c : Counting)
      → HitStep c (record c {
        buffer = (mark key c.buffer).1;
        jobs = with_job (mark key c.buffer).0 c.jobs;
      })
  by_sent :
      (now : ℕ) (j : Job) (n : ℤ) (rest : List Job) (c : Counting)
      → Picked j c.jobs rest
      → HitStep c
          (record c { buffer = settle now j (ok n) c.buffer; jobs = rest; sent = c.sent + j.delta })
  by_failed :
      (now : ℕ) (j : Job) (e : Error) (rest : List Job) (c : Counting)
      → Picked j c.jobs rest
      → HitStep c (record c { buffer = settle now j (err e) c.buffer; jobs = rest })
  by_drop :
      (now_unix : ℕ) (key : Bytes) (c : Counting)
      → HitStep c (record c { buffer = drop_window now_unix key c.buffer })
  by_note :
      (l : Buffer) (c : Counting)
      → l.heap ≡ c.buffer.heap
      → l.windows ≡ c.buffer.windows
      → HitStep c (record c { buffer = l })

abbrev pub nothing_counted : Counting
nothing_counted = record {
  buffer = record {
    heap = [];
    windows = [];
    last_flush_err = none;
    flush_failed_at = none;
    last_redis_ok = none;
  };
  jobs = [];
  taken = 0;
  sent = 0;
  stray = λ i. 0;
}

pub data Counted : Counting → Type 0 where
  none_counted : Counted nothing_counted
  then_step : (c d : Counting) → Counted c → HitStep c d → Counted d

-- The window of a job holds its delta as the one in flight.
pub record IsOpen (l : Buffer) (j : Job) : Type 0 where
  pub place : ℕ
  pub there : find j.redis_key l.windows ≡ some place
  pub same_delta : (window place l).flush_delta ≡ j.delta
  pub some_hits : 0 < j.delta

abbrev pub Every : (Job → Type 0) → List Job → Type 0
Every P [] = Unit {0}
Every P (j ∷ jobs) = P j × Every P jobs

abbrev pub Apart : List Job → Type 0
Apart [] = Unit {0}
Apart (j ∷ jobs) = Every (λ k. k.redis_key ≢ j.redis_key) jobs × Apart jobs

pub record IsShaped (l : Buffer) (jobs : List Job) : Type 0 where
  pub in_heap : (key : Bytes) (i : ℕ) → find key l.windows ≡ some i → i < length l.heap
  pub one_key :
      (key other_key : Bytes) (i : ℕ)
      → find key l.windows ≡ some i
      → find other_key l.windows ≡ some i
      → other_key ≡ key
  pub enough : (i : ℕ) → HasEnough (nth i l.heap)
  pub open_jobs : Every (IsOpen l) jobs
  pub apart_jobs : Apart jobs

pub Every-map :
    (P Q : Job → Type 0) (jobs : List Job) → ((j : Job) → P j → Q j) → Every P jobs → Every Q jobs
Every-map P Q [] k e = tt
Every-map P Q (j ∷ jobs) k e = (k j e.0, Every-map P Q jobs k e.1)

pub Every-zip :
    (P Q R : Job → Type 0) (jobs : List Job)
    → ((j : Job) → P j → Q j → R j)
    → Every P jobs
    → Every Q jobs
    → Every R jobs
Every-zip P Q R [] k d e = tt
Every-zip P Q R (j ∷ jobs) k d e = (k j d.0 e.0, Every-zip P Q R jobs k d.1 e.1)

-- A write that keeps what is in flight, and enough of it.
pub write-IsShaped :
    (i : ℕ) (f : Writing) (l : Buffer) (jobs : List Job)
    → ((w : WindowState) → HasEnough w → HasEnough (f w))
    → ((w : WindowState) → (f w).flush_delta ≡ w.flush_delta)
    → IsShaped l jobs
    → IsShaped (write i f l) jobs
write-IsShaped i f l jobs k same s = record {
  in_heap = λ key j q. rw (length-change i f l.heap) (s.in_heap key j q);
  one_key = s.one_key;
  enough = enough-change i f l.heap k s.enough;
  open_jobs =
      Every-map (IsOpen l) (IsOpen (write i f l)) jobs
        (λ j o. record {
          place = o.place;
          there = o.there;
          same_delta = flush-change_same i o.place f l.heap same ∙ o.same_delta;
          some_hits = o.some_hits;
        })
        s.open_jobs;
  apart_jobs = s.apart_jobs;
}

-- Of the jobs of a shaped buffer, the picked one is open, and the others have other keys.
pub record IsPicked (l : Buffer) (j : Job) (rest : List Job) : Type 0 where
  pub picked : IsOpen l j
  pub others : Every (IsOpen l) rest
  pub other_keys : Every (λ k. k.redis_key ≢ j.redis_key) rest
  pub apart_rest : Apart rest

Every-Picked :
    (P : Job → Type 0) (j : Job) (jobs rest : List Job)
    → Picked j jobs rest
    → Every P jobs
    → P j × Every P rest
Every-Picked P j _ _ (first rest) e = e
Every-Picked P j _ _ (later k jobs rest p) e =
    let below = Every-Picked P j jobs rest p e.1 in (below.0, (e.0, below.1))

Apart-Picked :
    (j : Job) (jobs rest : List Job)
    → Picked j jobs rest
    → Apart jobs
    → Every (λ k. k.redis_key ≢ j.redis_key) rest × Apart rest
Apart-Picked j _ _ (first rest) a = a
Apart-Picked j _ _ (later k jobs rest p) a =
    let below = Apart-Picked j jobs rest p a.1 in
    let around = Every-Picked (λ m. m.redis_key ≢ k.redis_key) j jobs rest p a.0 in
    (((λ q. around.0 (sym q)), below.0), (around.1, below.1))

pub Picked-IsPicked :
    (l : Buffer) (j : Job) (jobs rest : List Job)
    → Picked j jobs rest
    → IsShaped l jobs
    → IsPicked l j rest
Picked-IsPicked l j jobs rest p s =
    let open_now = Every-Picked (IsOpen l) j jobs rest p s.open_jobs in
    let apart_now = Apart-Picked j jobs rest p s.apart_jobs in
    record {
      picked = open_now.0;
      others = open_now.1;
      other_keys = apart_now.0;
      apart_rest = apart_now.1;
    }
