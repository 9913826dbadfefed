-- ===== src/Tokenbucket/Agreement/Runs.antt =====
-- tokenbucket: memory.go and redis.go side by side, called any number of times with one key.
use traefik_middleware_utili.Tokenbucket.Agreement.Server.{IsFitting, IsReadBack, IsServer}
use traefik_middleware_utili.Keys.{find}
use traefik_middleware_utili.Prelude.{
  Bytes, List, Option, [], arith, none, refl, ℕ, ◌^◌, ◌∷◌, ◌≡◌, ◌≤◌,
}
use traefik_middleware_utili.Prelude.Result.{Result, err, ok}
use traefik_middleware_utili.Float.{Float, IsCounting}
use traefik_middleware_utili.Tokenbucket.Agreement.Call.{IsOneWait, IsRelated, both-IsCall}
use traefik_middleware_utili.Tokenbucket.Clock.{Answer, ClockConfig, Error}
use traefik_middleware_utili.Tokenbucket.Memory.{Memory, new_memory, unix_micro, allow}
use traefik_middleware_utili.Tokenbucket.Memory
use traefik_middleware_utili.Tokenbucket.Redis.{Eval, FloatText}
use traefik_middleware_utili.Tokenbucket.Redis
use traefik_middleware_utili.Tokenbucket.Script.{Hash, Lua}

-- A call: the key that the map drops when it is full, and the time.
abbrev pub Call : Type 0
Call = ℕ × ℕ

-- No call is earlier than the one before, and a float holds each time.
abbrev pub InOrder : ℕ → List Call → Type 0
InOrder now [] = Unit {0}
InOrder now ((pick, t) ∷ calls) = (now ≤ t) × ((unix_micro t ≤ 2 ^ 53) × InOrder t calls)

abbrev pub Each : {A B : Type 0} → (A → B → Type 0) → List A → List B → Type 0
Each R [] [] = Unit {0}
Each R (a ∷ l) (b ∷ m) = R a b × Each R l m
Each R _ _ = ⊥

-- The result of a call, and those of the calls that follow it.
abbrev pub collect :
    {M : Type 0}
    → Result Error (Answer × M)
    → (M → List (Result Error Answer))
    → List (Result Error Answer)
collect (err e) k = err e ∷ []
collect (ok (a, m)) k = ok a ∷ k m

unfoldable pub memory_run :
    (fl : Float) → Bytes → List Call → Memory fl.number → List (Result Error Answer)
memory_run fl key [] m = []
memory_run fl key ((pick, now) ∷ calls) m =
    collect (Memory.allow fl none pick now key m) (memory_run fl key calls)

unfoldable pub redis_run :
    (fl : Float) (text : FloatText fl) {S : Type 0}
    → (ℕ → Eval S)
    → ClockConfig fl.number
    → Bytes
    → List Call
    → S
    → List (Result Error Answer)
redis_run fl text eval c key [] s = []
redis_run fl text eval c key ((pick, now) ∷ calls) s =
    let r = Redis.allow fl text (eval now) c none now key s in
    r.0 ∷ redis_run fl text eval c key calls r.1

module _ (fl : Float) (text : FloatText fl) (lua : Lua fl) (laws : IsCounting fl)
    (back : IsReadBack fl text lua) (c : ClockConfig fl.number) (fit : IsFitting fl c) {S : Type 0}
    (eval : ℕ → Eval S) (held : ℕ → Bytes → S → Option Hash) (server : IsServer fl lua eval held)
    (key : Bytes) where
  abbrev Related : ℕ → Memory fl.number → S → Type 0
  Related = IsRelated fl text lua laws back c fit eval held server key

  run-Related :
      (calls : List Call) (now : ℕ) (m : Memory fl.number) (s : S)
      → InOrder now calls
      → Related now m s
      → Each
          (IsOneWait fl text lua c)
          (memory_run fl key calls m)
          (redis_run fl text eval c key calls s)
  unfolding memory_run redis_run
  run-Related [] now m s order rel = tt
  run-Related ((pick, t) ∷ calls) now m s (le, (small, order)) rel =
      let at_t : Related t m s = record {
        clock = rel.clock;
        matched = λ later le'. rel.matched later (omega (arith, le, le'));
      } in
      let call =
        both-IsCall fl text lua laws back c fit eval held server key pick t m s small at_t in
      rw call.returned (call.one_wait, run-Related calls t call.after.1 _ order call.related)

  -- Called with one key at times that do not decrease, where floats hold each number and text, and
  -- a server that runs the script and drops the hash at its expiry: the store in the process and
  -- the one in Redis answer each call from the same wait, as the script shows it, from a new
  -- limiter and no hash on.
  pub memory_run-redis_run :
      (calls : List Call) (m : Memory fl.number) (s : S)
      → new_memory fl c ≡ ok m
      → ((later : ℕ) → held later key s ≡ none)
      → InOrder 0 calls
      → Each
          (IsOneWait fl text lua c)
          (memory_run fl key calls m)
          (redis_run fl text eval c key calls s)
  unfolding new_memory find
  memory_run-redis_run calls m s is_new empty order =
      let e : ok (record { clock = c; buckets = [] }) ≡ ok m = rw fit.valid at is_new in
      let same : record { clock = c; buckets = [] } ≡ m = cc in
      run-Related calls 0 m s order
        (rw (← same) (record { clock = refl; matched = λ later le. rw (empty later) tt }))
