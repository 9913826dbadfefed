-- ===== src/Tokenbucket/Agreement/Server.antt =====
-- A Redis server that runs the script of tokenbucket/lua.go, and the texts that it reads.
use traefik_middleware_utili.Prelude.{
  ℕ, Bytes, List, Option, [], ltb, none, some, ◌*◌, ◌+◌, ◌∷◌, ◌≡◌, ◌≤◌, ◌^◌, if◌then◌else◌, map,
}
use traefik_middleware_utili.Prelude.Decimal.{format_int}
use traefik_middleware_utili.Prelude.Int.{pos}
use traefik_middleware_utili.Prelude.Result.{ok}
use traefik_middleware_utili.Float.{Float}
use traefik_middleware_utili.Tokenbucket.Clock.{
  ClockConfig, max_delay_micro, second, ttl_seconds, validate_clock,
}
use traefik_middleware_utili.Tokenbucket.Redis.{Eval, FloatText}
use traefik_middleware_utili.Tokenbucket.Script.{Hash, Lua, Written, run_allow}

-- What Lua and Redis read is what Go and the script print.
pub record IsReadBack (fl : Float) (text : FloatText fl) (lua : Lua fl) : Type 0 where
  pub limit_read : (x : fl.number) → lua.to_number (text.format_float x) ≡ some x
  pub int_read :
      (n : ℕ) → n ≤ 2 ^ 53 → lua.to_number (format_int (pos n)) ≡ some (fl.of_int (pos n))
  pub stored_read : (x : fl.number) → lua.to_number (lua.stored_text x) ≡ some x

-- A server that runs the script on the hash of the key and drops the hash when its time is over.
pub record IsServer (fl : Float) (lua : Lua fl) {S : Type 0} (eval : ℕ → Eval S)
    (held : ℕ → Bytes → S → Option Hash) : Type 0 where
  pub replied :
      (now : ℕ) (key : Bytes) (args : List Bytes) (s : S) (w : Written fl.number)
      → run_allow fl lua args (held now key s) ≡ some w
      → (eval now (key ∷ []) args s).0 ≡ ok (map some w.reply)
  pub kept :
      (now later : ℕ) (key : Bytes) (args : List Bytes) (s : S) (w : Written fl.number) (n : ℕ)
      → run_allow fl lua args (held now key s) ≡ some w
      → w.expire ≡ fl.of_int (pos n)
      → now ≤ later
      → held later key (eval now (key ∷ []) args s).1
        ≡ (if ltb later (now + n * second) then some w.hash else none)

-- The configuration is valid, and its numbers are exact in a float.
pub record IsFitting (fl : Float) (c : ClockConfig fl.number) : Type 0 where
  pub burst_n : ℕ
  pub is_burst : c.burst ≡ pos burst_n
  pub small_burst : burst_n ≤ 2 ^ 53
  pub small_delay : max_delay_micro c ≤ 2 ^ 53
  pub small_ttl : ttl_seconds c ≤ 2 ^ 53
  pub valid : validate_clock fl c ≡ none
