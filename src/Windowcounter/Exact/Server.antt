-- ===== src/Windowcounter/Exact/Server.antt =====
-- A Redis server as windowcounter/limiter.go uses it in exact mode: it counts and forgets.
use traefik_middleware_utili.Prelude.{
  ℕ, Bytes, Option, [], codes, none, some, ◌+◌, ◌<◌, ◌∷◌, ◌≡◌, ◌≢◌,
}
use traefik_middleware_utili.Prelude.Decimal.{format_int}
use traefik_middleware_utili.Prelude.Int.{pos}
use traefik_middleware_utili.Prelude.Result.{ok}
use traefik_middleware_utili.Simpleredis.Commands.{Exec}

-- What a server holds for a key: a count, and the text of the seconds of its EXPIRE.
pub record Counter : Type 0 where
  pub count : Option ℕ
  pub ttl : Option Bytes

abbrev pub counted : Option ℕ → ℕ
counted none = 0
counted (some n) = n

abbrev pub shown : Option ℕ → Option Bytes
shown none = none
shown (some n) = some (format_int (pos n))

-- A server that answers INCR, EXPIRE and GET of a key that holds a count, or nothing.
pub record IsCounter {S : Type 0} (exec : Exec S) (held : Bytes → S → Counter) : Type 0 where
  pub incr_reply :
      (key : Bytes) (s : S)
      → (exec (codes "INCR" ∷ key ∷ []) s).0
        ≡ ok (some (format_int (pos (counted (held key s).count + 1))) ∷ [])
  pub incr_at :
      (key : Bytes) (s : S)
      → held key (exec (codes "INCR" ∷ key ∷ []) s).1
        ≡ record { count = some (counted (held key s).count + 1); ttl = (held key s).ttl }
  pub incr_other :
      (key other_key : Bytes) (s : S)
      → other_key ≢ key
      → held other_key (exec (codes "INCR" ∷ key ∷ []) s).1 ≡ held other_key s
  pub expire_reply :
      (key : Bytes) (seconds : ℕ) (s : S)
      → 0 < counted (held key s).count
      → (exec (codes "EXPIRE" ∷ key ∷ format_int (pos seconds) ∷ []) s).0
        ≡ ok (some (codes "1") ∷ [])
  pub expire_at_key :
      (key : Bytes) (seconds : ℕ) (s : S)
      → 0 < counted (held key s).count
      → held key (exec (codes "EXPIRE" ∷ key ∷ format_int (pos seconds) ∷ []) s).1
        ≡ record { count = (held key s).count; ttl = some (format_int (pos seconds)) }
  pub expire_other :
      (key other_key : Bytes) (seconds : ℕ) (s : S)
      → other_key ≢ key
      → held other_key (exec (codes "EXPIRE" ∷ key ∷ format_int (pos seconds) ∷ []) s).1
        ≡ held other_key s
  pub get_answer :
      (key : Bytes) (s : S)
      → (exec (codes "GET" ∷ key ∷ []) s).0 ≡ ok (shown (held key s).count ∷ [])
  pub get_at :
      (key other_key : Bytes) (s : S)
      → held other_key (exec (codes "GET" ∷ key ∷ []) s).1 ≡ held other_key s
