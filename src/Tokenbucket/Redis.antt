-- ===== src/Tokenbucket/Redis.antt =====
-- tokenbucket/redis.go, over `Eval` of simpleredis: `eval` takes the keys and the arguments, and has
-- the script, its digest and the state of the server behind it.
use traefik_middleware_utili.Prelude.{
  ℕ, Bool, Bytes, List, Option, [], if◌then◌else◌, none, some, ◌∷◌, ◌||◌,
}
use traefik_middleware_utili.Prelude.Decimal.{format_int}
use traefik_middleware_utili.Prelude.Int.{pos}
use traefik_middleware_utili.Prelude.Result.{Result, err, ok}
use traefik_middleware_utili.Float.{Float}
use traefik_middleware_utili.Simpleredis.Errors
use traefik_middleware_utili.Simpleredis.Exec.{Values}
use traefik_middleware_utili.Tokenbucket.Clock.{
  Answer, ClockConfig, Error, answer, err_eval_len, err_eval_wait, failed, limit_per_micro,
  max_delay_micro, ttl_seconds, validate_clock, err_redis,
}
use traefik_middleware_utili.Tokenbucket.Memory.{if_valid, unix_micro}

-- `strconv.FormatFloat(x, 'f', -1, 64)` and `strconv.ParseFloat`.
pub record FloatText (fl : Float) : Type 0 where
  pub format_float : fl.number → Bytes
  pub parse_float : Bytes → Option fl.number

abbrev pub Eval : Type 0 → Type 0
Eval S = List Bytes → List Bytes → S → Result Errors.Error Values × S

module _ (fl : Float) (text : FloatText fl) where
  unfoldable pub allow_args : ClockConfig fl.number → ℕ → List Bytes
  allow_args c now =
      text.format_float (limit_per_micro fl c)
      ∷ format_int c.burst
      ∷ format_int (pos (ttl_seconds c))
      ∷ format_int (pos (unix_micro now))
      ∷ format_int (pos (max_delay_micro c))
      ∷ []

  -- A NaN or an infinity is not a wait.
  abbrev pub read_wait : ClockConfig fl.number → Option fl.number → Result Error Answer
  read_wait c none = err err_eval_wait
  read_wait c (some w) =
      if fl.is_nan w || fl.is_inf w then err err_eval_wait else ok (answer fl c w)

  abbrev pub value_text : Option Bytes → Bytes
  value_text none = []
  value_text (some s) = s

  unfoldable pub read_reply :
      ClockConfig fl.number → Result Errors.Error Values → Result Error Answer
  read_reply c (err e) = err (failed e)
  read_reply c (ok (a ∷ w ∷ t ∷ [])) = read_wait c (text.parse_float (value_text w))
  read_reply c (ok vs) = err err_eval_len

  unfoldable pub allow :
      {S : Type 0}
      → Eval S
      → ClockConfig fl.number
      → Option Errors.Error
      → ℕ
      → Bytes
      → S
      → Result Error Answer × S
  allow eval c (some e) now key s = (err (failed e), s)
  allow eval c none now key s =
      let r = eval (key ∷ []) (allow_args c now) s in (read_reply c r.0, r.1)

-- `NewRedis`: whether there is a client, and the check that `NewMemory` makes.
unfoldable pub new_redis :
    (fl : Float) → Bool → ClockConfig fl.number → Result Error (ClockConfig fl.number)
new_redis fl has_client c =
    if has_client then if_valid fl (validate_clock fl c) c else err err_redis
