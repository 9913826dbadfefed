-- ===== src/Tokenbucket/Script.antt =====
-- tokenbucket/lua.go: what the script computes. Lua's numbers are floats.
use traefik_middleware_utili.Prelude.{
  Bytes, List, Option, [], codes, if◌then◌else◌, none, some, ◌∷◌,
}
use traefik_middleware_utili.Prelude.Int.{minus_one, pos}
use traefik_middleware_utili.Float.{Float}
use traefik_middleware_utili.Tokenbucket.Clock.{Consumed, refilled, settle}

-- How a number is read from a text, how Redis stores one that a script passes to HSET, and
-- `tostring`, which prints fewer digits.
pub record Lua (fl : Float) : Type 0 where
  pub to_number : Bytes → Option fl.number
  pub stored_text : fl.number → Bytes
  pub to_string : fl.number → Bytes

-- The fields `last` and `tokens` of the hash.
pub record Hash : Type 0 where
  pub last : Bytes
  pub tokens : Bytes

-- The script's reply, what it writes, and the seconds of its EXPIRE.
pub record Written (R : Type 0) : Type 0 where
  pub reply : List Bytes
  pub hash : Hash
  pub expire : R

abbrev pub with_number : {A B : Type 0} → Option A → (A → Option B) → Option B
with_number none k = none
with_number (some x) k = k x

module _ (fl : Float) where
  -- From `local last` to `persistLast`, on numbers.
  unfoldable pub script_consume :
      fl.number
      → fl.number
      → fl.number
      → fl.number
      → fl.number
      → fl.number
      → Consumed fl.number fl.number
  script_consume limit burst t max_delay bucket_tokens bucket_last =
      let last = if fl.lt t bucket_last then t else bucket_last in
      let tokens =
        fl.sub (refilled fl bucket_tokens limit burst (fl.sub t last)) (fl.of_int (pos 1)) in
      settle fl burst max_delay (λ x. fl.div (fl.mul x (fl.of_int minus_one)) limit) tokens
        (if fl.lt bucket_last t then t else bucket_last)

  module _ (lua : Lua fl) where
    abbrev pub write : fl.number → Consumed fl.number fl.number → Written fl.number
    write ttl c = record {
      reply = codes "true" ∷ lua.to_string c.wait ∷ lua.to_string c.tokens ∷ [];
      hash = record { last = lua.stored_text c.last; tokens = lua.stored_text c.tokens };
      expire = ttl;
    }

    abbrev pub run_on :
        fl.number
        → fl.number
        → fl.number
        → fl.number
        → fl.number
        → Option Hash
        → Option (Written fl.number)
    run_on limit burst ttl t max_delay none =
        some (write ttl (script_consume limit burst t max_delay burst t))
    run_on limit burst ttl t max_delay (some h) = with_number (lua.to_number h.last) λ last.
        with_number (lua.to_number h.tokens)
          λ tokens. some (write ttl (script_consume limit burst t max_delay tokens last))

    -- The whole script on ARGV and what HGETALL finds. A text that is no number is an error.
    unfoldable pub run_allow : List Bytes → Option Hash → Option (Written fl.number)
    run_allow (limit ∷ burst ∷ ttl ∷ t ∷ max_delay ∷ []) h =
        with_number (lua.to_number limit) λ limit'. with_number (lua.to_number burst) λ burst'.
          with_number (lua.to_number ttl) λ ttl'. with_number (lua.to_number t) λ t'.
            with_number (lua.to_number max_delay)
              λ max_delay'. run_on limit' burst' ttl' t' max_delay' h
    run_allow _ h = none
