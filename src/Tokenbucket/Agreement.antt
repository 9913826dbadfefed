-- ===== src/Tokenbucket/Agreement.antt =====
-- tokenbucket: the script of lua.go beside the computation of clock.go.
pub mod Server
pub mod Call
pub mod Runs
use traefik_middleware_utili.Prelude.{
  ℕ, Bool-cases, inl, inr, ltb, ◌^◌, ◌≡◌, ◌≤◌, arith, false, if◌then◌else◌, refl,
}
use traefik_middleware_utili.Prelude.Int.{pos}
use traefik_middleware_utili.Float.{Float, IsCounting}
use traefik_middleware_utili.Tokenbucket.Clock.{Consumed, consume_one, settle}
use traefik_middleware_utili.Tokenbucket.Script.{script_consume}

-- The clock of the script is a float.
abbrev pub on_floats : (fl : Float) → Consumed fl.number ℕ → Consumed fl.number fl.number
on_floats fl c = record { tokens = c.tokens; last = fl.of_int (pos c.last); wait = c.wait }

settle-on_floats :
    (fl : Float) (burst max_delay tokens : fl.number) (wait_of : fl.number → fl.number)
    (last : fl.number) (last_int : ℕ)
    → last ≡ fl.of_int (pos last_int)
    → settle fl burst max_delay wait_of tokens last
      ≡ on_floats fl (settle fl burst max_delay wait_of tokens last_int)
settle-on_floats fl burst max_delay tokens wait_of last last_int q =
    elim (Bool-cases (fl.lt tokens (fl.of_int (pos 0)))) [
      | inl r ↦ rw (q, r) refl
      | inr r ↦ rw (q, r) refl
    ]

last_seen :
    (fl : Float) (last now : ℕ)
    → ltb now last ≡ false
    → (if ltb last now then fl.of_int (pos now) else fl.of_int (pos last)) ≡ fl.of_int (pos now)
last_seen fl last now q = elim (Bool-cases (ltb last now)) [
  | inl r ↦ rw r refl
  | inr r ↦ let same : last ≡ now = ground (arith, q, r) in rw (r, same) refl
]

module _ (fl : Float) (laws : IsCounting fl) where
  -- The script computes, on floats, what consumeOne computes: tokens, last time and wait, for
  -- times up to 2^53.
  pub script_consume_lem :
      (tokens limit burst : fl.number) (last now max_delay : ℕ)
      → last ≤ 2 ^ 53
      → now ≤ 2 ^ 53
      → script_consume fl limit burst
          (fl.of_int (pos now))
          (fl.of_int (pos max_delay))
          tokens
          (fl.of_int (pos last))
        ≡ on_floats fl (consume_one fl tokens last limit burst now max_delay)
  unfolding script_consume consume_one
  script_consume_lem tokens limit burst last now max_delay small_last small_now =
      elim (Bool-cases (ltb now last)) [
        | inl q ↦
            let later : ltb last now ≡ false = ground (arith, q) in
            rw
              (
                laws.lt_int now last small_now small_last,
                laws.lt_int last now small_last small_now,
                q,
                later,
                laws.sub_int now now small_now (omega arith),
                laws.negated,
              )
              (settle-on_floats fl burst (fl.of_int (pos max_delay)) _
                (λ x. fl.div (fl.neg x) limit) _ last refl)
        | inr q ↦
            rw
              (
                laws.lt_int now last small_now small_last,
                laws.lt_int last now small_last small_now,
                q,
                laws.sub_int now last small_now (ground (arith, q)),
                laws.negated,
              )
              (settle-on_floats fl burst (fl.of_int (pos max_delay)) _
                (λ x. fl.div (fl.neg x) limit) _ now (last_seen fl last now q))
      ]
