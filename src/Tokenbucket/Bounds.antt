-- ===== src/Tokenbucket/Bounds.antt =====
-- tokenbucket/memory.go: what every call of `Allow` keeps.
use traefik_middleware_utili.Keys.{load}
use traefik_middleware_utili.Keys.Laws.{All, All-store}
use traefik_middleware_utili.Keys.Room.{IsLoaded, length-store_capped, load-IsLoaded}
use traefik_middleware_utili.Prelude.{
  ℕ, Bool-cases, Bytes, List, Option, arith, false, inl, inr, length, none, [], some, ◌≡◌, ◌≤◌, ap,
}
use traefik_middleware_utili.Prelude.Int.{pos}
use traefik_middleware_utili.Prelude.Result.{ok}
use traefik_middleware_utili.Float.{Float, IsLowered}
use traefik_middleware_utili.Keys.{max_memory_sources}
use traefik_middleware_utili.Simpleredis.Errors
use traefik_middleware_utili.Tokenbucket.Clock.{
  Answer, ClockConfig, capped, consume_one, Error, settle, validate_clock,
}
use traefik_middleware_utili.Tokenbucket.Memory.{
  Entry, Memory, allow, allow_loaded, burst_of, expiry, full, new_memory, if_valid,
}

-- No bucket holds more than the burst, and there are at most 65536.
pub record IsSound (fl : Float) (m : Memory fl.number) : Type 0 where
  pub within : All (λ e. fl.lt (burst_of fl m.clock) e.tokens ≡ false) m.buckets
  pub few : length m.buckets ≤ max_memory_sources

-- The states that calls of `Allow` lead to from a new limiter, whatever the clock shows.
pub data Reached (fl : Float) (c : ClockConfig fl.number) : Memory fl.number → Type 0 where
  started : (m : Memory fl.number) → new_memory fl c ≡ ok m → Reached fl c m
  called :
      (ctx : Option Errors.Error) (pick now : ℕ) (key : Bytes) (m : Memory fl.number) (a : Answer)
      (m' : Memory fl.number)
      → Reached fl c m
      → allow fl ctx pick now key m ≡ ok (a, m')
      → Reached fl c m'

pub new_memory_empty :
    (fl : Float) (c : ClockConfig fl.number) (m : Memory fl.number)
    → new_memory fl c ≡ ok m
    → m ≡ record { clock = c; buckets = [] }
unfolding new_memory
new_memory_empty fl c m q = go (validate_clock fl c) q
  where
    go :
        (o : Option Error)
        → if_valid fl o (record { clock = c; buckets = [] }) ≡ ok m
        → m ≡ record { clock = c; buckets = [] }
    go none r = cc
    go (some e) r = cc

module _ (fl : Float) (laws : IsLowered fl) where
  capped_within : (burst x : fl.number) → fl.lt burst (capped fl burst x) ≡ false
  capped_within burst x = elim (Bool-cases (fl.lt burst x)) [
    | inl q ↦ rw q (laws.irreflexive burst)
    | inr q ↦ rw q q
  ]

  settle_within :
      (burst max_delay tokens : fl.number) (wait_of : fl.number → fl.number) (last : ℕ)
      → fl.lt burst tokens ≡ false
      → fl.lt burst (settle fl burst max_delay wait_of tokens last).tokens ≡ false
  settle_within burst max_delay tokens wait_of last h =
      elim (Bool-cases (fl.lt tokens (fl.of_int (pos 0)))) [
        | inr q ↦ rw q h
        | inl q ↦ rw q (elim (Bool-cases (fl.lt max_delay (wait_of tokens))) [
          | inl r ↦ rw r (capped_within burst (fl.add tokens (fl.of_int (pos 1))))
          | inr r ↦ rw r h
        ])
      ]

  consume_one_within :
      (tokens : fl.number) (last : ℕ) (limit burst : fl.number) (now max_delay : ℕ)
      → fl.lt burst (consume_one fl tokens last limit burst now max_delay).tokens ≡ false
  unfolding consume_one
  consume_one_within tokens last limit burst now max_delay =
      settle_within burst (fl.of_int (pos max_delay)) _ (λ t. fl.div (fl.neg t) limit) _
        (laws.lowered burst _ (capped_within burst _))

  allow_loaded-IsSound :
      (now : ℕ) (key : Bytes) (m : Memory fl.number)
      (p : List (Bytes × Entry fl.number) × Entry fl.number)
      → IsLoaded (λ e. fl.lt (burst_of fl m.clock) e.tokens ≡ false) key p
      → IsSound fl (allow_loaded fl now key m p).1
  allow_loaded-IsSound now key m (buckets, e) l = record {
    within =
        All-store _ key _ buckets (consume_one_within e.tokens e.last _ (burst_of fl m.clock) _ _)
          l.entries;
    few = length-store_capped key _ e buckets l.there l.capped;
  }

  allow-IsSound :
      (ctx : Option Errors.Error) (pick now : ℕ) (key : Bytes) (m : Memory fl.number) (a : Answer)
      (m' : Memory fl.number)
      → IsSound fl m
      → allow fl ctx pick now key m ≡ ok (a, m')
      → IsSound fl m'
  unfolding allow
  allow-IsSound (some e) pick now key m a m' s q = cc
  allow-IsSound none pick now key m a m' s q =
      let p =
        allow_loaded fl now key m (load expiry (full fl m.clock now) pick now key m.buckets) in
      let same : p ≡ (a, m') = cc in
      let after : IsSound fl p.1 = allow_loaded-IsSound now key m _ (
        load-IsLoaded expiry _ (full fl m.clock now) pick now key m.buckets
          (laws.irreflexive (burst_of fl m.clock)) s.within s.few) in
      rw (← ap (λ x. x.1) same) after

  -- Through every sequence of calls of Allow on a new limiter, whatever the clock shows, no bucket
  -- holds more than the burst and there are at most 65536 buckets, for a float with an irreflexive
  -- order that subtracting one respects.
  pub Reached-IsSound :
      (c : ClockConfig fl.number) (m : Memory fl.number) → Reached fl c m → IsSound fl m
  unfolding new_memory
  Reached-IsSound c _ (started n q) =
      rw (new_memory_empty fl c n q) (record { within = tt; few = omega arith })
  Reached-IsSound c _ (called ctx pick now key n a m r q) =
      allow-IsSound ctx pick now key n a m (Reached-IsSound c n r) q
