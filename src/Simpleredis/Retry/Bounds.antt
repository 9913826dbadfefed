-- ===== src/Simpleredis/Retry/Bounds.antt =====
-- The wait is bounded, and the errors that are sent again are told apart.
use traefik_middleware_utili.Prelude.{
  ℕ, Bool, Bytes, false, true, ◌↔◌, ◌≡◌, ◌⊎◌, arith, has_prefix, inl, inr, refl, same_text,
}
use traefik_middleware_utili.Prelude.Int.{ℤ, pos, ◌≤ℤ◌}
use traefik_middleware_utili.Simpleredis.Errors.{Error, other, unreachable}
use traefik_middleware_utili.Simpleredis.Retry.{retry_backoff, is_retryable_text, should_retry}

-- With a cap of at least zero the wait never exceeds it. Unless the base is zero, the wait is the cap
-- or at least the base. This holds also where the shift wraps around.
pub retry_backoff_bounds :
    (jitter : ℕ → ℕ) (retry : ℕ) (lo hi : ℤ)
    → pos 0 ≤ℤ hi
    → (retry_backoff jitter retry lo hi ≤ℤ hi)
      × ((lo ≡ pos 0)
          ⊎ (retry_backoff jitter retry lo hi ≡ hi)
          ⊎ (lo ≤ℤ retry_backoff jitter retry lo hi))
unfolding retry_backoff
retry_backoff_bounds jitter retry lo hi h = ground arith

-- What is sent again, exactly: outside a handshake, an unreachable peer, or a reply that Redis means
-- to be temporary.
pub should_retry_iff :
    (e : Error) (handshake_failed : Bool)
    → (should_retry e handshake_failed ≡ true) ↔ (
        (handshake_failed ≡ false)
        × ((e ≡ unreachable)
            ⊎ ((text : Bytes) × (e ≡ other text) × (is_retryable_text text ≡ true))))
unfolding should_retry is_retryable_text has_prefix same_text
should_retry_iff unreachable h = (λ q. (ground arith, inl refl), λ p. ground arith)
should_retry_iff (other text) h =
    (λ q. (ground arith, inr (text, refl, ground arith)), λ p. ground arith)
should_retry_iff e h = (λ q. absurd (ground arith), λ p. ground arith)
