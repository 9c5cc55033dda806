-- ===== src/Gateway/Keys.antt =====
-- `New` of internal/gatewayauth/gatewayauth.go: the first fetch of the gateway's keys. What a fetch
-- answers, and whether the context ends in the wait after an attempt, are arguments.
use mathlib.Core.Path.{subst}
use peikonpurekkusu_payment.Prelude.{
  ℕ, zero, suc, ◌+◌, ◌<◌, ◌≡◌, ◌⊎◌, inl, inr, refl, Bool, false, String, if◌then◌else◌, arith,
}

abbrev pub max_fetches : ℕ
max_fetches = 10

-- A verifier holds its keys; the other two are errors.
pub data Built (K : Type 0) : Type 0 where
  verifier : K → Built K
  context_error : Built K
  unreachable : String → Built K

add_zero : (a : ℕ) → a + 0 ≡ a
add_zero a = omega arith

add_suc : (a i : ℕ) → a + suc i ≡ a + 1 + i
add_suc a i = omega arith

module _ {K : Type 0} (fetch : ℕ → String ⊎ K) (context_done : ℕ → Bool) where
  unfoldable pub after_fetch : (String → Built K) → ℕ → String ⊎ K → Built K
  after_fetch again attempt (inr keys) = verifier keys
  after_fetch again attempt (inl e) =
      let rest = again e in if context_done attempt then context_error else rest

  -- The attempts that are left, from one on, after the last error.
  unfoldable pub fetch_from : ℕ → ℕ → String → Built K
  unfolding after_fetch
  fetch_from zero attempt last = unreachable last
  fetch_from (suc left) attempt last =
      after_fetch (λ e. fetch_from left (attempt + 1) e) attempt (fetch attempt)

  unfoldable pub new_verifier : Built K
  unfolding fetch_from
  new_verifier = fetch_from max_fetches 1 ""

  -- An attempt that fails, after which the context goes on.
  abbrev pub IsRetried : ℕ → Type 0
  IsRetried attempt = ((e : String) × (fetch attempt ≡ inl e)) × (context_done attempt ≡ false)

  fetch_from-built :
      (left attempt n : ℕ) (last : String) (keys : K)
      → n < left
      → ((i : ℕ) → i < n → IsRetried (attempt + i))
      → fetch (attempt + n) ≡ inr keys
      → fetch_from left attempt last ≡ verifier keys
  unfolding fetch_from after_fetch
  fetch_from-built zero attempt n last keys lt before now = absurd (omega (arith, lt))
  fetch_from-built (suc left) attempt zero last keys lt before now =
      let here : fetch attempt ≡ inr keys =
        subst (λ k. fetch k ≡ inr keys) (add_zero attempt) now in
      rw here refl
  fetch_from-built (suc left) attempt (suc n) last keys lt before now =
      let ((e, failed), on) = subst IsRetried (add_zero attempt) (before 0 (omega arith)) in
      rw failed (
        rw on (
          fetch_from-built left (attempt + 1) n e keys (omega (arith, lt))
            (λ i l. subst IsRetried (add_suc attempt i) (before (suc i) (omega (arith, l))))
            (subst (λ k. fetch k ≡ inr keys) (add_suc attempt n) now)))

  -- The verifier is built with the keys of the first fetch that succeeds, if it is among the ten
  -- and the context goes on until then.
  new_verifier-built :
      (n : ℕ) (keys : K)
      → n < max_fetches
      → ((i : ℕ) → i < n → IsRetried (1 + i))
      → fetch (1 + n) ≡ inr keys
      → new_verifier ≡ verifier keys
  unfolding new_verifier
  new_verifier-built n keys lt before now = fetch_from-built max_fetches 1 n "" keys lt before now
