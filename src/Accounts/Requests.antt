-- ===== src/Accounts/Requests.antt =====
-- The request ids are derived from the payment id: one id for each payment and operation.
use Prim.Native.Char.{code}
use Prim.Native.String.{◌++◌}
use Prim.Native.String.append
use text.Mathlib.TextLemmas.{append_cancel_left}
use peikonpurekkusu_payment.Prelude.{String, ◌≡◌, ◌≢◌, ◌↔◌, ℕ, arith, ap}
use peikonpurekkusu_payment.Prelude.Int.{ℤ}
use peikonpurekkusu_payment.Accounts.{hold_request, capture_request, release_request}

-- The number of the first character tells the three prefixes apart.
abbrev first : String → ℕ
first String.[] = 0
first (String.◌∷◌ c s) = code c

first_hold : (s : String) → first ("hold:" ++ s) ≡ b'h'
first_hold s = ap first (append.cons "h" "old:" s)

first_capture : (s : String) → first ("capture:" ++ s) ≡ b'c'
first_capture s = ap first (append.cons "c" "apture:" s)

first_release : (s : String) → first ("release:" ++ s) ≡ b'r'
first_release s = ap first (append.cons "r" "elease:" s)

module _ (p q a b h k r : String) (x y : ℤ) (c d : String) where
  -- Requests of two different operations never share a request id, whatever the payments are.
  request_id-ne :
      ((hold_request p a x c).request_id ≢ (capture_request q h y d).request_id)
      × ((hold_request p a x c).request_id ≢ (release_request q h r).request_id)
      × ((capture_request p h x c).request_id ≢ (release_request q k r).request_id)
  unfolding hold_request capture_request release_request
  request_id-ne = (
    λ e. omega (arith, first_hold p, first_capture q, ap first e),
    λ e. omega (arith, first_hold p, first_release q, ap first e),
    λ e. omega (arith, first_capture p, first_release q, ap first e),
  )

  -- Two requests of one operation share their request id exactly when they are for one payment.
  request_id-inj :
      (((hold_request p a x c).request_id ≡ (hold_request q b y d).request_id) ↔ (p ≡ q))
      × (((capture_request p h x c).request_id ≡ (capture_request q k y d).request_id) ↔ (p ≡ q))
      × (((release_request p h c).request_id ≡ (release_request q k d).request_id) ↔ (p ≡ q))
  unfolding hold_request capture_request release_request
  request_id-inj = (
    (append_cancel_left _ _ _, λ e. ap (λ s. "hold:" ++ s) e),
    (append_cancel_left _ _ _, λ e. ap (λ s. "capture:" ++ s) e),
    (append_cancel_left _ _ _, λ e. ap (λ s. "release:" ++ s) e),
  )

  -- Requests of two different operations never share a request id, whatever the payments are, and
  -- two of one operation share it exactly when they are for one payment.
  pub request_ids_agree :
      ((hold_request p a x c).request_id ≢ (capture_request q h y d).request_id)
      × ((hold_request p a x c).request_id ≢ (release_request q h r).request_id)
      × ((capture_request p h x c).request_id ≢ (release_request q k r).request_id)
      × (((hold_request p a x c).request_id ≡ (hold_request q b y d).request_id) ↔ (p ≡ q))
      × (((capture_request p h x c).request_id ≡ (capture_request q k y d).request_id) ↔ (p ≡ q))
      × (((release_request p h c).request_id ≡ (release_request q k d).request_id) ↔ (p ≡ q))
  request_ids_agree = (
    request_id-ne.0, request_id-ne.1, request_id-ne.2, request_id-inj.0, request_id-inj.1,
    request_id-inj.2,
  )
