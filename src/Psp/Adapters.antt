-- ===== src/Psp/Adapters.antt =====
-- The card and wallet adapters of internal/psp/psp.go and the HTTP plumbing that they share.
-- The HTTP client and the JSON decoder are arguments.
use Prim.Native.String.{◌++◌, slice}
use peikonpurekkusu_payment.Prelude.{ℕ, Bool, String, leb, if◌then◌else◌, ◌⊎◌, inl, inr}
use peikonpurekkusu_payment.Prelude.Int.{ℤ}
use peikonpurekkusu_payment.Prelude.Text.{decimal}
use peikonpurekkusu_payment.Psp.{
  Outcome, unset, approved, declined, pending, AuthResult, unavailable, plain, Error, Result, ok,
  err, PaymentProcessor,
}
use text.Mathlib.Text.{◌==◌}

pub record AuthorizeReq : Type 0 where
  pub reference : String
  pub amount_minor : ℤ
  pub currency : String
  pub method : String
  pub token : String

pub record AuthorizeResp : Type 0 where
  pub psp_reference : String
  pub outcome : String
  pub decline_code : String
  pub pending : Bool

-- What a call of the HTTP client ends in: the request cannot be built, no response comes, or a
-- response with its status and body.
pub data HttpReply : Type 0 where
  bad_request transport_error : String → HttpReply
  response : ℕ → String → HttpReply

-- The HTTP client: a POST of an authorization, and a POST with no body to a URL. The decoder
-- gives the decoded value or the text of its error.
pub record HttpClient (H : Type 0) : Type 0 where
  pub post_authorize : H → String → AuthorizeReq → HttpReply
  pub post : H → String → HttpReply
  pub decode : String → AuthorizeResp ⊎ String

abbrev pub unavailable_error : String → Error
unavailable_error m = record { kind = unavailable; message = "processor unavailable: " ++ m }

abbrev pub plain_error : String → Error
plain_error m = record { kind = plain; message = m }

-- The normalised outcome of a decoded response.
unfoldable pub outcome_of : AuthorizeResp → Outcome
outcome_of out =
    if out.pending then pending else if out.outcome == "approved" then approved else declined

unfoldable pub auth_result : AuthorizeResp → AuthResult
unfolding outcome_of
auth_result out = record {
  outcome = outcome_of out;
  psp_reference = out.psp_reference;
  decline_code = out.decline_code;
}

-- `doAuthorize`, from the client's reply on.
unfoldable pub read_authorize : (String → AuthorizeResp ⊎ String) → HttpReply → Result AuthResult
read_authorize decode (bad_request m) = err (plain_error m)
read_authorize decode (transport_error m) = err (unavailable_error m)
read_authorize decode (response code body) =
    if leb 500 code
    then err (unavailable_error ("HTTP " ++ decimal code))
    else if leb 400 code
    then err (
        plain_error
          ("processor rejected request: HTTP " ++ decimal code ++ " " ++ slice body 0 256))
    else elim (decode body) [
      | inl out ↦ ok (auth_result out)
      | inr m ↦ err (unavailable_error ("bad response: " ++ m))
    ]

-- `doPost`, from the client's reply on.
unfoldable pub read_post : HttpReply → Result (Unit {0})
read_post (bad_request m) = err (plain_error m)
read_post (transport_error m) = err (unavailable_error m)
read_post (response code body) =
    if leb 500 code
    then err (unavailable_error ("HTTP " ++ decimal code))
    else if leb 400 code
    then err (plain_error ("processor rejected: HTTP " ++ decimal code))
    else ok tt

-- The wallet acknowledges, and completes later.
unfoldable pub wallet_outcome : Outcome → Outcome
wallet_outcome unset = pending
wallet_outcome pending = pending
wallet_outcome o = o

unfoldable pub wallet_result : Result AuthResult → Result AuthResult
unfolding wallet_outcome
wallet_result (ok res) = ok (record res { outcome = wallet_outcome res.outcome })
wallet_result (err e) = err e

module _ {H : Type 0} (http : HttpClient H) (base_url : String) where
  unfoldable pub do_authorize : H → AuthorizeReq → Result AuthResult
  unfolding read_authorize
  do_authorize h body =
      read_authorize http.decode (http.post_authorize h (base_url ++ "/authorize") body)

  unfoldable pub do_post : H → String → Result (Unit {0})
  unfolding read_post
  do_post h url = read_post (http.post h url)

  unfoldable pub card_processor : PaymentProcessor H
  unfolding do_authorize do_post
  card_processor = record {
    authorize = λ h payment_id amount currency token. do_authorize h (record {
      reference = payment_id;
      amount_minor = amount;
      currency = currency;
      method = "card";
      token = token;
    });
    capture = λ h ref. do_post h (base_url ++ "/capture/" ++ ref);
    reverse = λ h ref. do_post h (base_url ++ "/reverse/" ++ ref);
    name = "mockpay-card";
  }

  unfoldable pub wallet_processor : PaymentProcessor H
  unfolding do_authorize do_post wallet_result
  wallet_processor = record {
    authorize = λ h payment_id amount currency token. wallet_result (
        do_authorize h (record {
          reference = payment_id;
          amount_minor = amount;
          currency = currency;
          method = "wallet";
          token = token;
        }));
    capture = λ h ref. do_post h (base_url ++ "/capture/" ++ ref);
    reverse = λ h ref. do_post h (base_url ++ "/reverse/" ++ ref);
    name = "mockpay-wallet";
  }
