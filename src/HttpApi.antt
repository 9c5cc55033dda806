-- ===== src/HttpApi.antt =====
-- internal/httpapi: the public interface. A request is what its handler reads of it, and a response
-- is its status and what is encoded as its body; the JSON and uuid libraries are arguments.
pub mod StepUp
pub mod Create
pub mod Created
pub mod Gate
pub mod Resume
pub mod Once
pub mod Secured
pub mod Quotes
pub mod Reads
pub mod Stream
pub mod Health
pub mod Tests
use text.Mathlib.Text.{◌==◌ as str_eq}
use peikonpurekkusu_payment.Prelude.{
  ℕ, Bool, String, List, [], ◌∷◌, Option, none, some, if◌then◌else◌,
}
use peikonpurekkusu_payment.Prelude.Int.{ℤ}
use peikonpurekkusu_payment.Prelude.Bytes.{Bytes}
use peikonpurekkusu_payment.Payment.{Uuid, Time}

-- The headers of a request, by their canonical names.
abbrev pub Headers : Type 0
Headers = List (String × String)

-- `Header.Get`: the first value, or the empty text.
unfoldable pub get : String → Headers → String
get name [] = ""
get name ((n, v) ∷ rest) = if str_eq n name then v else get name rest

pub record Request : Type 0 where
  pub headers : Headers
  -- `PathValue("id")`
  pub path_id : String
  -- none if it cannot be read.
  pub body : Option Bytes
