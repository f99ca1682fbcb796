-- ===== src/Errors.antt =====
-- crates/openshell-driver-lxd/src/error.rs: the driver's errors, and the gRPC status of each.
use openshell_driver_lxd.Common.{◌≡◌, refl, ℕ, String, ◌<>◌, ◌==◌, nat_eq, if◌then◌else◌}
use openshell_driver_lxd.Common.Decimal.{show}
use openshell_driver_lxd.Lxd.Types.{LxdError, Result, ok, err}
use openshell_driver_lxd.Lxd.Types.{
  api, operation_failed, invalid_quantity, io, hyper, http, json, tls, web_socket,
}

pub data DriverError : Type 0 where
  unimplemented : String → DriverError
  invalid_argument : String → DriverError
  failed_precondition : String → DriverError
  lxd : LxdError → DriverError
  timeout : DriverError
  not_found : String → DriverError
  image_import : String → DriverError
  dhcp_client : String → DriverError

-- `tonic::Code`, the codes that the driver answers with.
pub data Code : Type 0 where
  unimplemented invalid_argument failed_precondition unauthenticated permission_denied : Code
  not_found already_exists internal deadline_exceeded data_loss : Code

-- `tonic::Status`
pub record Status : Type 0 where
  pub code : Code
  pub message : String

abbrev pub status : Code → String → Status
status code message = record { code = code; message = message }

-- `LxdError`'s `Display`. `debug` is the debug form of a text, `{quantity:?}`.
unfoldable pub display : (String → String) → LxdError → String
display debug (api status_code message) =
    "LXD API error (status " <> (show status_code <> ("): " <> message))
display debug (operation_failed description e) =
    "LXD operation failed: " <> (description <> (": " <> e))
display debug (invalid_quantity quantity reason) =
    "invalid resource quantity " <> (debug quantity <> (": " <> reason))
display debug (io e) = "transport error: " <> e
display debug (hyper e) = "hyper error: " <> e
display debug (http e) = "invalid request: " <> e
display debug (json e) = "invalid JSON from LXD: " <> e
display debug (tls reason) = "TLS error: " <> reason
display debug (web_socket reason) = "WebSocket error: " <> reason

-- The status of an LXD API error.
unfoldable pub api_status : ℕ → String → Status
api_status code message =
    if code == 400
    then status Code.invalid_argument message
    else if code == 401
    then status Code.unauthenticated message
    else if code == 403
    then status Code.permission_denied message
    else if code == 404
    then status Code.not_found message
    else if code == 409
    then status Code.already_exists message
    else status Code.internal ("LXD API error (status code " <> (show code <> ("): " <> message)))

-- `impl From<DriverError> for Status`.
unfoldable pub to_status : (String → String) → DriverError → Status
to_status debug (DriverError.unimplemented msg) = status Code.unimplemented msg
to_status debug (DriverError.invalid_argument msg) = status Code.invalid_argument msg
to_status debug (DriverError.failed_precondition msg) = status Code.failed_precondition msg
to_status debug (lxd (api code message)) = api_status code message
to_status debug (lxd (invalid_quantity quantity reason)) =
    status Code.invalid_argument
      ("invalid resource quantity " <> (debug quantity <> (": " <> reason)))
to_status debug (lxd e) = status Code.internal (display debug e)
to_status debug timeout =
    status Code.deadline_exceeded "timed out waiting for LXD operation to complete"
to_status debug (DriverError.not_found msg) = status Code.not_found msg
to_status debug (image_import msg) = status Code.internal ("image import failed: " <> msg)
to_status debug (dhcp_client msg) = status Code.internal ("DHCP client error: " <> msg)

-- `?` on a `Result` whose error is already the driver's.
infixl 5 ◌>>=◌
abbrev pub ◌>>=◌ {ℓ κ} :
    {A : Type ℓ} {B : Type κ}
    → Result DriverError A
    → (A → Result DriverError B)
    → Result DriverError B
ok a >>= f = f a
err e >>= f = err e

-- `?` on an LXD error: `From<LxdError> for DriverError`.
abbrev pub from_lxd {ℓ} : {A : Type ℓ} → Result LxdError A → Result DriverError A
from_lxd (ok a) = ok a
from_lxd (err e) = err (lxd e)

-- What a successful chain passed through.
pub >>=-eq-ok {ℓ κ} :
    {A : Type ℓ} {B : Type κ} (first : Result DriverError A) (next : A → Result DriverError B)
    {last : B}
    → (first >>= next) ≡ ok last
    → (between : A) × (first ≡ ok between) × (next between ≡ ok last)
>>=-eq-ok (ok value) next ended = (value, refl, ended)
>>=-eq-ok (err failure) next ended = cc

pub ok-injective {ℓ} : {A : Type ℓ} (a b : A) → Path (Result DriverError A) (ok a) (ok b) → a ≡ b
ok-injective a b h = cc
