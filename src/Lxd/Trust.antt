-- ===== src/Lxd/Trust.antt =====
-- crates/lxd-client/src/client.rs: which server a client of an HTTPS endpoint trusts,
-- `LxdHttpsConfig::build_connector`, `parse_fingerprint` and the two verifiers. A text is the bytes of
-- its UTF-8 form where the code cuts it into bytes. Files, PEM, SHA-256 and rustls are parameters.
pub mod Fingerprint
pub mod Connector
use openshell_driver_lxd.Common.{
  ℕ, ◌+◌, ◌-◌, ◌*◌, String, ◌<>◌, List, [], ◌∷◌, Option, none, some, Bool, true, false, ◌&&◌, ◌||◌,
  not, ◌==◌, nat_eq, leb, ltb, if◌then◌else◌, length, map, keep,
}
use openshell_driver_lxd.Common.Decimal.{show}
use openshell_driver_lxd.Lxd.Types.{LxdError, Result, ok, err, tls}

-- What a function that may panic does.
pub data Outcome (A : Type 0) : Type 0 where
  returns : A → Outcome A
  fails : LxdError → Outcome A
  panics : Outcome A

infixl 10 ◌>>=◌ ◌>>◌
abbrev pub ◌>>=◌ : {A B : Type 0} → Outcome A → (A → Outcome B) → Outcome B
◌>>=◌ (returns a) f = f a
◌>>=◌ (fails e) f = fails e
◌>>=◌ panics f = panics

abbrev pub ◌>>◌ : {A B : Type 0} → Outcome A → Outcome B → Outcome B
m >> n = m >>= λ _. n

-- `map_err(|e| LxdError::Tls { reason: format!("…: {e}") })?`
abbrev pub or_tls : {A : Type 0} → String → Result String A → Outcome A
or_tls what (ok a) = returns a
or_tls what (err e) = fails (tls (what <> (": " <> e)))

unfoldable pub to_ascii_lowercase : ℕ → ℕ
to_ascii_lowercase b = if leb b'A' b && leb b b'Z' then b + 32 else b

-- `char::to_digit(16)`
unfoldable pub to_digit : ℕ → Option ℕ
to_digit b =
    if leb b'0' b && leb b b'9'
    then some (b - b'0')
    else if leb b'a' b && leb b b'f'
    then some (b - b'a' + 10)
    else if leb b'A' b && leb b b'F'
    then some (b - b'A' + 10)
    else none

-- The text of `ParseIntError` for a digit that is none.
abbrev pub invalid_digit : String
invalid_digit = "invalid digit found in string"

abbrev pub two_digits : Option ℕ → Option ℕ → Result String ℕ
two_digits (some a) (some b) = ok (a * 16 + b)
two_digits _ _ = err invalid_digit

abbrev pub one_digit : Option ℕ → Result String ℕ
one_digit (some b) = ok b
one_digit none = err invalid_digit

-- `u8::from_str_radix(_, 16)` of two bytes: a sign may stand before the digits.
unfoldable pub from_str_radix : ℕ → ℕ → Result String ℕ
from_str_radix a b =
    if a == b'+' then one_digit (to_digit b) else two_digits (to_digit a) (to_digit b)

-- `std::str::from_utf8` of two bytes succeeds.
unfoldable pub is_utf8 : ℕ → ℕ → Bool
is_utf8 a b = ltb a 0x80 && ltb b 0x80 || leb 0xC2 a && leb a 0xDF && (leb 0x80 b && leb b 0xBF)

-- The loop over `chunks(2)`, for an even number of bytes.
unfoldable pub parse_chunks : List ℕ → Outcome (List ℕ)
parse_chunks (a ∷ b ∷ rest) =
    let others = parse_chunks rest in
    let first = or_tls "invalid fingerprint hex" (from_str_radix a b) in
    if is_utf8 a b then (first >>= λ byte. others >>= λ bytes. returns (byte ∷ bytes)) else panics
parse_chunks _ = returns []

unfoldable pub parse_fingerprint : List ℕ → Outcome (List ℕ)
parse_fingerprint input =
    let hex = keep (λ b. not (b == b':')) (map to_ascii_lowercase input) in
    if not (length hex == 64)
    then fails
        (tls ("invalid fingerprint length: expected 64 hex chars, got " <> show (length hex)))
    else parse_chunks hex

unfoldable pub bytes_eq : List ℕ → List ℕ → Bool
bytes_eq [] [] = true
bytes_eq (a ∷ rest) (b ∷ others) = a == b && bytes_eq rest others
bytes_eq _ _ = false

-- The paths of `LxdHttpsConfig`; the fingerprint as bytes.
pub record LxdHttpsConfig : Type 0 where
  pub client_cert : String
  pub client_key : String
  pub server_ca : Option String
  pub server_cert : Option String
  pub server_fingerprint : Option (List ℕ)

-- How the certificate of a server is verified.
pub data Verifier : Type 0 where
  fingerprint_verifier : List ℕ → Verifier
  pinned_server_cert : List ℕ → Verifier
  root_certificates : List (List ℕ) → Verifier

pub record TlsConnector : Type 0 where
  pub verifier : Verifier
  pub client_certs : List (List ℕ)
  pub key : List ℕ

-- The files, the PEM reader, rustls and its roots, and SHA-256. A certificate and a key are bytes.
pub record Tls : Type 0 where
  pub open_file : String → Result String (List ℕ)
  pub certs : List ℕ → Result String (List (List ℕ))
  pub private_key : List ℕ → Result String (Option (List ℕ))
  pub protocol_versions : Result String (Unit {0})
  pub check_root : List ℕ → Result String (Unit {0})
  pub webpki_roots : List (List ℕ)
  pub client_auth : List (List ℕ) → List ℕ → Result String (Unit {0})
  pub chain_of : List (List ℕ) → List ℕ → Bool
  pub sha256 : List ℕ → List ℕ

module _ (T : Tls) where
  -- `verify_server_cert` of the verifier accepts the server's certificate; roots are left to webpki.
  unfoldable pub verify_server_cert : Verifier → List ℕ → Bool
  verify_server_cert (fingerprint_verifier fingerprint) end_entity =
      bytes_eq (T.sha256 end_entity) fingerprint
  verify_server_cert (pinned_server_cert cert) end_entity = bytes_eq end_entity cert
  verify_server_cert (root_certificates roots) end_entity = T.chain_of roots end_entity

  -- The certificates of a PEM file.
  abbrev pub read_certs : String → String → Outcome (List (List ℕ))
  read_certs what path = do
    file ← or_tls ("cannot open " <> what) (T.open_file path)
    or_tls ("invalid " <> (what <> " PEM")) (T.certs file)

  abbrev pub some_key : Option (List ℕ) → Outcome (List ℕ)
  some_key none = fails (tls "no private key in PEM file")
  some_key (some key) = returns key

  abbrev pub read_key : String → Outcome (List ℕ)
  read_key path = do
    file ← or_tls "cannot open client key" (T.open_file path)
    key ← or_tls "invalid client key PEM" (T.private_key file)
    some_key key

  abbrev pub single : List (List ℕ) → Outcome (List ℕ)
  single (cert ∷ []) = returns cert
  single certs =
      fails
        (tls ("server cert file must hold exactly one certificate, found " <> show (length certs)))

  unfoldable pub add_roots : List (List ℕ) → Outcome (List (List ℕ))
  add_roots [] = returns []
  add_roots (cert ∷ certs) = do
    or_tls "invalid CA cert" (T.check_root cert)
    roots ← add_roots certs
    returns (cert ∷ roots)

  abbrev pub verifier_of : Option (List ℕ) → Option String → Option String → Outcome Verifier
  verifier_of (some fingerprint) server_cert server_ca = do
    bytes ← parse_fingerprint fingerprint
    returns (fingerprint_verifier bytes)
  verifier_of none (some path) server_ca = do
    certs ← read_certs "server cert" path
    cert ← single certs
    returns (pinned_server_cert cert)
  verifier_of none none (some path) = do
    certs ← read_certs "server CA" path
    roots ← add_roots certs
    returns (root_certificates roots)
  verifier_of none none none = returns (root_certificates T.webpki_roots)

  unfoldable pub build_connector : LxdHttpsConfig → Outcome TlsConnector
  build_connector c = do
    client_certs ← read_certs "client cert" c.client_cert
    key ← read_key c.client_key
    or_tls "TLS protocol error" T.protocol_versions
    verifier ← verifier_of c.server_fingerprint c.server_cert c.server_ca
    or_tls "TLS cert error" (T.client_auth client_certs key)
    returns (record { verifier = verifier; client_certs = client_certs; key = key })
