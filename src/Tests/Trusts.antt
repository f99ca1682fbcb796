-- ===== src/Tests/Trusts.antt =====
-- The theorems on the client's requests and on the servers that it trusts, at concrete inputs, and what
-- `parse_fingerprint` makes of two texts that are no fingerprints.
use openshell_driver_lxd.Common.{
  ◌≡◌, refl, ℕ, zero, suc, String, List, [], ◌∷◌, none, some, false, nat_eq,
}
use openshell_driver_lxd.Lxd.Types.{ok, err, json}
use openshell_driver_lxd.Lxd.Http.{Wire, post_raw, post_raw_response}
use openshell_driver_lxd.Lxd.Http.Envelopes.{Agree, post_raw-Agree}
use openshell_driver_lxd.Image.Manifest.{Json}
use openshell_driver_lxd.Lxd.Trust.{
  returns, panics, parse_fingerprint, to_ascii_lowercase, to_digit, from_str_radix, is_utf8,
  parse_chunks, bytes_eq, LxdHttpsConfig, Tls, TlsConnector, pinned_server_cert, verify_server_cert,
  build_connector,
}
use openshell_driver_lxd.Lxd.Trust.Fingerprint.{
  Spells, nothing, colon, byte, parse_fingerprint-Spells,
}
use openshell_driver_lxd.Lxd.Trust.Connector.{IsTrusted, build_connector-IsTrusted}

abbrev repeated : {A : Type 0} → ℕ → A → List A
repeated zero x = []
repeated (suc n) x = x ∷ repeated n x

-- A wire whose server answers a page of a proxy.
abbrev proxied : Wire
proxied = record {
  Url = String;
  join = λ base path. path;
  append_pair = λ name value url. url;
  path = λ url. url;
  query = λ url. none;
  exchange = λ r. ok (record { status = 200; headers = []; body = 60 ∷ [] });
  parse = λ T body. err (json "expected value");
  to_vec = λ value. [];
  display_status = λ status. "";
  debug = λ texts. "";
}

post_raw-Agree_example :
    Agree proxied
      (ok (record { status = 200; headers = []; body = 60 ∷ [] }))
      (post_raw proxied "default" "/1.0/files" "text/plain" [] (1 ∷ []))
      (post_raw_response proxied "default" Json "/1.0/files" "text/plain" [] (1 ∷ []))
post_raw-Agree_example =
    post_raw-Agree proxied "default" "/1.0/files" "text/plain" [] (1 ∷ [])
      (json "expected value", refl)

-- `aF:` repeated, and the bytes that it spells.
abbrev spelled : ℕ → List ℕ
spelled zero = []
spelled (suc n) = b'a' ∷ b'F' ∷ b':' ∷ spelled n

spelled-Spells : (n : ℕ) → Spells (spelled n) (repeated n 0xAF)
unfolding to_digit
spelled-Spells zero = nothing
spelled-Spells (suc n) = byte b'a' b'F' 10 15 refl refl (colon (spelled-Spells n))

parse_fingerprint-Spells_example : parse_fingerprint (spelled 32) ≡ returns (repeated 32 0xAF)
parse_fingerprint-Spells_example = parse_fingerprint-Spells (spelled-Spells 32) refl

-- A text of 64 bytes that begins with a letter of three bytes.
three_bytes_panic : parse_fingerprint (0xE2 ∷ 0x82 ∷ 0xAC ∷ repeated 61 b'0') ≡ panics
unfolding parse_fingerprint parse_chunks to_ascii_lowercase is_utf8 from_str_radix to_digit
three_bytes_panic = refl

-- `+f` repeated, which is no hexadecimal text.
abbrev signed : ℕ → List ℕ
signed zero = []
signed (suc n) = b'+' ∷ b'f' ∷ signed n

signs_accepted : parse_fingerprint (signed 32) ≡ returns (repeated 32 15)
unfolding parse_fingerprint parse_chunks to_ascii_lowercase is_utf8 from_str_radix to_digit
signs_accepted = refl

-- A host where every PEM file holds one certificate, its own contents, and any key will do.
abbrev single_certs : Tls
single_certs = record {
  open_file = λ path. ok (7 ∷ []);
  certs = λ file. ok (file ∷ []);
  private_key = λ file. ok (some file);
  protocol_versions = ok tt;
  check_root = λ cert. ok tt;
  webpki_roots = [];
  client_auth = λ certs key. ok tt;
  chain_of = λ roots cert. false;
  sha256 = λ bytes. bytes;
}

abbrev pinned : LxdHttpsConfig
pinned = record {
  client_cert = "client.crt";
  client_key = "client.key";
  server_ca = none;
  server_cert = some "server.crt";
  server_fingerprint = none;
}

abbrev connector : TlsConnector
connector = record {
  verifier = pinned_server_cert (7 ∷ []);
  client_certs = (7 ∷ []) ∷ [];
  key = 7 ∷ [];
}

build_connector-IsTrusted_example : IsTrusted single_certs none (some "server.crt") none (7 ∷ [])
unfolding build_connector verify_server_cert bytes_eq
build_connector-IsTrusted_example =
    build_connector-IsTrusted single_certs pinned connector (7 ∷ []) refl refl
