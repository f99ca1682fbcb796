-- ===== src/Lxd/Trust/Connector.antt =====
-- crates/lxd-client/src/client.rs: the servers that a client built by `build_connector` accepts.
use openshell_driver_lxd.Common.{
  ◌≡◌, refl, sym, ap, ◌∙◌, subst, arith, ℕ, String, List, [], ◌∷◌, Option, none, some, true, ◌==◌,
  nat_eq, Bool-cases, inl, inr,
}
use openshell_driver_lxd.Lxd.Trust.{
  Outcome, returns, fails, panics, ◌>>=◌, or_tls, LxdHttpsConfig, Verifier, TlsConnector, Tls,
  parse_fingerprint, bytes_eq, verify_server_cert, read_certs, read_key, single, add_roots,
  verifier_of, build_connector,
}

bytes_eq-eq : (xs ys : List ℕ) → bytes_eq xs ys ≡ true → xs ≡ ys
unfolding bytes_eq
bytes_eq-eq [] [] h = refl
bytes_eq-eq [] (y ∷ ys) h = absurd (ground (arith, h))
bytes_eq-eq (x ∷ xs) [] h = absurd (ground (arith, h))
bytes_eq-eq (x ∷ xs) (y ∷ ys) h = elim (Bool-cases (x == y)) [
  | inr f ↦ absurd (ground (arith, h))
  | inl f ↦
      let same : x ≡ y = ground (arith, f) in
      let rest = bytes_eq-eq xs ys (rw f at h) in cc (same, rest)
]

module _ {A B : Type 0} where
  -- A step before a value that is returned has returned one itself.
  >>=-eq-returns :
      (m : Outcome A) (f : A → Outcome B) (b : B)
      → m >>= f ≡ returns b
      → (a : A) × (m ≡ returns a) × (f a ≡ returns b)
  >>=-eq-returns (returns a) f b h = (a, refl, h)
  >>=-eq-returns (fails e) f b h = absurd (ground (arith, h))
  >>=-eq-returns panics f b h = absurd (ground (arith, h))

returns-injective : {A : Type 0} {a b : A} → returns a ≡ returns b → a ≡ b
returns-injective {A} {a} {b} h = ap value h
  where
    value : Outcome A → A
    value (returns x) = x
    value (fails e) = a
    value panics = a

-- What a configuration says of a server's certificate: its SHA-256 is the fingerprint, or else it is the only
-- one of the file given for it, or else the roots of the CA's file, or those of webpki, vouch for it.
abbrev pub IsTrusted : Tls → Option (List ℕ) → Option String → Option String → List ℕ → Type 0
IsTrusted T (some fingerprint) server_cert server_ca cert =
    parse_fingerprint fingerprint ≡ returns (T.sha256 cert)
IsTrusted T none (some path) server_ca cert = read_certs T "server cert" path ≡ returns (cert ∷ [])
IsTrusted T none none (some path) cert =
    (roots : List (List ℕ)) × (read_certs T "server CA" path ≡ returns roots)
    × (T.chain_of roots cert ≡ true)
IsTrusted T none none none cert = T.chain_of T.webpki_roots cert ≡ true

module _ (T : Tls) where
  add_roots-same : (certs roots : List (List ℕ)) → add_roots T certs ≡ returns roots → certs ≡ roots
  unfolding add_roots
  add_roots-same [] roots h = returns-injective h
  add_roots-same (cert ∷ certs) roots h =
      let (checked, added, last) =
        >>=-eq-returns (or_tls "invalid CA cert" (T.check_root cert)) _ roots h in
      let (others, e, built) = >>=-eq-returns (add_roots T certs) _ roots last in
      ap (λ r. cert ∷ r) (add_roots-same certs others e) ∙ returns-injective built

  single-eq :
      (certs : List (List ℕ)) (cert : List ℕ) → single T certs ≡ returns cert → certs ≡ cert ∷ []
  single-eq [] cert h = absurd (ground (arith, h))
  single-eq (c ∷ []) cert h = ap (λ x. x ∷ []) (returns-injective h)
  single-eq (c ∷ d ∷ certs) cert h = absurd (ground (arith, h))

  verifier_of-IsTrusted :
      (fingerprint : Option (List ℕ)) (server_cert server_ca : Option String) (verifier : Verifier)
      (cert : List ℕ)
      → verifier_of T fingerprint server_cert server_ca ≡ returns verifier
      → verify_server_cert T verifier cert ≡ true
      → IsTrusted T fingerprint server_cert server_ca cert
  unfolding verify_server_cert
  verifier_of-IsTrusted (some fingerprint) server_cert server_ca verifier cert h good =
      let (bytes, read, built) = >>=-eq-returns (parse_fingerprint fingerprint) _ verifier h in
      let good =
        subst (λ v. verify_server_cert T v cert ≡ true) (sym (returns-injective built)) good in
      read ∙ ap returns (sym (bytes_eq-eq _ _ good))
  verifier_of-IsTrusted none (some path) server_ca verifier cert h good =
      let (certs, read, rest) = >>=-eq-returns (read_certs T "server cert" path) _ verifier h in
      let (pinned, only, built) = >>=-eq-returns (single T certs) _ verifier rest in
      let good =
        subst (λ v. verify_server_cert T v cert ≡ true) (sym (returns-injective built)) good in
      read
      ∙ ap returns (single-eq certs pinned only ∙ ap (λ x. x ∷ []) (sym (bytes_eq-eq _ _ good)))
  verifier_of-IsTrusted none none (some path) verifier cert h good =
      let (certs, read, rest) = >>=-eq-returns (read_certs T "server CA" path) _ verifier h in
      let (roots, added, built) = >>=-eq-returns (add_roots T certs) _ verifier rest in
      let good =
        subst (λ v. verify_server_cert T v cert ≡ true) (sym (returns-injective built)) good in
      (roots, read ∙ ap returns (add_roots-same certs roots added), good)
  verifier_of-IsTrusted none none none verifier cert h good =
      subst (λ v. verify_server_cert T v cert ≡ true) (sym (returns-injective h)) good

-- A client that `build_connector` returns accepts only a certificate that its configuration trusts: where
-- a fingerprint is given, one with this SHA-256, whatever else is given; or else, where a certificate is
-- given, this one, the only one of its file; or else one that the roots of the CA's file vouch for, or
-- those of webpki if there is no such file.
pub build_connector-IsTrusted :
    (T : Tls) (c : LxdHttpsConfig) (connector : TlsConnector) (cert : List ℕ)
    → build_connector T c ≡ returns connector
    → verify_server_cert T connector.verifier cert ≡ true
    → IsTrusted T c.server_fingerprint c.server_cert c.server_ca cert
unfolding build_connector
build_connector-IsTrusted T c connector cert h good =
    let (client_certs, r0, h) =
      >>=-eq-returns (read_certs T "client cert" c.client_cert) _ connector h in
    let (key, r1, h) = >>=-eq-returns (read_key T c.client_key) _ connector h in
    let (versions, r2, h) =
      >>=-eq-returns (or_tls "TLS protocol error" T.protocol_versions) _ connector h in
    let (verifier, r3, h) =
      >>=-eq-returns (verifier_of T c.server_fingerprint c.server_cert c.server_ca) _ connector h in
    let (auth, r4, h) =
      >>=-eq-returns (or_tls "TLS cert error" (T.client_auth client_certs key)) _ connector h in
    let same : verifier ≡ connector.verifier = ap (λ x. x.verifier) (returns-injective h) in
    verifier_of-IsTrusted T c.server_fingerprint c.server_cert c.server_ca verifier cert r3
      (subst (λ v. verify_server_cert T v cert ≡ true) (sym same) good)
