-- ===== src/Lxd/Http/Envelopes.antt =====
-- crates/lxd-client/src/client.rs: `post_raw`, which takes any body for an answer, against
-- `post_raw_response`, which wants an envelope.
use openshell_driver_lxd.Common.{
  ◌≡◌, refl, arith, ℕ, String, List, [], ◌∷◌, true, ◌⊎◌, inl, inr, Bool-cases, ap, ◌∙◌, length,
  ◌==◌, nat_eq,
}
use openshell_driver_lxd.Lxd.Types.{LxdError, Result, ok, err}
use openshell_driver_lxd.Image.Manifest.{Json}
use openshell_driver_lxd.Lxd.Http.{
  LxdResponse, HttpResponse, Wire, is_success, is_error, error_in, refusal, accepted, tolerated,
  read_envelope, read_raw, answered, post_of, post_raw, post_raw_response,
}

-- An answer that is a success, but whose body is no envelope.
abbrev pub IsBare : Wire → HttpResponse → Type 0
IsBare W answer =
    (is_success answer.status ≡ true) × (e : LxdError) × (W.parse Json answer.body ≡ err e)

-- How two readings of one exchange compare: both succeed, or both fail with the same error, or the
-- first one succeeds on an answer without an envelope and the second one fails.
abbrev pub Agree :
    Wire
    → Result LxdError HttpResponse
    → Result LxdError (Unit {0})
    → Result LxdError (LxdResponse Json)
    → Type 0
Agree W exchanged raw read =
    ((raw ≡ ok tt) × (r : LxdResponse Json) × (read ≡ ok r))
    ⊎ (((e : LxdError) × (raw ≡ err e) × (read ≡ err e))
        ⊎ ((raw ≡ ok tt)
            × (e : LxdError) × (read ≡ err e)
            × (answer : HttpResponse) × (exchanged ≡ ok answer)
            × IsBare W answer))

length-zero : (xs : List ℕ) → (length xs == 0) ≡ true → xs ≡ []
length-zero [] h = refl
length-zero (x ∷ xs) h = absurd (ground (arith, h))

module _ (W : Wire) where
  -- The two readings of a body.
  parsed-Agree :
      (answer : HttpResponse) (project : String)
      → is_success answer.status ≡ true
      → (parsed : Result LxdError (LxdResponse Json)) → W.parse Json answer.body ≡ parsed
      → Agree W (ok answer) (tolerated W project parsed) (accepted W project parsed)
  parsed-Agree answer project good (err e) same =
      inr (inr (refl, e, refl, answer, refl, (good, e, same)))
  parsed-Agree answer project good (ok r) same = elim (Bool-cases (is_error r)) [
    | inl f ↦ rw (f) (inr (inl (error_in r, refl, refl)))
    | inr f ↦ rw (f) (inl (refl, r, refl))
  ]

  read-Agree :
      (answer : HttpResponse) (project : String)
      → ((e : LxdError) × (W.parse Json [] ≡ err e))
      → Agree W (ok answer) (read_raw W project answer) (read_envelope W project Json answer)
  unfolding read_raw read_envelope
  read-Agree answer project empty = elim (Bool-cases (is_success answer.status)) [
    | inr f ↦ rw (f) (inr (inl (refusal W project answer, refl, refl)))
    | inl f ↦ elim (Bool-cases (length answer.body == 0)) [
      | inr g ↦ rw (f, g) (parsed-Agree answer project f (W.parse Json answer.body) refl)
      | inl g ↦
          let (e, none_read) = empty in
          let bare = ap (W.parse Json) (length-zero answer.body g) ∙ none_read in
          rw (f, g, bare) (inr (inr (refl, e, refl, answer, refl, (f, e, bare))))
    ]
  ]

  answered-Agree :
      (exchanged : Result LxdError HttpResponse) (project : String)
      → ((e : LxdError) × (W.parse Json [] ≡ err e))
      → Agree W exchanged
          (answered W project exchanged (read_raw W project))
          (answered W project exchanged (read_envelope W project Json))
  answered-Agree (err e) project empty = inr (inl (e, refl, refl))
  answered-Agree (ok answer) project empty = read-Agree answer project empty

-- For a JSON parser that refuses an empty text: `post_raw` answers as `post_raw_response` does for the
-- same request, with the same error where there is one, except on an answer that is a success and whose
-- body is no envelope, which only `post_raw` takes for a success.
pub post_raw-Agree :
    (W : Wire) (project path content_type : String) (extra_headers : List (String × String))
    (body : List ℕ)
    → ((e : LxdError) × (W.parse Json [] ≡ err e))
    → Agree W
        (W.exchange (post_of W project path content_type extra_headers body))
        (post_raw W project path content_type extra_headers body)
        (post_raw_response W project Json path content_type extra_headers body)
unfolding post_raw post_raw_response
post_raw-Agree W project path content_type extra_headers body empty =
    answered-Agree W _ project empty
