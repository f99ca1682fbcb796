-- ===== src/Lxd/Http.antt =====
-- crates/lxd-client/src/client.rs: the requests of `LxdClient` and what becomes of their answers. The
-- transport (`connect`, `send_request` and the collection of the body), the URL crate, serde_json and
-- the text of an HTTP status are parameters. A body of an answer is its bytes.
pub mod Envelopes
use openshell_driver_lxd.Common.{
  ℕ, String, ◌<>◌, List, [], ◌∷◌, Option, none, some, Bool, true, false, ◌&&◌, not, ◌==◌, string_eq,
  leb, if◌then◌else◌, length, nat_eq, any, ◌++◌,
}
use openshell_driver_lxd.Common.Decimal.{show}
use openshell_driver_lxd.Lxd.Types.{LxdError, Result, ok, err, api}
use openshell_driver_lxd.Image.Manifest.{
  Json, Items, nil, cons, get as get_key, get_in, as_array, as_str,
}

-- `LxdResponse<T>`
pub record LxdResponse (T : Type 0) : Type 0 where
  pub type_ : String
  pub status_code : ℕ
  pub error_code : ℕ
  pub metadata : Option T
  pub error : Option String

unfoldable pub into_metadata : {T : Type 0} → LxdResponse T → Result LxdError T
into_metadata r = elim r.metadata [
  | none ↦ err (api r.status_code "LXD response missing metadata")
  | some m ↦ ok m
]

pub data Method : Type 0 where
  get_method post_method put_method patch_method delete_method : Method

-- A request on the wire, without the `Host` header.
pub record HttpRequest : Type 0 where
  pub method : Method
  pub uri : String
  pub headers : List (String × String)
  pub body : List ℕ

pub record HttpResponse : Type 0 where
  pub status : ℕ
  pub headers : List (String × String)
  pub body : List ℕ

-- What the client calls: the transport, `Url::join`, `append_pair`, `path` and `query`, serde_json's
-- parser and printer, the text of a status and the debug form of a list.
pub record Wire : Type 1 where
  pub Url : Type 0
  pub join : (base path : String) → Url
  pub append_pair : (name value : String) → Url → Url
  pub path : Url → String
  pub query : Url → Option String
  pub exchange : HttpRequest → Result LxdError HttpResponse
  pub parse : (T : Type 0) → List ℕ → Result LxdError (LxdResponse T)
  pub to_vec : Json → List ℕ
  pub display_status : ℕ → String
  pub debug : List String → String

-- `StatusCode::is_success`
abbrev pub is_success : ℕ → Bool
is_success status = leb 200 status && leb status 299

abbrev pub is_error : {T : Type 0} → LxdResponse T → Bool
is_error r = r.type_ == "error"

abbrev pub text_or : String → Option String → String
text_or s none = s
text_or s (some t) = t

-- The error of an envelope of the type "error" in an answer that is a success.
abbrev pub error_in : {T : Type 0} → LxdResponse T → LxdError
error_in r = api r.error_code (text_or ("LXD error " <> show r.error_code) r.error)

module _ (W : Wire) (project : String) where
  unfoldable pub decorate_path : String → String
  decorate_path path =
      let url = W.append_pair "project" project (W.join "http://localhost" path) in
      elim (W.query url) [ none ↦ W.path url | some query ↦ W.path url <> ("?" <> query) ]

  -- The error of an answer that is no success, from its envelope if it has one.
  abbrev pub refusal_in : ℕ → Result LxdError (LxdResponse Json) → LxdError
  refusal_in status (err e) = api status ("HTTP " <> W.display_status status)
  refusal_in status (ok r) =
      if is_error r
      then api r.error_code (text_or ("HTTP " <> W.display_status status) r.error)
      else api status ("HTTP " <> W.display_status status)

  unfoldable pub refusal : HttpResponse → LxdError
  refusal answer = refusal_in answer.status (W.parse Json answer.body)

  abbrev pub accepted :
      {T : Type 0} → Result LxdError (LxdResponse T) → Result LxdError (LxdResponse T)
  accepted (err e) = err e
  accepted (ok parsed) = if is_error parsed then err (error_in parsed) else ok parsed

  -- What becomes of an answer that has an envelope.
  unfoldable pub read_envelope : (T : Type 0) → HttpResponse → Result LxdError (LxdResponse T)
  read_envelope T answer =
      if not (is_success answer.status)
      then err (refusal answer)
      else accepted (W.parse T answer.body)

  -- What becomes of an answer that may have none.
  abbrev pub tolerated : Result LxdError (LxdResponse Json) → Result LxdError (Unit {0})
  tolerated (err e) = ok tt
  tolerated (ok parsed) = if is_error parsed then err (error_in parsed) else ok tt

  unfoldable pub read_raw : HttpResponse → Result LxdError (Unit {0})
  read_raw answer =
      if not (is_success answer.status)
      then err (refusal answer)
      else if not (length answer.body == 0)
      then tolerated (W.parse Json answer.body)
      else ok tt

  abbrev pub read_with_headers : HttpResponse → Result LxdError (List (String × String) × List ℕ)
  read_with_headers answer =
      if not (is_success answer.status)
      then err (refusal answer)
      else ok (answer.headers, answer.body)

  -- An answer of the transport under `?`.
  abbrev pub answered :
      {A : Type 0}
      → Result LxdError HttpResponse
      → (HttpResponse → Result LxdError A)
      → Result LxdError A
  answered (err e) read = err e
  answered (ok answer) read = read answer

  abbrev pub body_of : Option Json → List ℕ
  body_of none = []
  body_of (some value) = W.to_vec value

  abbrev pub content_type_of : Option Json → List (String × String)
  content_type_of none = []
  content_type_of (some value) = ("Content-Type", "application/json") ∷ []

  unfoldable pub request :
      (T : Type 0) → Method → String → Option Json → Result LxdError (LxdResponse T)
  request T method path body =
      answered
        (W.exchange (record {
          method = method;
          uri = decorate_path path;
          headers = content_type_of body;
          body = body_of body;
        }))
        (read_envelope T)

  -- A POST with a content type and more headers.
  abbrev pub post_of : String → String → List (String × String) → List ℕ → HttpRequest
  post_of path content_type extra_headers body = record {
    method = post_method;
    uri = decorate_path path;
    headers = ("Content-Type", content_type) ∷ extra_headers;
    body = body;
  }

  unfoldable pub post_raw_response :
      (T : Type 0)
      → String
      → String
      → List (String × String)
      → List ℕ
      → Result LxdError (LxdResponse T)
  post_raw_response T path content_type extra_headers body =
      answered (W.exchange (post_of path content_type extra_headers body)) (read_envelope T)

  -- `body` is what the streaming body yields, all its frames together.
  unfoldable pub post_streaming_response :
      (T : Type 0) → String → String → List ℕ → Result LxdError (LxdResponse T)
  post_streaming_response T path content_type body =
      answered (W.exchange (post_of path content_type [] body)) (read_envelope T)

  unfoldable pub post_raw :
      String → String → List (String × String) → List ℕ → Result LxdError (Unit {0})
  post_raw path content_type extra_headers body =
      answered (W.exchange (post_of path content_type extra_headers body)) read_raw

  unfoldable pub get_raw_with_headers : String → Result LxdError (List (String × String) × List ℕ)
  get_raw_with_headers path =
      answered
        (W.exchange
          (record { method = get_method; uri = decorate_path path; headers = []; body = [] }))
        read_with_headers

  abbrev pub get : (T : Type 0) → String → Result LxdError (LxdResponse T)
  get T path = request T get_method path none

  -- `filter_map(|v| v.as_str())`
  unfoldable pub texts : Items → List String
  texts nil = []
  texts (cons item items) = elim (as_str (some item)) [
    | none ↦ texts items
    | some s ↦ s ∷ texts items
  ]

  abbrev pub texts_or_default : Option Items → List String
  texts_or_default none = []
  texts_or_default (some items) = texts items

  abbrev pub architectures_of : Result LxdError Json → Result LxdError (List String)
  architectures_of (err e) = err e
  architectures_of (ok metadata) =
      ok (texts_or_default (as_array (get_in "architectures" (get_key "environment" metadata))))

  abbrev pub metadata_of : {T : Type 0} → Result LxdError (LxdResponse T) → Result LxdError T
  metadata_of (err e) = err e
  metadata_of (ok r) = into_metadata r

  unfoldable pub server_architectures : Result LxdError (List String)
  server_architectures = architectures_of (metadata_of (get Json "/1.0"))

  abbrev pub supports : String → Result LxdError (List String) → Result LxdError (Unit {0})
  supports expected_arch (err e) = err e
  supports expected_arch (ok archs) =
      if length archs == 0
      then ok tt
      else if not (any (λ a. a == expected_arch) archs)
      then err (
          api 400 (
            "LXD server does not support architecture '"
            <> (expected_arch <> ("'; supported architectures: " <> W.debug archs))))
      else ok tt

  unfoldable pub verify_architecture : String → Result LxdError (Unit {0})
  verify_architecture expected_arch = supports expected_arch server_architectures
