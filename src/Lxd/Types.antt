-- ===== src/Lxd/Types.antt =====
-- crates/lxd-client/src/error.rs and types.rs. An error that wraps one of another crate keeps its text.
use openshell_driver_lxd.Common.{ℕ, String, List, Option}
use openshell_driver_lxd.Common.Dict.{Dict}

pub data LxdError : Type 0 where
  api : (status_code : ℕ) (message : String) → LxdError
  operation_failed : (description : String) (err : String) → LxdError
  invalid_quantity : (quantity : String) (reason : String) → LxdError
  io : String → LxdError
  hyper : String → LxdError
  http : String → LxdError
  json : String → LxdError
  tls : (reason : String) → LxdError
  web_socket : (reason : String) → LxdError

pub data Result {ℓ} (E : Type 0) (A : Type ℓ) : Type ℓ where
  ok : A → Result E A
  err : E → Result E A

pub record Instance : Type 0 where
  pub name : String
  pub status : String
  pub config : Dict String
  pub project : String

pub data OperationStatus : Type 0 where
  pending running success failure cancelled : OperationStatus
  other : String → OperationStatus

pub record Operation : Type 0 where
  pub id : String
  pub description : String
  pub status : OperationStatus
  pub err : String

pub record Network : Type 0 where
  pub name : String
  pub type_ : String
  pub config : Dict String

pub record Image : Type 0 where
  pub fingerprint : String
  pub project : String
  pub aliases : List String

pub record StorageVolume : Type 0 where
  pub name : String
  pub project : String
  pub used_by : List String
  pub location : String

-- A network ACL as LXD's API returns it. A rule is a JSON object of texts, its keys in order.
pub record Acl : Type 0 where
  pub description : Option String
  pub egress : List (Dict String)
  pub ingress : List (Dict String)
