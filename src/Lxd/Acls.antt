-- ===== src/Lxd/Acls.antt =====
-- crates/lxd-client/src/acls.rs: network ACL rules and `ensure_network_acl`.
pub mod Ensured
use openshell_driver_lxd.Common.{
  ℕ, String, List, [], ◌∷◌, map, Option, none, some, Bool, true, false, ◌&&◌, ◌==◌, nat_eq,
  string_eq, if◌then◌else◌,
}
use openshell_driver_lxd.Common.Text.{is_empty}
use openshell_driver_lxd.Common.Dict.{Dict}
use openshell_driver_lxd.Lxd.{
  Lxd, get_network_acl, update_network_acl, create_network_acl, wait_for, is_missing,
}
use openshell_driver_lxd.Lxd.Types.{LxdError, api, Result, ok, err, Operation, Acl}
use openshell_driver_lxd.Lxd.Client.{Chain, done, fail, outcome, ◌>>=◌, ◌>>◌, call}

pub data AclAction : Type 0 where
  allow drop reject : AclAction

pub data AclProtocol : Type 0 where
  tcp udp icmp : AclProtocol

pub data AclState : Type 0 where
  enabled disabled : AclState

-- `LxdNetworkAclRule`
pub record Rule : Type 0 where
  pub action : AclAction
  pub destination : String
  pub destination_port : String
  pub protocol : Option AclProtocol
  pub description : String
  pub state : AclState

unfoldable pub allow_egress : String → Option AclProtocol → String → Rule
allow_egress destination protocol destination_port = record {
  action = allow;
  destination = destination;
  destination_port = destination_port;
  protocol = protocol;
  description = "";
  state = enabled;
}

unfoldable pub described : Rule → String → Rule
described rule description = record rule { description = description }

abbrev pub action_text : AclAction → String
action_text allow = "allow"
action_text drop = "drop"
action_text reject = "reject"

abbrev pub protocol_text : Option AclProtocol → String
protocol_text none = ""
protocol_text (some tcp) = "tcp"
protocol_text (some udp) = "udp"
protocol_text (some icmp) = "icmp"

abbrev pub state_text : AclState → String
state_text enabled = "enabled"
state_text disabled = "disabled"

-- The loop of `to_json`: fields that are empty are left out.
unfoldable pub filled : Dict String → Dict String
filled [] = []
filled ((key, value) ∷ rest) =
    let more = filled rest in if is_empty value then more else (key, value) ∷ more

unfoldable pub to_json : Rule → Dict String
to_json rule = filled (
    ("action", action_text rule.action)
    ∷ ("description", rule.description)
    ∷ ("destination", rule.destination)
    ∷ ("destination_port", rule.destination_port)
    ∷ ("protocol", protocol_text rule.protocol)
    ∷ ("state", state_text rule.state)
    ∷ [])

abbrev pub acl_description : String
acl_description = "OpenShell sandbox egress policy"

unfoldable pub same_rule : Dict String → Dict String → Bool
same_rule [] [] = true
same_rule ((k, v) ∷ rule) ((j, u) ∷ other) = k == j && (v == u && same_rule rule other)
same_rule _ _ = false

unfoldable pub same_rules : List (Dict String) → List (Dict String) → Bool
same_rules [] [] = true
same_rules (r ∷ rules) (s ∷ others) = same_rule r s && same_rules rules others
same_rules _ _ = false

abbrev pub is_description : Option String → Bool
is_description none = false
is_description (some d) = d == acl_description

-- Against the ACL that is wanted: this description, these egress rules, no ingress rules.
unfoldable pub acl_matches : Acl → List (Dict String) → Bool
acl_matches current egress =
    is_description current.description
    && (same_rules current.egress egress && same_rules current.ingress [])

-- `LxdError::Api { status_code: 409, .. }`
abbrev pub is_conflict : LxdError → Bool
is_conflict (api status_code message) = status_code == 409
is_conflict _ = false

module _ (L : Lxd) (name : String) where
  -- A write, and the wait for its operation.
  unfoldable pub replace_rules : List (Dict String) → Chain L (Unit {0})
  replace_rules egress = do
    op ← call (update_network_acl name egress)
    call (wait_for op.id)
    done tt

  abbrev pub created : List (Dict String) → Result LxdError Operation → Chain L (Unit {0})
  created egress (ok op) = call (wait_for op.id) >> done tt
  created egress (err e) = if is_conflict e then replace_rules egress else fail e

  unfoldable pub create_acl : List (Dict String) → Chain L (Unit {0})
  create_acl egress = do r ← outcome (call (create_network_acl name egress)); created egress r

  abbrev pub current_acl : List (Dict String) → Result LxdError Acl → Chain L (Unit {0})
  current_acl egress (ok current) =
      if acl_matches current egress then done tt else replace_rules egress
  current_acl egress (err e) = if is_missing e then create_acl egress else fail e

  unfoldable pub ensure_network_acl : List Rule → Chain L (Unit {0})
  ensure_network_acl rules = do
    r ← outcome (call (get_network_acl name))
    current_acl (map to_json rules) r
