-- ===== src/Mapping/Request.antt =====
-- The requests of the compute driver's protocol that the driver reads: `DriverSandbox`,
-- `DriverSandboxSpec` and `DriverSandboxTemplate`, and the `google.protobuf.Struct` of a template's
-- `driver_config`. A protobuf number is an `f64`; here it is its bit pattern.
use openshell_driver_lxd.Common.{ℕ, String, List, Option, Bool}
use openshell_driver_lxd.Common.Dict.{Dict}

-- `prost_types::value::Kind`, where an unset kind is `unset`.
mutual
  pub data Value : Type 0 where
    unset : Value
    null_value : Value
    number_value : (bits : ℕ) → Value
    string_value : String → Value
    bool_value : Bool → Value
    struct_value : Fields → Value
    list_value : Values → Value

  pub data Values : Type 0 where
    end : Values
    value : Value → Values → Values

  pub data Fields : Type 0 where
    empty : Fields
    field : String → Value → Fields → Fields

-- What the driver uses of `f64`: the tests of `max_processes`, and the conversion.
pub record Floats : Type 0 where
  pub is_finite : ℕ → Bool
  pub is_nonnegative : ℕ → Bool
  pub is_integral : ℕ → Bool
  pub le_u32_max : ℕ → Bool
  pub to_u32 : ℕ → ℕ

-- `DriverResourceRequirements`: texts, empty where unset.
pub record Resources : Type 0 where
  pub cpu_request : String
  pub cpu_limit : String
  pub memory_request : String
  pub memory_limit : String

pub record Template : Type 0 where
  pub image : String
  pub environment : Dict String
  pub labels : Dict String
  pub resources : Option Resources
  pub driver_config : Option Fields

-- `resource_requirements.gpu`, whose count may be unset.
pub record Gpu : Type 0 where
  pub count : Option ℕ

pub record Spec : Type 0 where
  pub environment : Dict String
  pub template : Option Template
  pub sandbox_token : String
  pub command : List String
  pub tty : Bool
  pub await_main_process_attachment : Bool
  pub gpu : Option Gpu

pub record Sandbox : Type 0 where
  pub id : String
  pub name : String
  pub namespace : String
  pub workspace : String
  pub spec : Option Spec
