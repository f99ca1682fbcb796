-- ===== src/Lxd/Resources.antt =====
-- crates/lxd-client/src/resources.rs: resource quantities as LXD's limits.
use openshell_driver_lxd.Common.{
  ℕ, zero, suc, String, ◌<>◌, Bool, Option, none, some, ◌||◌, if◌then◌else◌, not, ◌&&◌,
}
use openshell_driver_lxd.Common.Text.{is_empty, all_chars, is_digit, strip_suffix}
use openshell_driver_lxd.Common.Decimal.{show}
use openshell_driver_lxd.Lxd.Types.{LxdError, invalid_quantity, Result, ok, err}

-- What the conversion of a CPU quantity uses of `f64`. `ceil` is `x.ceil() as u64`.
pub record Cores : Type 1 where
  pub F64 : Type 0
  pub parse : String → Option F64
  pub div_1000 : F64 → F64
  pub is_finite : F64 → Bool
  pub le_zero : F64 → Bool
  pub ceil : F64 → ℕ

abbrev pub invalid : {A : Type 0} → String → String → Result LxdError A
invalid quantity reason = err (invalid_quantity quantity reason)

module _ (C : Cores) where
  abbrev or_invalid : String → String → Option C.F64 → Result LxdError C.F64
  or_invalid quantity reason none = invalid quantity reason
  or_invalid quantity reason (some x) = ok x

  -- The number of cores that the text stands for.
  unfoldable pub parse_cores : String → Result LxdError C.F64
  parse_cores quantity = elim (strip_suffix quantity "m") [
    | none ↦ or_invalid quantity "not a valid core count" (C.parse quantity)
    | some milli ↦ elim (C.parse milli) [
      | none ↦ invalid quantity "not a valid millicore value"
      | some x ↦ ok (C.div_1000 x)
    ]
  ]

  abbrev at_least_one : ℕ → ℕ
  at_least_one zero = 1
  at_least_one (suc n) = suc n

  unfoldable pub cpu_limit_to_lxd : String → Result LxdError String
  unfolding parse_cores
  cpu_limit_to_lxd quantity = elim (parse_cores quantity) [
    | err e ↦ err e
    | ok cores ↦
        if not (C.is_finite cores)
        then invalid quantity "must be a finite number"
        else if C.le_zero cores
        then invalid quantity "must be greater than zero"
        else ok (show (at_least_one (C.ceil cores)))
  ]

abbrev all_digits : String → Bool
all_digits s = all_chars is_digit s

-- The digits in front of a suffix, checked.
abbrev suffixed : String → String → Result LxdError String
suffixed quantity digits =
    if is_empty digits || not (all_digits digits)
    then invalid quantity "expected a numeric prefix before the suffix"
    else ok (quantity <> "B")

-- The suffixes are tried in the order of `SUFFIXES`.
unfoldable pub memory_limit_to_lxd : String → Result LxdError String
memory_limit_to_lxd quantity = elim (strip_suffix quantity "Ki") [
  | some digits ↦ suffixed quantity digits
  | none ↦ elim (strip_suffix quantity "Mi") [
    | some digits ↦ suffixed quantity digits
    | none ↦ elim (strip_suffix quantity "Gi") [
      | some digits ↦ suffixed quantity digits
      | none ↦ elim (strip_suffix quantity "Ti") [
        | some digits ↦ suffixed quantity digits
        | none ↦
            if not (is_empty quantity) && all_digits quantity
            then ok quantity
            else invalid quantity
                "expected a Ki/Mi/Gi/Ti suffix (e.g. \"512Mi\", \"4Gi\") or a bare byte count"
      ]
    ]
  ]
]
