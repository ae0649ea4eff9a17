-- ===== src/Domain/Transformation.antt =====
-- Transformations (internal/domain/valueobject/transformation.go) and their request
-- (internal/application/dto/consumer_dto.go).
use high_performance_event_s.Common.{
  ◌≡◌, ◌↔◌, inl, inr, Bool, true, false, not, String, if◌then◌else◌, is_blank, str_eq, arith,
  Bool-cases,
}
use high_performance_event_s.Common.Outcome.{Outcome, ok, err, ◌>>◌}

-- `TransformationType`: a request and a default only ever produce the four constants.
pub data TransformationType : Type 0 where
  type_none type_jq type_cel type_template : TransformationType

pub record Transformation : Type 0 where
  pub kind : TransformationType
  pub expression : String

pub data TransformationError : Type 0 where
  none_with_expression : TransformationError
  empty_expression : TransformationType → TransformationError

-- `IsNone`
unfoldable pub is_none : Transformation → Bool
is_none t = elim (t.kind) [
  | type_none ↦ true
  | type_jq ↦ false
  | type_cel ↦ false
  | type_template ↦ false
]

-- `Validate`
unfoldable pub validate : Transformation → Outcome TransformationError (Unit {0})
unfolding is_none
validate t =
    if is_none t
    then (if not (is_blank t.expression) then err none_with_expression else ok tt)
    else if is_blank t.expression
    then err (empty_expression t.kind)
    else ok tt

-- `NewTransformation`
unfoldable pub new_transformation :
    TransformationType → String → Outcome TransformationError Transformation
unfolding validate
new_transformation kind expression =
    let t : Transformation = record { kind = kind; expression = expression } in do validate t; ok t

-- `TransformationConfigDTO`
pub record TransformationConfigDto : Type 0 where
  pub type_name : String
  pub expression : String

-- The switch of `ToValueObject`
unfoldable pub type_of_name : String → TransformationType
type_of_name name =
    if str_eq name "JQ"
    then type_jq
    else if str_eq name "CEL"
    then type_cel
    else if str_eq name "Template"
    then type_template
    else type_none

-- `TransformationConfigDTO.ToValueObject`
unfoldable pub to_transformation :
    TransformationConfigDto → Outcome TransformationError Transformation
to_transformation c = new_transformation (type_of_name c.type_name) c.expression

-- A transformation as `Validate` wants it: an expression exactly where there is a type.
abbrev pub IsValid : Transformation → Type 0
IsValid t = is_blank t.expression ≡ is_none t

pub validate_iff : (t : Transformation) → (validate t ≡ ok tt) ↔ IsValid t
unfolding validate
validate_iff t = elim (Bool-cases (is_none t)) [
  | inl a ↦ elim (Bool-cases (is_blank t.expression)) [
    | inl b ↦ ground (arith, a, b)
    | inr b ↦ ground (arith, a, b)
  ]
  | inr a ↦ elim (Bool-cases (is_blank t.expression)) [
    | inl b ↦ ground (arith, a, b)
    | inr b ↦ ground (arith, a, b)
  ]
]
