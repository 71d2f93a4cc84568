-- ===== src/MethodSpec/Types.antt =====
-- The types of a method's arguments as syn has them, and what pyo3-derive-backend/src/method.rs and
-- src/utils.rs there ask of them.
use text.Mathlib.Text.{◌==◌}
use pyo.Base.{Bool, true, false, if◌then◌else◌, Option, none, some, String, Outcome, ret, panic}

mutual
  pub data SynType : Type 0 where
    reference : (has_lifetime mutable : Bool) (elem : SynType) → SynType
    path : Segments → SynType
    infer : SynType
    other_type : SynType

  pub data Segments : Type 0 where
    no_segments : Segments
    segment : (ident : String) → PathArguments → Segments → Segments

  pub data PathArguments : Type 0 where
    bare : PathArguments
    angle_bracketed : GenericArguments → PathArguments
    parenthesized : PathArguments

  pub data GenericArguments : Type 0 where
    no_generics : GenericArguments
    lifetime_then : GenericArguments → GenericArguments
    type_then : SynType → GenericArguments → GenericArguments
    other_then : GenericArguments → GenericArguments

-- `segments.last()`.
abbrev last_segment : Segments → Option (String × PathArguments)
last_segment no_segments = none
last_segment (segment ident arguments no_segments) = some (ident, arguments)
last_segment (segment ident arguments (segment i a rest)) = last_segment (segment i a rest)

unfoldable pub if_type_is_python : SynType → Bool
if_type_is_python (path segments) = elim (last_segment segments) [
  | none ↦ false
  | some (ident, arguments) ↦ ident == "Python"
]
if_type_is_python t = false

abbrev unsupported : String
unsupported = "argument type is not supported by python method"

only_reference : PathArguments → Outcome Bool
only_reference (angle_bracketed (type_then (reference l m t) no_generics)) = ret true
only_reference (angle_bracketed (type_then t no_generics)) = ret false
only_reference (angle_bracketed (lifetime_then no_generics)) = ret false
only_reference (angle_bracketed (other_then no_generics)) = ret false
only_reference arguments = panic unsupported

unfoldable pub is_ref : SynType → Outcome Bool
unfolding only_reference
is_ref (reference l m t) = ret true
is_ref (path segments) = elim (last_segment segments) [
  | none ↦ ret false
  | some (ident, arguments) ↦ if ident == "Option" then only_reference arguments else ret false
]
is_ref t = ret false

first_type : PathArguments → Option SynType
first_type (angle_bracketed (type_then t rest)) = some t
first_type arguments = none

unfoldable pub check_ty_optional : SynType → Option SynType
unfolding first_type
check_ty_optional (path segments) = elim (last_segment segments) [
  | none ↦ none
  | some (ident, arguments) ↦ if ident == "Option" then first_type arguments else none
]
check_ty_optional t = none

-- `Self` alone.
abbrev pub is_self : SynType → Bool
is_self (path (segment ident arguments no_segments)) = ident == "Self"
is_self t = false

unfoldable pub replace_generics : GenericArguments → GenericArguments
replace_generics no_generics = no_generics
replace_generics (lifetime_then rest) = replace_generics rest
replace_generics (type_then t rest) =
    type_then (if is_self t then infer else t) (replace_generics rest)
replace_generics (other_then rest) = other_then (replace_generics rest)

replace_arguments : PathArguments → PathArguments
unfolding replace_generics
replace_arguments (angle_bracketed generics) = angle_bracketed (replace_generics generics)
replace_arguments arguments = arguments

-- `replace_self_impl`.
unfoldable pub replace_segments : Segments → Segments
unfolding replace_arguments
replace_segments no_segments = no_segments
replace_segments (segment ident arguments rest) =
    segment ident (replace_arguments arguments) (replace_segments rest)

unfoldable pub replace_self_in_ref : SynType → Option SynType
unfolding replace_segments
replace_self_in_ref (reference has_lifetime mutable (path segments)) =
    some (reference false mutable (path (replace_segments segments)))
replace_self_in_ref t = none
