-- ===== src/Proto/Defs.antt =====
-- The types of pyo3-derive-backend/src/defs.rs, and `MethodProto` of func.rs there.
use text.Mathlib.Text.{◌==◌}
use pyo.Base.{Bool, true, false, if◌then◌else◌, Option, none, some, String, List, [], ◌∷◌}

-- A protocol method: its name, the associated types of its arguments, and its trait. The shape says
-- how many arguments there are, and whether the receiver's type is an argument.
pub data MethodProto : Type 0 where
  free : (name proto : String) → MethodProto
  unary : (name proto : String) → MethodProto
  unary_s : (name arg proto : String) → MethodProto
  binary : (name arg proto : String) → MethodProto
  binary_s : (name arg1 arg2 proto : String) → MethodProto
  ternary : (name arg1 arg2 proto : String) → MethodProto
  ternary_s : (name arg1 arg2 arg3 proto : String) → MethodProto
  quaternary : (name arg1 arg2 arg3 proto : String) → MethodProto

unfoldable pub proto_name : MethodProto → String
proto_name (free name proto) = name
proto_name (unary name proto) = name
proto_name (unary_s name arg proto) = name
proto_name (binary name arg proto) = name
proto_name (binary_s name arg1 arg2 proto) = name
proto_name (ternary name arg1 arg2 proto) = name
proto_name (ternary_s name arg1 arg2 arg3 proto) = name
proto_name (quaternary name arg1 arg2 arg3 proto) = name

pub record PyMethod : Type 0 where
  pub name : String
  pub proto : String
  pub can_coexist : Bool

abbrev pub coexist_method : String → String → PyMethod
coexist_method name proto = record { name = name; proto = proto; can_coexist = true }

abbrev pub new_method : String → String → PyMethod
new_method name proto = record { name = name; proto = proto; can_coexist = false }

pub record SlotSetter : Type 0 where
  pub proto_names : List String
  pub set_function : String
  pub skipped_setters : List String

abbrev pub new_setter : List String → String → SlotSetter
new_setter names set_function = record {
  proto_names = names;
  set_function = set_function;
  skipped_setters = [];
}

pub record Proto : Type 0 where
  pub name : String
  pub slot_table : String
  pub set_slot_table : String
  pub methods : List MethodProto
  pub py_methods : List PyMethod
  pub slot_setters : List SlotSetter

-- `iter().find(…)`.
unfoldable pub find_proto : String → List MethodProto → Option MethodProto
unfolding proto_name
find_proto query [] = none
find_proto query (m ∷ ms) = if query == proto_name m then some m else find_proto query ms

unfoldable pub find_method : String → List PyMethod → Option PyMethod
find_method query [] = none
find_method query (m ∷ ms) = if query == m.name then some m else find_method query ms

unfoldable pub get_proto : Proto → String → Option MethodProto
unfolding find_proto
get_proto p query = find_proto query p.methods

unfoldable pub get_method : Proto → String → Option PyMethod
unfolding find_method
get_method p query = find_method query p.py_methods
