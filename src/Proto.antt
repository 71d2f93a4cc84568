-- ===== src/Proto.antt =====
-- `#[pyproto]` in pyo3-derive-backend/src/pyproto.rs: from the methods that an `impl` block has to
-- the traits that are implemented, the methods that are registered and the slot setters that are
-- called. A method is named by its Rust identifier; the tokens are left out.
pub mod Defs
pub mod Tables
pub mod Select
pub mod Slots
mod Examples
use text.Mathlib.Text.{◌==◌}
use pyo.Base.{
  ◌≡◌, Bool, true, false, not, ◌&&◌, ◌||◌, if◌then◌else◌, Option, none, some, String, List, [], ◌∷◌,
  ◌++◌,
}
use Defs.{MethodProto, PyMethod, SlotSetter, Proto, get_proto, get_method}

abbrev pub contains : List String → String → Bool
contains [] x = false
contains (y ∷ ys) x = (y == x) || contains ys x

abbrev pub all_in : List String → List String → Bool
all_in method_names [] = true
all_in method_names (n ∷ ns) = contains method_names n && all_in method_names ns

-- Whether `'outer_loop` reaches its end for a setter.
abbrev pub is_called : List String → List String → SlotSetter → Bool
is_called method_names skipped m =
    not (contains skipped m.set_function) && all_in method_names m.proto_names

-- The loop of `slot_initialization`: the setters that are called, in order.
unfoldable pub select_setters : List String → List String → List SlotSetter → List String
select_setters method_names skipped [] = []
select_setters method_names skipped (m ∷ ms) = elim (is_called method_names skipped m) [
  | true ↦ m.set_function ∷ select_setters method_names (skipped ++ m.skipped_setters) ms
  | false ↦ select_setters method_names skipped ms
]

-- A method added to the inventory like one of `#[pymethods]`.
pub record Registered : Type 0 where
  pub name : String
  pub coexist : Bool

-- What `impl_proto_impl` collects from a block.
pub record Block : Type 0 where
  pub trait_impls : List MethodProto
  pub method_names : List String
  pub py_methods : List Registered

add_proto : String → Option MethodProto → Block → Block
add_proto name none b = b
add_proto name (some m) b = record b {
  trait_impls = b.trait_impls ++ m ∷ [];
  method_names = name ∷ b.method_names;
}

add_method : String → Option PyMethod → Block → Block
add_method name none b = b
add_method name (some m) b = record b {
  py_methods = b.py_methods ++ record { name = name; coexist = m.can_coexist } ∷ [];
}

unfoldable pub collect : Proto → List String → Block → Block
unfolding add_proto add_method
collect p [] b = b
collect p (name ∷ names) b =
    collect p names (add_method name (get_method p name) (add_proto name (get_proto p name) b))

pub record ProtoImpl : Type 0 where
  pub block : Block
  pub open block use *
  pub initializers : List String

unfoldable pub impl_proto_impl : Proto → List String → ProtoImpl
unfolding collect select_setters
impl_proto_impl p names =
    let b = collect p names (record { trait_impls = []; method_names = []; py_methods = [] }) in
    record { block = b; initializers = select_setters b.method_names [] p.slot_setters }
