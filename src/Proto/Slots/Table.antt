-- ===== src/Proto/Slots/Table.antt =====
-- A slot table as the setters in src/class/ fill it.
use text.Mathlib.Text.{◌==◌}
use pyo.Base.{if◌then◌else◌, Option, none, some, String, List, [], ◌∷◌}

-- The macro of src/class/macros.rs, or function, that wraps the methods for the slot.
pub data Wrapper : Type 0 where
  unary_call binary_call ssize_arg : Wrapper
  binary_num binary_reversed_num binary_self : Wrapper
  ternary_num ternary_reversed_num dummy_ternary_self : Wrapper
  set_only del_only set_and_del : Wrapper
  getattro richcompare : Wrapper

pub record Handler : Type 0 where
  pub wrapper : Wrapper
  pub methods : List String

-- `pub fn set_…` assigns the handler to the slot.
pub record SetterEffect : Type 0 where
  pub set_function : String
  pub slot : String
  pub handler : Handler

abbrev pub new_effect : String → String → Wrapper → List String → SetterEffect
new_effect set_function slot wrapper methods = record {
  set_function = set_function;
  slot = slot;
  handler = record { wrapper = wrapper; methods = methods };
}

abbrev pub Table : Type 0
Table = String → Option Handler

abbrev pub empty_table : Table
empty_table slot = none

abbrev pub assign_slot : String → Handler → Table → Table
assign_slot slot h t other = if slot == other then some h else t other

unfoldable pub find_effect : String → List SetterEffect → Option SetterEffect
find_effect f [] = none
find_effect f (e ∷ es) = if e.set_function == f then some e else find_effect f es

abbrev pub run_effect : Option SetterEffect → Table → Table
run_effect none t = t
run_effect (some e) t = assign_slot e.slot e.handler t

-- `table.set_…::<T>();` for each initialiser.
unfoldable pub run_setters : List SetterEffect → List String → Table → Table
unfolding find_effect
run_setters es [] t = t
run_setters es (f ∷ fs) t = run_setters es fs (run_effect (find_effect f es) t)
