-- ===== src/Proto/Slots/Assignment.antt =====
-- The slots for an assignment and a deletion: one handler stands for both.
use text.Mathlib.Text.{◌==◌}
use text.Mathlib.TextPositions.{eq_refl}
use pyo.Base.{
  ◌≡◌, refl, ◌∙◌, inl, inr, true, false, if◌then◌else◌, Bool-cases, Option, none, some, String,
  List, [], ◌∷◌,
}
use pyo.Proto.Defs.{SlotSetter, new_setter}
use pyo.Proto.{contains, select_setters}
use pyo.Proto.Tables.Basic.{object_setters}
use pyo.Proto.Tables.Containers.{mapping_setters, seq_setters}
use pyo.Proto.Slots.Table.{
  set_only, del_only, set_and_del, SetterEffect, Handler, Table, empty_table, find_effect,
  run_effect, run_setters,
}
use pyo.Proto.Slots.OtherEffects.{mapping_effects, sequence_effects, object_effects}
use pyo.Proto.Slots.Local.{is_separate, only_on, run_setters-only_on}

pub data Assigned : Type 0 where
  mapping_item sequence_item object_attribute : Assigned

unfoldable pub effects_of : Assigned → List SetterEffect
effects_of mapping_item = mapping_effects
effects_of sequence_item = sequence_effects
effects_of object_attribute = object_effects

unfoldable pub setters_of : Assigned → List SlotSetter
setters_of mapping_item = mapping_setters
setters_of sequence_item = seq_setters
setters_of object_attribute = object_setters

unfoldable pub assignment_slot : Assigned → String
assignment_slot mapping_item = "mp_ass_subscript"
assignment_slot sequence_item = "sq_ass_item"
assignment_slot object_attribute = "tp_setattro"

unfoldable pub set_method : Assigned → String
set_method object_attribute = "__setattr__"
set_method a = "__setitem__"

unfoldable pub del_method : Assigned → String
del_method object_attribute = "__delattr__"
del_method a = "__delitem__"

-- The table of a class whose `impl` block has the methods named.
unfoldable pub assignment_table : Assigned → List String → Table
unfolding select_setters run_setters effects_of setters_of
assignment_table a names =
    run_setters (effects_of a) (select_setters names [] (setters_of a)) empty_table

-- Both methods if both are there, one if one is.
unfoldable pub assignment_handler : Assigned → List String → Option Handler
unfolding set_method del_method
assignment_handler a names =
    if contains names (set_method a)
    then if contains names (del_method a)
      then some (record { wrapper = set_and_del; methods = set_method a ∷ del_method a ∷ [] })
      else some (record { wrapper = set_only; methods = set_method a ∷ [] })
    else if contains names (del_method a)
    then some (record { wrapper = del_only; methods = del_method a ∷ [] })
    else none

local :
    (a : Assigned) (names : List String)
    → is_separate (effects_of a) (assignment_slot a) (setters_of a) ≡ true
    → assignment_table a names (assignment_slot a)
      ≡ run_setters
          (effects_of a)
          (select_setters names [] (only_on (effects_of a) (assignment_slot a) (setters_of a)))
          empty_table
          (assignment_slot a)
unfolding assignment_table find_effect
local a names apart =
    run_setters-only_on (effects_of a) (assignment_slot a) names (setters_of a) [] [] empty_table
      empty_table apart (λ f k. refl) refl

-- A setter that skips the two after it.
abbrev triple : (set del set_function del_function both : String) → List SlotSetter
triple set del set_function del_function both =
    record {
      proto_names = set ∷ del ∷ [];
      set_function = both;
      skipped_setters = set_function ∷ del_function ∷ [];
    }
    ∷ new_setter (set ∷ []) set_function
    ∷ new_setter (del ∷ []) del_function
    ∷ []

module _ (es : List SetterEffect) (names : List String)
    (slot set del set_function del_function both : String) (h_set h_del h_both : Handler)
    (distinct : (set_function == del_function) ≡ false)
    (set_effect : (t : Table) → run_effect (find_effect set_function es) t slot ≡ some h_set)
    (del_effect : (t : Table) → run_effect (find_effect del_function es) t slot ≡ some h_del)
    (both_effect : (t : Table) → run_effect (find_effect both es) t slot ≡ some h_both) where
  run_triple :
      run_setters es
        (select_setters names [] (triple set del set_function del_function both))
        empty_table
        slot
      ≡ (if contains names set
          then if contains names del then some h_both else some h_set
          else if contains names del
          then some h_del
          else none)
  unfolding select_setters run_setters
  run_triple = elim (Bool-cases (contains names set)) [
    | inl sets ↦ elim (Bool-cases (contains names del)) [
      | inl dels ↦
          rw (sets, dels, select_setters, eq_refl set_function, distinct, eq_refl del_function)
            (both_effect empty_table)
      | inr keeps ↦ rw (sets, keeps, select_setters, sets, keeps) (set_effect empty_table)
    ]
    | inr reads ↦ elim (Bool-cases (contains names del)) [
      | inl dels ↦ rw (reads, dels, select_setters, reads, dels) (del_effect empty_table)
      | inr keeps ↦ rw (reads, keeps, select_setters, reads, keeps) refl
    ]
  ]

-- Whatever methods a block for mappings, sequences or objects has, the slot for item or attribute
-- assignment calls the setter and the deleter if the block has both, the one that it has if it has
-- one, and is empty otherwise; the combined setter skips the two single ones.
pub assignment_table_lem :
    (a : Assigned) (names : List String)
    → assignment_table a names (assignment_slot a) ≡ assignment_handler a names
unfolding assignment_handler find_effect effects_of setters_of assignment_slot set_method del_method
    select_setters run_setters
assignment_table_lem mapping_item names =
    local mapping_item names refl
    ∙ run_triple (effects_of mapping_item) names (assignment_slot mapping_item)
        (set_method mapping_item) (del_method mapping_item) "set_setitem" "set_delitem"
        "set_setdelitem" _ _ _ refl (λ t. refl) (λ t. refl) (λ t. refl)
assignment_table_lem sequence_item names =
    local sequence_item names refl
    ∙ run_triple (effects_of sequence_item) names (assignment_slot sequence_item)
        (set_method sequence_item) (del_method sequence_item) "set_setitem" "set_delitem"
        "set_setdelitem" _ _ _ refl (λ t. refl) (λ t. refl) (λ t. refl)
assignment_table_lem object_attribute names =
    local object_attribute names refl
    ∙ run_triple (effects_of object_attribute) names (assignment_slot object_attribute)
        (set_method object_attribute) (del_method object_attribute) "set_setattr" "set_delattr"
        "set_setdelattr" _ _ _ refl (λ t. refl) (λ t. refl) (λ t. refl)
