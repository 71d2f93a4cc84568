-- ===== src/Proto/Slots/Number.antt =====
-- The number slots that hold a binary operator: which method of `PyNumberProtocol` they call.
use text.Mathlib.TextPositions.{eq_refl}
use pyo.Base.{
  ◌≡◌, refl, ◌∙◌, inl, inr, Bool, true, false, if◌then◌else◌, Bool-cases, Option, none, some,
  String, List, [], ◌∷◌,
}
use pyo.Proto.Defs.{SlotSetter, new_setter}
use pyo.Proto.{contains, select_setters}
use pyo.Proto.Tables.Number.{num_setters}
use pyo.Proto.Slots.Table.{
  Wrapper, binary_num, binary_reversed_num, ternary_num, ternary_reversed_num, Handler, Table,
  empty_table, find_effect, run_effect, run_setters,
}
use pyo.Proto.Slots.NumberEffects.{number_effects}
use pyo.Proto.Slots.Local.{is_separate, only_on, run_setters-only_on}

-- The operators with a slot for both directions.
pub data Operator : Type 0 where
  add sub mul divmod pow lshift rshift and or xor floordiv truediv matmul : Operator

unfoldable pub slot_of : Operator → String
slot_of add = "nb_add"
slot_of sub = "nb_subtract"
slot_of mul = "nb_multiply"
slot_of divmod = "nb_divmod"
slot_of pow = "nb_power"
slot_of lshift = "nb_lshift"
slot_of rshift = "nb_rshift"
slot_of and = "nb_and"
slot_of or = "nb_or"
slot_of xor = "nb_xor"
slot_of floordiv = "nb_floor_divide"
slot_of truediv = "nb_true_divide"
slot_of matmul = "nb_matrix_multiply"

unfoldable pub method_of : Operator → String
method_of add = "__add__"
method_of sub = "__sub__"
method_of mul = "__mul__"
method_of divmod = "__divmod__"
method_of pow = "__pow__"
method_of lshift = "__lshift__"
method_of rshift = "__rshift__"
method_of and = "__and__"
method_of or = "__or__"
method_of xor = "__xor__"
method_of floordiv = "__floordiv__"
method_of truediv = "__truediv__"
method_of matmul = "__matmul__"

unfoldable pub reversed_of : Operator → String
reversed_of add = "__radd__"
reversed_of sub = "__rsub__"
reversed_of mul = "__rmul__"
reversed_of divmod = "__rdivmod__"
reversed_of pow = "__rpow__"
reversed_of lshift = "__rlshift__"
reversed_of rshift = "__rrshift__"
reversed_of and = "__rand__"
reversed_of or = "__ror__"
reversed_of xor = "__rxor__"
reversed_of floordiv = "__rfloordiv__"
reversed_of truediv = "__rtruediv__"
reversed_of matmul = "__rmatmul__"

abbrev forward : String → Handler
forward name = record { wrapper = binary_num; methods = name ∷ [] }

abbrev wraps : Wrapper → String → Handler
wraps wrapper name = record { wrapper = wrapper; methods = name ∷ [] }

unfoldable pub forward_handler : Operator → Handler
unfolding method_of
forward_handler pow = wraps ternary_num "__pow__"
forward_handler o = forward (method_of o)

unfoldable pub reversed_handler : Operator → Handler
unfolding reversed_of
reversed_handler pow = wraps ternary_reversed_num "__rpow__"
reversed_handler o = wraps binary_reversed_num (reversed_of o)

-- The table of a class whose `impl` block has the methods named.
unfoldable pub number_table : List String → Table
unfolding select_setters run_setters
number_table method_names =
    run_setters number_effects (select_setters method_names [] num_setters) empty_table

module _ (names : List String) (o : Operator) where
  -- What the slot holds: the forward method if there is one, else the reversed one.
  unfoldable pub operator_slot : Option Handler
  unfolding method_of reversed_of forward_handler reversed_handler
  operator_slot =
      if contains names (method_of o)
      then some (forward_handler o)
      else if contains names (reversed_of o)
      then some (reversed_handler o)
      else none

  local :
      is_separate number_effects (slot_of o) num_setters ≡ true
      → number_table names (slot_of o)
        ≡ run_setters number_effects
            (select_setters names [] (only_on number_effects (slot_of o) num_setters))
            empty_table
            (slot_of o)
  unfolding number_table find_effect
  local apart =
      run_setters-only_on number_effects (slot_of o) names num_setters [] [] empty_table empty_table
        apart (λ f k. refl) refl

-- A pair of setters of which the first skips the second.
abbrev pair :
    (method reversed set_function set_reversed : String) → List SlotSetter → List SlotSetter
pair method reversed set_function set_reversed others =
    record {
      proto_names = method ∷ [];
      set_function = set_function;
      skipped_setters = set_reversed ∷ [];
    }
    ∷ new_setter (reversed ∷ []) set_reversed
    ∷ others

module _ (names : List String) (method reversed set_function set_reversed slot : String)
    (h h' : Handler)
    (forward_effect : (t : Table)
      → run_effect (find_effect set_function number_effects) t slot ≡ some h)
    (reversed_effect : (t : Table)
      → run_effect (find_effect set_reversed number_effects) t slot ≡ some h') where
  abbrev first_of : Option Handler
  first_of =
      if contains names method then some h else if contains names reversed then some h' else none

  -- The second setter may stand in the table twice, as `set_rdivmod` does.
  run_pair_lem :
      (again : Bool)
      → run_setters number_effects
          (select_setters names [] (
            pair method reversed set_function set_reversed
              (if again then new_setter (reversed ∷ []) set_reversed ∷ [] else [])))
          empty_table
          slot
        ≡ first_of
  unfolding select_setters run_setters
  run_pair_lem again = elim (Bool-cases (contains names method)) [
    | inl has ↦
        rw (has, select_setters, eq_refl set_reversed)
          (elim (Bool-cases again) [
            | inl twice ↦
                rw (twice, select_setters, eq_refl set_reversed) (forward_effect empty_table)
            | inr once ↦ rw once (forward_effect empty_table)
          ])
    | inr lacks ↦
        rw (lacks, select_setters)
          (elim (Bool-cases (contains names reversed)) [
            | inl has ↦
                rw (has, select_setters)
                  (elim (Bool-cases again) [
                    | inl twice ↦ rw (twice, select_setters, has) (reversed_effect _)
                    | inr once ↦ rw once (reversed_effect empty_table)
                  ])
            | inr neither ↦
                rw (neither, select_setters)
                  (elim (Bool-cases again) [
                    | inl twice ↦ rw (twice, select_setters, neither) refl
                    | inr once ↦ rw once refl
                  ])
          ])
  ]

run_single :
    (names : List String) (method set_function slot : String) (h : Handler)
    → ((t : Table) → run_effect (find_effect set_function number_effects) t slot ≡ some h)
    → run_setters number_effects
        (select_setters names [] (new_setter (method ∷ []) set_function ∷ []))
        empty_table
        slot
      ≡ (if contains names method then some h else none)
unfolding select_setters run_setters
run_single names method set_function slot h effect = elim (Bool-cases (contains names method)) [
  | inl has ↦ rw (has, run_setters) (effect empty_table)
  | inr lacks ↦ rw (lacks, run_setters) refl
]

-- Whatever methods a `PyNumberProtocol` block has, the slot of each binary operator with a forward
-- and a reversed setter calls the forward method if the block has it, else the reversed method if
-- the block has that, and is empty otherwise: the setters of the other slots do not change this.
pub number_table_lem :
    (names : List String) (o : Operator) → number_table names (slot_of o) ≡ operator_slot names o
unfolding operator_slot find_effect select_setters run_setters slot_of method_of reversed_of
    forward_handler reversed_handler
number_table_lem names add =
    local names add refl
    ∙ run_pair_lem names (method_of add) (reversed_of add) "set_add" "set_radd" (slot_of add)
        (forward_handler add) (reversed_handler add) (λ t. refl) (λ t. refl) false
number_table_lem names sub =
    local names sub refl
    ∙ run_pair_lem names (method_of sub) (reversed_of sub) "set_sub" "set_rsub" (slot_of sub)
        (forward_handler sub) (reversed_handler sub) (λ t. refl) (λ t. refl) false
number_table_lem names mul =
    local names mul refl
    ∙ run_pair_lem names (method_of mul) (reversed_of mul) "set_mul" "set_rmul" (slot_of mul)
        (forward_handler mul) (reversed_handler mul) (λ t. refl) (λ t. refl) false
number_table_lem names divmod =
    local names divmod refl
    ∙ run_pair_lem names (method_of divmod) (reversed_of divmod) "set_divmod" "set_rdivmod"
        (slot_of divmod) (forward_handler divmod) (reversed_handler divmod) (λ t. refl) (λ t. refl)
        true
number_table_lem names pow =
    local names pow refl
    ∙ run_pair_lem names (method_of pow) (reversed_of pow) "set_pow" "set_rpow" (slot_of pow)
        (forward_handler pow) (reversed_handler pow) (λ t. refl) (λ t. refl) false
number_table_lem names lshift =
    local names lshift refl
    ∙ run_pair_lem names (method_of lshift) (reversed_of lshift) "set_lshift" "set_rlshift"
        (slot_of lshift) (forward_handler lshift) (reversed_handler lshift) (λ t. refl) (λ t. refl)
        false
number_table_lem names rshift =
    local names rshift refl
    ∙ run_pair_lem names (method_of rshift) (reversed_of rshift) "set_rshift" "set_rrshift"
        (slot_of rshift) (forward_handler rshift) (reversed_handler rshift) (λ t. refl) (λ t. refl)
        false
number_table_lem names and =
    local names and refl
    ∙ run_pair_lem names (method_of and) (reversed_of and) "set_and" "set_rand" (slot_of and)
        (forward_handler and) (reversed_handler and) (λ t. refl) (λ t. refl) false
number_table_lem names or =
    local names or refl
    ∙ run_pair_lem names (method_of or) (reversed_of or) "set_or" "set_ror" (slot_of or)
        (forward_handler or) (reversed_handler or) (λ t. refl) (λ t. refl) false
number_table_lem names xor =
    local names xor refl
    ∙ run_pair_lem names (method_of xor) (reversed_of xor) "set_xor" "set_rxor" (slot_of xor)
        (forward_handler xor) (reversed_handler xor) (λ t. refl) (λ t. refl) false
number_table_lem names floordiv =
    local names floordiv refl
    ∙ run_pair_lem names (method_of floordiv) (reversed_of floordiv) "set_floordiv" "set_rfloordiv"
        (slot_of floordiv) (forward_handler floordiv) (reversed_handler floordiv) (λ t. refl)
        (λ t. refl) false
number_table_lem names truediv =
    local names truediv refl
    ∙ run_pair_lem names (method_of truediv) (reversed_of truediv) "set_truediv" "set_rtruediv"
        (slot_of truediv) (forward_handler truediv) (reversed_handler truediv) (λ t. refl)
        (λ t. refl) false
number_table_lem names matmul =
    local names matmul refl
    ∙ run_pair_lem names (method_of matmul) (reversed_of matmul) "set_matmul" "set_rmatmul"
        (slot_of matmul) (forward_handler matmul) (reversed_handler matmul) (λ t. refl) (λ t. refl)
        false

-- `__rmod__` never fills the slot of `%`: the slot calls `__mod__` if the block has it, and else is
-- empty, also for a block that has `__rmod__`.
pub number_table-remainder :
    (names : List String)
    → number_table names "nb_remainder"
      ≡ (if contains names "__mod__" then some (forward "__mod__") else none)
unfolding number_table find_effect select_setters run_setters
number_table-remainder names =
    run_setters-only_on number_effects "nb_remainder" names num_setters [] [] empty_table
      empty_table refl (λ f k. refl) refl
    ∙ run_single names "__mod__" "set_mod" "nb_remainder" (forward "__mod__") (λ t. refl)
