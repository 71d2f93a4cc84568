-- ===== src/FnArgs/Examples.antt =====
-- Calls through `parse_fn_args` of src/derive_utils.rs, with a dictionary as an association list.
use text.Mathlib.Text.{◌==◌}
use text.Mathlib.TextEquality.{eq_iff}
use pyo.Base.{
  ℕ, ◌≡◌, refl, inl, arith, Bool, true, false, if◌then◌else◌, Option, none, some, List, [], ◌∷◌,
  String, ret, Result, ok, err,
}
use pyo.FnArgs.Dict.{DictOps, IsDict}
use pyo.FnArgs.{ParamDescription, multiple_values, Parsed, assign_all, parse_fn_args}
use pyo.FnArgs.Reference.{IsDistinct, Deletes, names, bind, bind_all, taken, assign_all-bind_all}
use pyo.FnArgs.Calls.{parse_fn_args_ok}
use pyo.FnArgs.SeveralValues.{multiple_values_refused}

abbrev Pairs : Type 0
Pairs = List (String × ℕ)

get : String → Pairs → Option ℕ
get k [] = none
get k ((j, v) ∷ d) = if j == k then some v else get k d

remove : String → Pairs → Pairs
remove k [] = []
remove k ((j, v) ∷ d) = if j == k then remove k d else (j, v) ∷ remove k d

abbrev first : Pairs → Option String
first [] = none
first ((j, v) ∷ d) = some j

abbrev no_pairs : Pairs → Bool
no_pairs [] = true
no_pairs (p ∷ d) = false

abbrev pairs : DictOps Pairs ℕ String
pairs = record {
  copy = ok;
  get_item = get;
  del_item = λ k d. ok (remove k d);
  is_empty = no_pairs;
  first_key = first;
}

get-remove : (j k : String) (d : Pairs) → get j (remove k d) ≡ (if k == j then none else get j d)
unfolding get remove
get-remove j k [] = ground arith
get-remove j k ((i, v) ∷ d) = ground (arith, eq_iff k j, eq_iff i k, eq_iff i j, get-remove j k d)

first-get :
    (d : Pairs)
    → no_pairs d ≡ false
    → (k : String) × (v : ℕ) × (first d ≡ some k) × (get k d ≡ some v)
unfolding get
first-get [] e = absurd (cc)
first-get ((j, v) ∷ d) e = (j, v, refl, ground (arith, eq_iff j j))

empty-get : (k : String) (d : Pairs) → no_pairs d ≡ true → get k d ≡ none
unfolding get
empty-get k [] e = refl
empty-get k (p ∷ d) e = absurd (cc)

removed-get :
    (j k : String) (d : Pairs) {d' : Pairs}
    → ◌≡◌ {A = Result Pairs String} (ok (remove k d)) (ok d')
    → get j d' ≡ (if k == j then none else get j d)
removed-get j k d e = ground (arith, get-remove j k d)

pairs-IsDict : IsDict pairs
pairs-IsDict = record {
  copy_ok = λ d. refl;
  del_ok = λ k d e. (remove k d, refl);
  get-del = removed-get;
  empty_get = empty-get;
  nonempty_key = first-get;
}

-- `def f(a, b=...)` and `def f(a, *args, b=...)`.
abbrev a_param : ParamDescription
a_param = record { name = "a"; is_optional = false; kw_only = false }

abbrev b_param : ParamDescription
b_param = record { name = "b"; is_optional = true; kw_only = false }

abbrev b_kw_only : ParamDescription
b_kw_only = record { name = "b"; is_optional = true; kw_only = true }

abbrev two_params : List ParamDescription
two_params = a_param ∷ b_param ∷ []

abbrev b_is_five : Option Pairs
b_is_five = some (("b", 5) ∷ [])

abbrev c_is_six : Option Pairs
c_is_six = some (("c", 6) ∷ [])

distinct : IsDistinct two_params
distinct = (refl, (refl, tt))

assign_all-bind_all_example :
    (k : Option Pairs) × (assign_all pairs
        (1 ∷ [])
        0
        two_params
        (record { kwargs = b_is_five; used_args = 0 })
      ≡ ok (some 1 ∷ some 5 ∷ [], record { kwargs = k; used_args = 1 }))
    × Deletes pairs (1 ∷ []) (λ j. names j two_params) b_is_five k
unfolding bind bind_all taken get
assign_all-bind_all_example =
    assign_all-bind_all pairs (1 ∷ []) pairs-IsDict 0 two_params
      (record { kwargs = b_is_five; used_args = 0 }) distinct

parse_fn_args_ok_example :
    (r : Parsed Pairs ℕ) × (parse_fn_args pairs (1 ∷ 2 ∷ 3 ∷ []) two_params c_is_six true true
      ≡ ret (ok r))
    × (r.output ≡ some 1 ∷ some 2 ∷ [])
    × (r.args ≡ 3 ∷ [])
    × Deletes pairs (1 ∷ 2 ∷ 3 ∷ []) (λ j. names j two_params) c_is_six r.kwargs
unfolding bind bind_all get taken
parse_fn_args_ok_example =
    parse_fn_args_ok pairs pairs-IsDict (1 ∷ 2 ∷ 3 ∷ []) two_params distinct c_is_six true true
      (some 1 ∷ some 2 ∷ []) refl (inl refl) (inl refl)

-- `f(1, 2, 3, b=5)` for `def f(a, *args, b=...)`.
multiple_values_refused_example :
    parse_fn_args pairs (1 ∷ 2 ∷ 3 ∷ []) (a_param ∷ b_kw_only ∷ []) b_is_five true false
    ≡ ret (err (multiple_values "b"))
unfolding bind bind_all get
multiple_values_refused_example =
    multiple_values_refused pairs (1 ∷ 2 ∷ 3 ∷ []) pairs-IsDict (a_param ∷ []) [] b_kw_only
      b_is_five true false 5 (some 1 ∷ []) (refl, (refl, tt)) (omega arith) refl refl
