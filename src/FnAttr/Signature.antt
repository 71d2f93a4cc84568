-- ===== src/FnAttr/Signature.antt =====
-- What the arguments of `#[args(…)]` can say (pyo3-derive-backend/src/pyfunction.rs): a signature in
-- its parts, how it is written, and the attribute that stands for it.
use text.Mathlib.Text.{◌==◌}
use pyo.Base.{◌≡◌, Bool, true, false, Option, none, some, String, List, [], ◌∷◌, ◌++◌, map}
use pyo.FnAttr.{
  Lit, str, int, boolean, other_literal, NestedMeta, path, name_value, literal, Argument,
  var_args_separator, var_args, keyword_args, arg, kwarg, PyFunctionAttr, printed_bool,
}

-- A star alone or with a name, and the keyword-only parameters after it.
pub data Star : Type 0 where
  no_star : Star
  star : (name : Option String) → (keyword_only : List (String × Lit)) → Star

-- Positional parameters, parameters with a default, a star, and the name for other keywords.
pub record Signature : Type 0 where
  pub positional : List String
  pub defaults : List (String × Lit)
  pub stars : Star
  pub kwargs : Option String

-- A default is a literal that is none of the two marks.
abbrev pub IsDefault : Lit → Type 0
IsDefault (str value) = ((value == "*") ≡ false) × ((value == "**") ≡ false)
IsDefault (int printed) = Unit
IsDefault (boolean value) = Unit
IsDefault other_literal = ⊥

abbrev pub AreDefaults : List (String × Lit) → Type 0
AreDefaults [] = Unit
AreDefaults ((name, lit) ∷ rest) = IsDefault lit × AreDefaults rest

abbrev pub keyword_only_of : Star → List (String × Lit)
keyword_only_of no_star = []
keyword_only_of (star name rest) = rest

abbrev pub IsSignature : Signature → Type 0
IsSignature s = AreDefaults s.defaults × AreDefaults (keyword_only_of s.stars)

abbrev pub star_item : Option String → NestedMeta
star_item none = literal (str "*")
star_item (some name) = name_value name (str "*")

abbrev pub default_item : String × Lit → NestedMeta
default_item (name, lit) = name_value name lit

abbrev pub stars_items : Star → List NestedMeta
stars_items no_star = []
stars_items (star name rest) = star_item name ∷ map default_item rest

abbrev pub kwargs_items : Option String → List NestedMeta
kwargs_items none = []
kwargs_items (some name) = name_value name (str "**") ∷ []

-- How a signature is written.
unfoldable pub write_signature : Signature → List NestedMeta
write_signature s =
    map path s.positional
    ++ (map default_item s.defaults ++ (stars_items s.stars ++ kwargs_items s.kwargs))

abbrev pub printed : Lit → String
printed (str value) = value
printed (int text) = text
printed (boolean value) = printed_bool value
printed other_literal = ""

abbrev pub star_argument : Option String → Argument
star_argument none = var_args_separator
star_argument (some name) = var_args name

abbrev pub default_argument : String × Lit → Argument
default_argument (name, lit) = arg name (some (printed lit))

abbrev pub keyword_only_argument : String × Lit → Argument
keyword_only_argument (name, lit) = kwarg name (printed lit)

abbrev pub stars_arguments : Star → List Argument
stars_arguments no_star = []
stars_arguments (star name rest) = star_argument name ∷ map keyword_only_argument rest

abbrev pub kwargs_arguments : Option String → List Argument
kwargs_arguments none = []
kwargs_arguments (some name) = keyword_args name ∷ []

abbrev pub positional_argument : String → Argument
positional_argument name = arg name none

abbrev pub is_cons {ℓ} : {A : Type ℓ} → List A → Bool
is_cons [] = false
is_cons (x ∷ xs) = true

abbrev pub is_star : Star → Bool
is_star no_star = false
is_star (star name rest) = true

abbrev pub is_named : Option String → Bool
is_named none = false
is_named (some name) = true

-- The attribute that stands for a signature.
unfoldable pub attr_of : Signature → PyFunctionAttr
attr_of s = record {
  arguments =
      map positional_argument s.positional
      ++ (map default_argument s.defaults
          ++ (stars_arguments s.stars ++ kwargs_arguments s.kwargs));
  has_kw = is_cons s.defaults;
  has_varargs = is_star s.stars;
  has_kwargs = is_named s.kwargs;
}
