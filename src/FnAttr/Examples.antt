-- ===== src/FnAttr/Examples.antt =====
-- The attributes of the tests in pyo3-derive-backend/src/pyfunction.rs.
use pyo.Base.{◌≡◌, refl, ◌↔◌, true, none, some, List, [], ◌∷◌, ok, err}
use pyo.FnAttr.{
  str, int, NestedMeta, path, name_value, literal, var_args_separator, keyword_args, arg, kwarg,
  PyFunctionAttr, add_item, add_items, from_meta, positional_after_keyword, star_not_allowed,
}
use pyo.FnAttr.Signature.{Signature, IsSignature, write_signature, attr_of, star}
use pyo.FnAttr.Exact.{from_meta_iff}

abbrev test_signature : Signature
test_signature = record {
  positional = "test1" ∷ [];
  defaults = ("test2", str "None") ∷ [];
  stars = star none (("test3", int "5") ∷ []);
  kwargs = some "kwargs";
}

abbrev test_items : List NestedMeta
test_items =
    path "test1"
    ∷ name_value "test2" (str "None")
    ∷ literal (str "*")
    ∷ name_value "test3" (int "5")
    ∷ name_value "kwargs" (str "**")
    ∷ []

abbrev test_attr : PyFunctionAttr
test_attr = record {
  arguments =
      arg "test1" none
      ∷ arg "test2" (some "None")
      ∷ var_args_separator
      ∷ kwarg "test3" "5"
      ∷ keyword_args "kwargs"
      ∷ [];
  has_kw = true;
  has_varargs = true;
  has_kwargs = true;
}

errs_positional :
    from_meta (name_value "test" (str "1") ∷ path "test2" ∷ []) ≡ err positional_after_keyword
unfolding from_meta add_items add_item
errs_positional = refl

errs_star :
    from_meta (path "test" ∷ literal (str "*") ∷ name_value "args" (str "*") ∷ [])
    ≡ err star_not_allowed
unfolding from_meta add_items add_item
errs_star = refl

from_meta_iff_example :
    (from_meta test_items ≡ ok test_attr)
    ↔ ((s : Signature) × IsSignature s × (test_items ≡ write_signature s) × (test_attr ≡ attr_of s))
from_meta_iff_example = from_meta_iff test_items test_attr

test_accepted : from_meta test_items ≡ ok test_attr
unfolding write_signature attr_of
test_accepted =
    (from_meta_iff test_items test_attr).1
      (test_signature, (((refl, refl), tt), (tt, tt)), refl, refl)
