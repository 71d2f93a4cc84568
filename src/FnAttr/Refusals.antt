-- ===== src/FnAttr/Refusals.antt =====
-- `PyFunctionAttr::from_meta` (pyo3-derive-backend/src/pyfunction.rs): what is refused after which item.
use text.Mathlib.Text.{◌==◌}
use pyo.Base.{
  ◌≡◌, arith, true, ◌||◌, Option, none, some, String, Result, ok, err, inl, inr, Bool-cases,
}
use pyo.FnAttr.{
  str, int, boolean, other_literal, NestedMeta, path, name_value, literal, meta_list,
  PyFunctionAttr, AttrError, vararg_is_ok, kw_arg_is_ok, add_star, add_literal, add_work,
  add_nv_common, add_kwargs, add_name_value, add_item,
}
use pyo.FnAttr.Signature.{star_item}

abbrev pub Refuses : {A : Type 0} → Result A AttrError → Type 0
Refuses (ok a) = ⊥
Refuses (err e) = Unit

-- Nothing stands after the name for further keywords.
pub after_kwargs :
    (item : NestedMeta) (slf : PyFunctionAttr) → slf.has_kwargs ≡ true → Refuses (add_item item slf)
unfolding add_item add_work add_name_value add_literal add_star add_kwargs add_nv_common
    vararg_is_ok kw_arg_is_ok
after_kwargs (path n) slf h = elim (Bool-cases slf.has_kw) [
  | inl kw ↦ rw kw tt
  | inr neither ↦ rw (neither, h) tt
]
after_kwargs (name_value n (str v)) slf h = elim (Bool-cases (v == "*")) [
  | inl one ↦ rw (one, h) tt
  | inr other ↦ elim (Bool-cases (v == "**")) [
    | inl two ↦ rw (other, two, h) tt
    | inr neither ↦ rw (other, neither, h) tt
  ]
]
after_kwargs (name_value n (int v)) slf h = rw h tt
after_kwargs (name_value n (boolean v)) slf h = rw h tt
after_kwargs (name_value n other_literal) slf h = tt
after_kwargs (literal (str v)) slf h = elim (Bool-cases (v == "*")) [
  | inl one ↦ rw (one, h) tt
  | inr other ↦ rw other tt
]
after_kwargs (literal (int v)) slf h = tt
after_kwargs (literal (boolean v)) slf h = tt
after_kwargs (literal other_literal) slf h = tt
after_kwargs meta_list slf h = tt

-- No positional parameter and no star stands after a star, nor a positional one after a default.
pub positional_refused :
    (n : String) (slf : PyFunctionAttr)
    → (slf.has_kw || slf.has_varargs) ≡ true
    → Refuses (add_item (path n) slf)
unfolding add_item add_work
positional_refused n slf h = ground arith

pub star_refused :
    (name : Option String) (slf : PyFunctionAttr)
    → slf.has_varargs ≡ true
    → Refuses (add_item (star_item name) slf)
unfolding add_item add_literal add_name_value add_star vararg_is_ok
star_refused none slf h = ground arith
star_refused (some n) slf h = ground arith
