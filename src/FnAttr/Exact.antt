-- ===== src/FnAttr/Exact.antt =====
-- `PyFunctionAttr::from_meta` (pyo3-derive-backend/src/pyfunction.rs): which lists of items it reads.
use text.Mathlib.TextEquality.{eq_iff}
use text.Mathlib.Text.{◌==◌}
use mathlib.Core.List.{append_assoc}
use pyo.Base.{
  Result-cases, ◌≡◌, refl, sym, subst, ◌∙◌, Option, none, some, String, List, [], ◌∷◌, ◌++◌, ok,
  then_ok, ◌↔◌, inl, inr, Bool-cases,
}
use pyo.FnAttr.{
  Lit, str, int, boolean, other_literal, NestedMeta, path, name_value, literal, meta_list,
  PyFunctionAttr, add_literal, add_name_value, add_item, add_items, from_meta,
}
use pyo.FnAttr.Signature.{
  Star, no_star, star, Signature, IsDefault, AreDefaults, IsSignature, keyword_only_of, star_item,
  write_signature, attr_of,
}
use pyo.FnAttr.Accepts.{sig, append_nil, from_meta-write_signature}
use pyo.FnAttr.Extensions.{
  Extends, same-ok, extend-positional, extend-default, extend-star, extend-keyword_only,
  extend-kwargs,
}
use pyo.FnAttr.Refusals.{Refuses, after_kwargs, positional_refused, star_refused}

module _ (ps : List String) (ds : List (String × Lit)) (are : AreDefaults ds) where
  extend-parameter :
      (st : Star) (n : String) (lit : Lit) (slf : PyFunctionAttr)
      → AreDefaults (keyword_only_of st)
      → IsDefault lit
      → add_item (name_value n lit) (attr_of (sig ps ds st none)) ≡ ok slf
      → Extends (sig ps ds st none) (name_value n lit) slf
  extend-parameter no_star n lit slf only is h = extend-default ps ds are n lit slf is h
  extend-parameter (star name ks) n lit slf only is h =
      extend-keyword_only ps ds are name ks n lit slf only is h

  extend-any_star :
      (st : Star) (name : Option String) (slf : PyFunctionAttr)
      → add_item (star_item name) (attr_of (sig ps ds st none)) ≡ ok slf
      → Extends (sig ps ds st none) (star_item name) slf
  unfolding attr_of
  extend-any_star no_star name slf h = extend-star ps ds are name slf h
  extend-any_star (star other ks) name slf h =
      absurd (subst Refuses h (star_refused name (attr_of (sig ps ds (star other ks) none)) refl))

  extend-string :
      (st : Star) (n v : String) (slf : PyFunctionAttr)
      → AreDefaults (keyword_only_of st)
      → add_item (name_value n (str v)) (attr_of (sig ps ds st none)) ≡ ok slf
      → Extends (sig ps ds st none) (name_value n (str v)) slf
  extend-string st n v slf only h = elim (Bool-cases (v == "*")) [
    | inl one ↦
        subst (λ u. Extends (sig ps ds st none) (name_value n (str u)) slf)
          (sym ((eq_iff v "*").0 one))
          (extend-any_star st (some n) slf (
            subst (λ u. add_item (name_value n (str u)) (attr_of (sig ps ds st none)) ≡ ok slf)
              ((eq_iff v "*").0 one) h))
    | inr other ↦ elim (Bool-cases (v == "**")) [
      | inl two ↦
          subst (λ u. Extends (sig ps ds st none) (name_value n (str u)) slf)
            (sym ((eq_iff v "**").0 two))
            (extend-kwargs ps ds are st n slf only (
              subst (λ u. add_item (name_value n (str u)) (attr_of (sig ps ds st none)) ≡ ok slf)
                ((eq_iff v "**").0 two) h))
      | inr neither ↦ extend-parameter st n (str v) slf only (other, neither) h
    ]
  ]

  extend-literal :
      (st : Star) (lit : Lit) (slf : PyFunctionAttr)
      → add_item (literal lit) (attr_of (sig ps ds st none)) ≡ ok slf
      → Extends (sig ps ds st none) (literal lit) slf
  unfolding add_item add_literal
  extend-literal st (str v) slf h = elim (Bool-cases (v == "*")) [
    | inl one ↦
        subst (λ u. Extends (sig ps ds st none) (literal (str u)) slf) (sym ((eq_iff v "*").0 one))
          (extend-any_star st none slf (
            subst (λ u. add_item (literal (str u)) (attr_of (sig ps ds st none)) ≡ ok slf)
              ((eq_iff v "*").0 one) h))
    | inr other ↦ absurd (subst Refuses h (rw other tt))
  ]
  extend-literal st (int v) slf h = absurd (subst Refuses h tt)
  extend-literal st (boolean v) slf h = absurd (subst Refuses h tt)
  extend-literal st other_literal slf h = absurd (subst Refuses h tt)

  extend-path :
      (st : Star) (n : String) (slf : PyFunctionAttr)
      → (es : List (String × Lit)) → add_item (path n) (attr_of (sig ps es st none)) ≡ ok slf
      → Extends (sig ps es st none) (path n) slf
  unfolding attr_of
  extend-path no_star n slf [] h = extend-positional ps n slf h
  extend-path st n slf (d ∷ es) h =
      absurd (subst Refuses h (positional_refused n (attr_of (sig ps (d ∷ es) st none)) refl))
  extend-path (star name ks) n slf [] h =
      absurd (subst Refuses h (positional_refused n (attr_of (sig ps [] (star name ks) none)) refl))

  extend-item :
      (st : Star) (k : Option String) (item : NestedMeta) (slf : PyFunctionAttr)
      → AreDefaults (keyword_only_of st)
      → add_item item (attr_of (sig ps ds st k)) ≡ ok slf
      → Extends (sig ps ds st k) item slf
  unfolding attr_of add_item add_name_value
  extend-item st (some n) item slf only h =
      absurd (subst Refuses h (after_kwargs item (attr_of (sig ps ds st (some n))) refl))
  extend-item st none (path n) slf only h = extend-path st n slf ds h
  extend-item st none (name_value n (str v)) slf only h = extend-string st n v slf only h
  extend-item st none (name_value n (int v)) slf only h =
      extend-parameter st n (int v) slf only tt h
  extend-item st none (name_value n (boolean v)) slf only h =
      extend-parameter st n (boolean v) slf only tt h
  extend-item st none (name_value n other_literal) slf only h = absurd (subst Refuses h tt)
  extend-item st none (literal lit) slf only h = extend-literal st lit slf h
  extend-item st none meta_list slf only h = absurd (subst Refuses h tt)

add_items-exact :
    (s : Signature) (items : List NestedMeta) (slf : PyFunctionAttr)
    → IsSignature s
    → add_items items (attr_of s) ≡ ok slf
    → (s' : Signature) × IsSignature s'
      × (write_signature s' ≡ write_signature s ++ items)
      × (slf ≡ attr_of s')
unfolding add_items
add_items-exact s [] slf is h =
    (s, is, sym (append_nil (write_signature s)), same-ok (ok slf) slf (attr_of s) refl (sym h))
add_items-exact s (item ∷ items) slf is h = elim (Result-cases (add_item item (attr_of s))) [
  | inl (slf', e) ↦
      let (s', is', one, same) =
        extend-item s.positional s.defaults is.0 s.stars s.kwargs item slf' is.1 e in
      let (s'', is'', more, last) = add_items-exact s' items slf is' (
        subst (λ x. add_items items x ≡ ok slf) same
          (subst (λ r. then_ok r (λ x. add_items items x) ≡ ok slf) e h)) in
      (s'', is'', more ∙ rw one (append_assoc (write_signature s) (item ∷ []) items), last)
  | inr (x, e) ↦
      absurd (subst Refuses (subst (λ r. then_ok r (λ y. add_items items y) ≡ ok slf) e h) tt)
]

-- A list of arguments is accepted exactly if it is a signature written in order (positional
-- parameters, parameters with defaults, a star with keyword-only parameters, a name for further
-- keywords) and the attribute is then the one that stands for this signature.
pub from_meta_iff :
    (items : List NestedMeta) (slf : PyFunctionAttr)
    → (from_meta items ≡ ok slf)
      ↔ ((s : Signature) × IsSignature s × (items ≡ write_signature s) × (slf ≡ attr_of s))
unfolding from_meta attr_of write_signature
from_meta_iff items slf = (
  λ h.
      let (s, is, written, same) = add_items-exact (sig [] [] no_star none) items slf (tt, tt) h in
      (s, is, sym written, same),
  λ (s, is, written, same). rw (written, same) (from_meta-write_signature s is),
)
