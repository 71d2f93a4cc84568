-- ===== src/FnAttr/Extensions.antt =====
-- `PyFunctionAttr::from_meta` (pyo3-derive-backend/src/pyfunction.rs): an item after a signature.
use pyo.Base.{
  ◌≡◌, sym, ap, ◌∙◌, Option, none, some, String, List, [], ◌∷◌, ◌++◌, map, Result, ok, err,
}
use pyo.FnAttr.{Lit, str, NestedMeta, path, name_value, PyFunctionAttr, AttrError, add_item}
use pyo.FnAttr.Signature.{
  Star, no_star, star, Signature, IsDefault, AreDefaults, IsSignature, keyword_only_of, star_item,
  default_item, stars_items, write_signature, attr_of,
}
use pyo.FnAttr.Accepts.{
  sig, append_nil, map-snoc, push-positional, push-default, push-star, push-last, accept-positional,
  accept-default, accept-star, accept-keyword_only, accept-kwargs,
}

-- The attribute after one more item is that of a signature written with this item at the end.
abbrev pub Extends : Signature → NestedMeta → PyFunctionAttr → Type 0
Extends s item slf =
    (s' : Signature) × IsSignature s'
    × (write_signature s' ≡ write_signature s ++ item ∷ [])
    × (slf ≡ attr_of s')

pub same-ok :
    (r : Result PyFunctionAttr AttrError) (slf slf' : PyFunctionAttr)
    → r ≡ ok slf
    → r ≡ ok slf'
    → slf ≡ slf'
same-ok r slf slf' h k = ap (λ x. elim x [ ok a ↦ a | err e ↦ slf ]) (sym h ∙ k)

AreDefaults-snoc :
    (ds : List (String × Lit)) (n : String) (lit : Lit)
    → AreDefaults ds
    → IsDefault lit
    → AreDefaults (ds ++ (n, lit) ∷ [])
AreDefaults-snoc [] n lit h k = (k, tt)
AreDefaults-snoc ((m, l) ∷ ds) n lit (h, hs) k = (h, AreDefaults-snoc ds n lit hs k)

module _ (ps : List String) where
  pub extend-positional :
      (n : String) (slf : PyFunctionAttr)
      → add_item (path n) (attr_of (sig ps [] no_star none)) ≡ ok slf
      → Extends (sig ps [] no_star none) (path n) slf
  unfolding write_signature
  extend-positional n slf h = (
    sig (ps ++ n ∷ []) [] no_star none,
    (tt, tt),
    rw (map-snoc path ps n) (sym (push-positional (map path ps) (path n))),
    same-ok _ _ _ h (accept-positional ps n),
  )

  module _ (ds : List (String × Lit)) (are : AreDefaults ds) where
    pub extend-default :
        (n : String) (lit : Lit) (slf : PyFunctionAttr)
        → IsDefault lit
        → add_item (name_value n lit) (attr_of (sig ps ds no_star none)) ≡ ok slf
        → Extends (sig ps ds no_star none) (name_value n lit) slf
    unfolding write_signature
    extend-default n lit slf is h = (
      sig ps (ds ++ (n, lit) ∷ []) no_star none,
      (AreDefaults-snoc ds n lit are is, tt),
      rw (map-snoc default_item ds (n, lit))
          (sym (push-default (map path ps) (map default_item ds) (name_value n lit))),
      same-ok _ _ _ h (accept-default ps ds n lit is),
    )

    pub extend-star :
        (name : Option String) (slf : PyFunctionAttr)
        → add_item (star_item name) (attr_of (sig ps ds no_star none)) ≡ ok slf
        → Extends (sig ps ds no_star none) (star_item name) slf
    unfolding write_signature
    extend-star name slf h = (
      sig ps ds (star name []) none,
      (are, tt),
      sym (push-star (map path ps) (map default_item ds) (star_item name)),
      same-ok _ _ _ h (accept-star ps ds name),
    )

    pub extend-keyword_only :
        (name : Option String) (ks : List (String × Lit)) (n : String) (lit : Lit)
        (slf : PyFunctionAttr)
        → AreDefaults ks
        → IsDefault lit
        → add_item (name_value n lit) (attr_of (sig ps ds (star name ks) none)) ≡ ok slf
        → Extends (sig ps ds (star name ks) none) (name_value n lit) slf
    unfolding write_signature
    extend-keyword_only name ks n lit slf only is h = (
      sig ps ds (star name (ks ++ (n, lit) ∷ [])) none,
      (are, AreDefaults-snoc ks n lit only is),
      rw
          (
            map-snoc default_item ks (n, lit),
            append_nil (map default_item ks ++ name_value n lit ∷ []),
          )
          (sym (
            push-last (map path ps) (map default_item ds) (star_item name ∷ map default_item ks)
              (name_value n lit))),
      same-ok _ _ _ h (accept-keyword_only ps ds ks name n lit is),
    )

    pub extend-kwargs :
        (st : Star) (n : String) (slf : PyFunctionAttr)
        → AreDefaults (keyword_only_of st)
        → add_item (name_value n (str "**")) (attr_of (sig ps ds st none)) ≡ ok slf
        → Extends (sig ps ds st none) (name_value n (str "**")) slf
    unfolding write_signature
    extend-kwargs st n slf only h = (
      sig ps ds st (some n),
      (are, only),
      sym (
          push-last (map path ps) (map default_item ds) (stars_items st) (name_value n (str "**"))),
      same-ok _ _ _ h (accept-kwargs ps ds st n),
    )
