-- ===== src/MethodSpec/Doc/Signatures.antt =====
-- The signature that `parse_text_signature_attrs` of pyo3-derive-backend/src/utils.rs finds.
use pyo.Base.{
  ok-injective, then_ok_inv, inl, inr, arith, ◌≡◌, sym, ap, ◌∙◌, Bool, ◌&&◌, Bool-cases, Option,
  none, some, String, List, [], ◌∷◌, ok,
}
use pyo.FnAttr.{str}
use pyo.MethodSpec.Attributes.{Attribute, name_value}
use pyo.MethodSpec.Attributes.Kept.{IsIn}
use pyo.MethodSpec.Doc.{
  append, starts_with_char, ends_with_char, signature_value, parse_text_signature_attr,
  add_signature, add_signatures, parse_text_signature_attrs,
}

-- `#[text_signature = "…"]`.
abbrev pub signature_attribute : Bool → String → Attribute
signature_attribute inner value = record {
  path = "text_signature";
  inner = inner;
  meta = some (name_value (str value));
}

-- A second signature is an error.
once :
    (a : Attribute) (v : Option String) (value : String) (left : List Attribute)
    (s : Option String × List Attribute)
    → add_signature a v (some value, left) ≡ ok s
    → s.0 ≡ some value
unfolding add_signature
once a none value left s h = ap (λ q. q.0) (sym (ok-injective _ _ h))
once a (some v) value left s h = absurd (ground (arith, h))

module _ (name : String) where
  add_signatures-found :
      (attrs : List Attribute) (value : String) (s r : Option String × List Attribute)
      → s.0 ≡ some value
      → add_signatures name attrs s ≡ ok r
      → r.0 ≡ some value
  unfolding add_signatures
  add_signatures-found [] value s r found h = ap (λ q. q.0) (sym (ok-injective _ _ h)) ∙ found
  add_signatures-found (a ∷ attrs) value (o, left) r found h =
      let (v, parsed, h1) = then_ok_inv (parse_text_signature_attr name a) _ r h in
      let (s', added, h2) = then_ok_inv (add_signature a v (o, left)) _ r h1 in
      add_signatures-found attrs value s' r (once a v value left s' (rw found at added)) h2

  signature_attribute-value :
      (inner : Bool) (value : String) (v : Option String)
      → parse_text_signature_attr name (signature_attribute inner value) ≡ ok v
      → v ≡ some (append name value)
  unfolding parse_text_signature_attr signature_value
  signature_attribute-value inner value v h =
      elim (Bool-cases (starts_with_char b'(' value && ends_with_char b')' value)) [
        | inl good ↦ sym (ok-injective _ _ (rw good at h))
        | inr bad ↦ absurd (ground (arith, rw bad at h))
      ]

  first_found :
      (a : Attribute) (v : String) (o : Option String) (left : List Attribute)
      (s : Option String × List Attribute)
      → add_signature a (some v) (o, left) ≡ ok s
      → s.0 ≡ some v
  unfolding add_signature
  first_found a v none left s h = ap (λ q. q.0) (sym (ok-injective _ _ h))
  first_found a v (some w) left s h = absurd (ground (arith, h))

  add_signatures-IsIn :
      (inner : Bool) (value : String) (attrs : List Attribute)
      (s r : Option String × List Attribute)
      → IsIn (signature_attribute inner value) attrs
      → add_signatures name attrs s ≡ ok r
      → r.0 ≡ some (append name value)
  unfolding add_signatures
  add_signatures-IsIn inner value [] s r here h = elim here [ ]
  add_signatures-IsIn inner value (a ∷ attrs) (o, left) r (inl here) h =
      let (v, parsed, h1) = then_ok_inv (parse_text_signature_attr name a) _ r h in
      let is_some = signature_attribute-value inner value v (rw (sym here) at parsed) in
      let (s', added, h2) = then_ok_inv (add_signature a v (o, left)) _ r h1 in
      add_signatures-found attrs (append name value) s' r
        (first_found a (append name value) o left s' (rw is_some at added)) h2
  add_signatures-IsIn inner value (a ∷ attrs) s r (inr there) h =
      let (v, parsed, h1) = then_ok_inv (parse_text_signature_attr name a) _ r h in
      let (s', added, h2) = then_ok_inv (add_signature a v s) _ r h1 in
      add_signatures-IsIn inner value attrs s' r there h2

  pub parse_text_signature_attrs-IsIn :
      (inner : Bool) (value : String) (attrs left : List Attribute) (found : Option String)
      → IsIn (signature_attribute inner value) attrs
      → parse_text_signature_attrs name attrs ≡ ok (found, left)
      → found ≡ some (append name value)
  unfolding parse_text_signature_attrs
  parse_text_signature_attrs-IsIn inner value attrs left found here h =
      add_signatures-IsIn inner value attrs (none, []) (found, left) here h
