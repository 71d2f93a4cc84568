-- ===== src/MethodSpec/Doc/Kept.antt =====
-- The doc comments of a method stay with it while its other attributes are taken
-- (pyo3-derive-backend/src/method.rs and utils.rs).
use mathlib.Core.List.{append_assoc, append-nil}
use text.Mathlib.Text.{◌==◌}
use text.Mathlib.TextEquality.{eq_iff}
use pyo.Base.{
  ok-injective, then_ok_inv, inl, inr, arith, ◌≡◌, refl, sym, ap, ◌∙◌, Bool, true, Bool-cases,
  Option-cases, Option, none, some, String, List, [], ◌∷◌, ◌++◌, ok,
}
use pyo.FnAttr.{Lit}
use pyo.MethodSpec.Attributes.{Attribute, Meta, word, list, name_value, name_literal, without_names}
use pyo.MethodSpec.Attributes.Given.{is_taken}
use pyo.MethodSpec.Attributes.Kept.{kept_attributes}
use pyo.MethodSpec.Doc.{
  doc_literal, doc_lines, line_and, parse_text_signature_attr, add_signature, add_signatures,
  parse_text_signature_attrs,
}

abbrev with_meta : String → Bool → Option Meta → Attribute
with_meta p inner meta = record { path = p; inner = inner; meta = meta }

is_taken-doc_literal :
    (p : String) (inner : Bool) (meta : Option Meta)
    → is_taken (with_meta p inner meta) ≡ true
    → doc_literal (with_meta p inner meta) ≡ none
is_taken-doc_literal p inner none h = refl
is_taken-doc_literal p inner (some word) h = refl
is_taken-doc_literal p inner (some (list nested)) h = refl
is_taken-doc_literal p inner (some (name_value lit)) h = absurd (ground (arith, h))

name_literal-doc_literal :
    (p : String) (inner : Bool) (meta : Option Meta) (lit : Lit)
    → name_literal (with_meta p inner meta) ≡ some lit
    → doc_literal (with_meta p inner meta) ≡ none
unfolding name_literal
name_literal-doc_literal p inner none lit h = refl
name_literal-doc_literal p inner (some word) lit h = refl
name_literal-doc_literal p inner (some (list nested)) lit h = refl
name_literal-doc_literal p inner (some (name_value l)) lit h = elim (Bool-cases (p == "name")) [
  | inl same ↦ rw ((eq_iff p "name").0 same) refl
  | inr other ↦ absurd (ground (arith, rw other at h))
]

signature-doc_literal :
    (python_name p v : String) (inner : Bool) (meta : Option Meta)
    → parse_text_signature_attr python_name (with_meta p inner meta) ≡ ok (some v)
    → doc_literal (with_meta p inner meta) ≡ none
unfolding parse_text_signature_attr
signature-doc_literal python_name p v inner none h = refl
signature-doc_literal python_name p v inner (some word) h = refl
signature-doc_literal python_name p v inner (some (list nested)) h = refl
signature-doc_literal python_name p v inner (some (name_value lit)) h =
    elim (Bool-cases (p == "text_signature")) [
      | inl same ↦ rw ((eq_iff p "text_signature").0 same) refl
      | inr other ↦ absurd (ground (arith, rw other at h))
    ]

pub doc_lines-kept_attributes :
    (attrs : List Attribute) → doc_lines (kept_attributes attrs) ≡ doc_lines attrs
unfolding doc_lines kept_attributes
doc_lines-kept_attributes [] = refl
doc_lines-kept_attributes (a ∷ attrs) = elim (Bool-cases (is_taken a)) [
  | inl taken ↦
      rw (taken, is_taken-doc_literal a.path a.inner a.meta taken) (doc_lines-kept_attributes attrs)
  | inr kept ↦ rw kept (ap (line_and (doc_literal a)) (doc_lines-kept_attributes attrs))
]

pub doc_lines-without_names :
    (attrs : List Attribute) → doc_lines (without_names attrs) ≡ doc_lines attrs
unfolding doc_lines without_names
doc_lines-without_names [] = refl
doc_lines-without_names (a ∷ attrs) = elim (Option-cases (name_literal a)) [
  | inl kept ↦
      rw (kept, without_names) (ap (line_and (doc_literal a)) (doc_lines-without_names attrs))
  | inr (lit, taken) ↦
      rw (taken, without_names, name_literal-doc_literal a.path a.inner a.meta lit taken)
        (doc_lines-without_names attrs)
]

doc_lines-drop :
    (a : Attribute) (before after : List Attribute)
    → doc_literal a ≡ none
    → doc_lines (before ++ after) ≡ doc_lines (before ++ a ∷ after)
unfolding doc_lines
doc_lines-drop a [] after h = rw h refl
doc_lines-drop a (b ∷ before) after h =
    ap (line_and (doc_literal b)) (doc_lines-drop a before after h)

-- What one attribute leaves.
add_signature-doc_lines :
    (name : String) (a : Attribute) (attrs : List Attribute) (v : Option String)
    (s s' : Option String × List Attribute)
    → parse_text_signature_attr name a ≡ ok v
    → add_signature a v s ≡ ok s'
    → doc_lines (s'.1 ++ attrs) ≡ doc_lines (s.1 ++ a ∷ attrs)
unfolding add_signature
add_signature-doc_lines name a attrs none (found, left) s' parsed h =
    rw (sym (ok-injective _ _ h)) (ap doc_lines (append_assoc left (a ∷ []) attrs))
add_signature-doc_lines name a attrs (some v) (none, left) s' parsed h =
    rw (sym (ok-injective _ _ h))
      (doc_lines-drop a left attrs (signature-doc_literal name a.path v a.inner a.meta parsed))
add_signature-doc_lines name a attrs (some v) (some w, left) s' parsed h =
    absurd (ground (arith, h))

add_signatures-doc_lines :
    (name : String) (attrs : List Attribute) (s r : Option String × List Attribute)
    → add_signatures name attrs s ≡ ok r
    → doc_lines r.1 ≡ doc_lines (s.1 ++ attrs)
unfolding add_signatures
add_signatures-doc_lines name [] s r h =
    rw (sym (ok-injective _ _ h)) (ap doc_lines (sym (append-nil s.1)))
add_signatures-doc_lines name (a ∷ attrs) s r h =
    let (v, parsed, h1) = then_ok_inv (parse_text_signature_attr name a) _ r h in
    let (s', added, h2) = then_ok_inv (add_signature a v s) _ r h1 in
    add_signatures-doc_lines name attrs s' r h2
    ∙ add_signature-doc_lines name a attrs v s s' parsed added

pub parse_text_signature_attrs-doc_lines :
    (name : String) (attrs left : List Attribute) (found : Option String)
    → parse_text_signature_attrs name attrs ≡ ok (found, left)
    → doc_lines left ≡ doc_lines attrs
unfolding parse_text_signature_attrs
parse_text_signature_attrs-doc_lines name attrs left found h =
    add_signatures-doc_lines name attrs (none, []) (found, left) h
