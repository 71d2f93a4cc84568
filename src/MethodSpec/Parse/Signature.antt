-- ===== src/MethodSpec/Parse/Signature.antt =====
-- The text signature in a method's doc (`FnSpec::parse` of pyo3-derive-backend/src/method.rs).
use Prim.Native.String.{String}
use text.Mathlib.TextLemmas.{append_assoc}
use pyo.Base.{
  ok-injective, subst, arith, ◌≡◌, refl, sym, ap, ◌∙◌, Bool, true, false, if◌then◌else◌, Option,
  none, some, List, ret, ok,
}
use pyo.MethodSpec.Attributes.{without_names, name_literal, Syn, Attribute}
use pyo.MethodSpec.Attributes.Kept.{
  IsIn, kept_attributes, kept_attributes-IsIn, without_names-IsIn, parse_method_attributes_lem,
}
use pyo.MethodSpec.Doc.{append, signature_part, nul, get_doc, doc_lines, join}
use pyo.MethodSpec.Doc.Kept.{
  doc_lines-kept_attributes, doc_lines-without_names, parse_text_signature_attrs-doc_lines,
}
use pyo.MethodSpec.Doc.Lines.{lines_after, ended, get_doc_lem}
use pyo.MethodSpec.Doc.Signatures.{signature_attribute, parse_text_signature_attrs-IsIn}
use pyo.MethodSpec.Parse.{Input, FnSpec, has_signature, text_signature_of, parse}
use pyo.MethodSpec.Parse.Stages.{parse-Accepted}

-- The doc that follows a signature.
abbrev pub rest_of : List String → String
rest_of lines = append "\n--\n\n" (append (join lines) nul)

documented :
    (signature doc : String) (lines : Option (List String))
    → ended true (lines_after (signature_part (some signature)) join lines) ≡ ok doc
    → (ls : List String) × (lines ≡ some ls) × (doc ≡ append signature (rest_of ls))
documented signature doc none h = absurd (ground (arith, h))
documented signature doc (some ls) h = (
  ls,
  refl,
  sym (ok-injective _ _ h)
      ∙ append_assoc (append signature "\n--\n\n") (join ls) nul
      ∙ append_assoc signature "\n--\n\n" (append (join ls) nul),
)

lines_kept :
    (attrs : List Attribute) (allow_custom_name : Bool)
    → doc_lines
        (if allow_custom_name then without_names (kept_attributes attrs) else kept_attributes attrs)
      ≡ doc_lines attrs
lines_kept attrs true =
    doc_lines-without_names (kept_attributes attrs) ∙ doc_lines-kept_attributes attrs
lines_kept attrs false = doc_lines-kept_attributes attrs

module _ (syn : Syn) (name : String) where
  signature_kept :
      (inner : Bool) (value : String) (attrs : List Attribute) (allow_custom_name : Bool)
      → IsIn (signature_attribute inner value) attrs
      → IsIn (signature_attribute inner value) (
          if allow_custom_name
          then without_names (kept_attributes attrs)
          else kept_attributes attrs)
  unfolding name_literal
  signature_kept inner value attrs true here =
      without_names-IsIn (signature_attribute inner value) (kept_attributes attrs) refl
        (kept_attributes-IsIn (signature_attribute inner value) attrs refl here)
  signature_kept inner value attrs false here =
      kept_attributes-IsIn (signature_attribute inner value) attrs refl here

  -- When a method with a text signature is accepted, every `doc = …` among the attributes written at
  -- it is a text, and its doc is the name of the Rust function, whatever name the method has in Python,
  -- then the signature, the separator, and all these texts in their order, each without its leading
  -- space and with a line feed between two of them, and a null byte.
  pub parse-text_signature :
      (inputs : List Input) (meth_attrs left : List Attribute) (allow_custom_name : Bool)
      (spec : FnSpec) (inner : Bool) (value : String)
      → parse syn name inputs meth_attrs allow_custom_name ≡ ret (ok (spec, left))
      → has_signature spec.tp ≡ true
      → IsIn (signature_attribute inner value) meth_attrs
      → (lines : List String) × (doc_lines meth_attrs ≡ some lines)
        × (spec.doc ≡ append (append name value) (rest_of lines))
  unfolding text_signature_of
  parse-text_signature inputs meth_attrs left allow_custom_name spec inner value h method here =
      let (m, attrs, given, taken, added, accepted) =
        parse-Accepted syn name inputs meth_attrs left allow_custom_name spec h in
      let (ty, args, first, kept) =
        parse_method_attributes_lem syn meth_attrs attrs allow_custom_name m taken in
      let there =
        subst (IsIn (signature_attribute inner value)) (sym kept)
          (signature_kept inner value meth_attrs allow_custom_name here) in
      let signature = rw (method, text_signature_of) at accepted.signature_ok in
      let found =
        parse_text_signature_attrs-IsIn name inner value attrs accepted.left accepted.text_signature
          there signature in
      let (lines, same, doc) = documented (append name value) spec.doc (doc_lines accepted.left) (
        sym (get_doc_lem accepted.left (some (append name value)) true)
        ∙ subst (λ s. get_doc accepted.left s true ≡ ok spec.doc) found accepted.doc_ok) in
      (
        lines,
        sym (
              parse_text_signature_attrs-doc_lines name attrs accepted.left accepted.text_signature
                signature
              ∙ ap doc_lines kept
              ∙ lines_kept meth_attrs allow_custom_name)
            ∙ same,
        doc,
      )
