-- ===== src/MethodSpec/ParseExamples.antt =====
-- Methods as pyo3-derive-backend/src/method.rs reads them.
use pyo.Base.{
  is_some, if◌then◌else◌, ◌&&◌, not, drop, ◌≡◌, refl, Bool, true, false, none, some, String, List,
  [], ◌∷◌, ret, ok, inl, inr,
}
use pyo.FnAttr.{Argument, arg, var_args, Lit, str, from_meta}
use pyo.FnAttr
use pyo.MethodSpec.Types.{
  SynType, reference, path, segment, no_segments, bare, angle_bracketed, type_then, no_generics,
  if_type_is_python, is_ref, check_ty_optional,
}
use pyo.MethodSpec.Attributes.{
  Syn, Meta, word, list, name_value, Attribute, fn_class, fn, add_attributes, name_literal,
  name_literals, without_names, parse_name_attribute, parse_method_name_attribute, MethodAttributes,
  parse_method_attributes, type_or_fn,
}
use pyo.MethodSpec.Attributes.Kept.{
  kept_attributes, all_arguments, last_type, ArePropertiesFirst, parse_method_attributes_lem,
}
use pyo.MethodSpec.Doc.{
  append, doc_lines, get_doc, parse_text_signature_attr, parse_text_signature_attrs,
}
use pyo.MethodSpec.Doc.Signatures.{signature_attribute}
use pyo.MethodSpec.Parse.{
  receiver, FnSpec, add_inputs, receiver_type, tweak_name, text_signature_of, parse,
}
use pyo.MethodSpec.Parse.Receivers.{inputs_of, takes_first, input_names, parse-arg_names}
use pyo.MethodSpec.Parse.Signature.{rest_of, parse-text_signature}

abbrev plain : Syn
plain = record { parse_ident = some; is_segment = λ w. true; unraw = λ name. name }

abbrev attribute : String → Meta → Attribute
attribute name meta = record { path = name; inner = false; meta = some meta }

abbrev doc_attribute : Attribute
doc_attribute = attribute "doc" (name_value (str " The length."))

abbrev more_doc : Attribute
more_doc = attribute "doc" (name_value (str " In items."))

-- `#[name = "size"] #[text_signature = "()"] fn length(&self)`, with a doc comment of two lines, of
-- which one stands above the attributes.
abbrev length_attrs : List Attribute
length_attrs =
    doc_attribute
    ∷ attribute "name" (name_value (str "size"))
    ∷ signature_attribute false "()"
    ∷ more_doc
    ∷ []

abbrev length_spec : FnSpec
length_spec = record {
  tp = fn;
  self_ = some false;
  name = "length";
  python_name = "size";
  attrs = [];
  args = [];
  doc = "length()\n--\n\nThe length.\nIn items.\0";
}

length_accepted :
    parse plain "length" (receiver false ∷ []) length_attrs true
    ≡ ret (ok (length_spec, doc_attribute ∷ more_doc ∷ []))
unfolding parse parse_method_attributes add_attributes parse_method_name_attribute
    parse_name_attribute name_literals without_names name_literal add_inputs receiver_type
    tweak_name text_signature_of parse_text_signature_attrs parse_text_signature_attr get_doc
length_accepted = refl

parse-text_signature_example :
    (lines : List String) × (doc_lines length_attrs ≡ some lines)
    × (length_spec.doc ≡ append (append "length" "()") (rest_of lines))
parse-text_signature_example =
    parse-text_signature plain "length" (receiver false ∷ []) length_attrs
      (doc_attribute ∷ more_doc ∷ []) true length_spec false "()" length_accepted refl
      (inr (inr (inl refl)))

-- `#[classmethod] #[args(unit, rest = "*")] #[inline] fn make(cls: &PyType, unit: Unit, rest: &PyTuple)`.
abbrev named_type : String → SynType
named_type name = path (segment name bare no_segments)

abbrev make_inputs : List (String × SynType)
make_inputs =
    ("cls", reference false false (named_type "PyType"))
    ∷ (
      "unit",
      path (
          segment "Option" (angle_bracketed (type_then (named_type "Unit") no_generics))
            no_segments),
    )
    ∷ ("rest", reference false false (named_type "PyTuple"))
    ∷ []

abbrev make_attrs : List Attribute
make_attrs =
    attribute "classmethod" word
    ∷ attribute "args" (list (FnAttr.path "unit" ∷ FnAttr.name_value "rest" (str "*") ∷ []))
    ∷ attribute "inline" word
    ∷ []

abbrev make_args : List Argument
make_args = arg "unit" none ∷ var_args "rest" ∷ []

abbrev make_method : MethodAttributes
make_method = record { ty = fn_class; args = make_args; python_name = none }

make_taken :
    parse_method_attributes plain make_attrs true ≡ ok (make_method, attribute "inline" word ∷ [])
unfolding parse_method_attributes add_attributes parse_method_name_attribute parse_name_attribute
    name_literals without_names name_literal from_meta
make_taken = refl

parse_method_attributes_lem_example :
    (fn_class ≡ type_or_fn (last_type make_attrs))
    × (make_args ≡ all_arguments make_attrs)
    × ArePropertiesFirst none make_attrs
    × (attribute "inline" word ∷ [] ≡ without_names (kept_attributes make_attrs))
parse_method_attributes_lem_example =
    parse_method_attributes_lem plain make_attrs (attribute "inline" word ∷ []) true make_method
      make_taken

abbrev make_spec : FnSpec
make_spec = record {
  tp = fn_class;
  self_ = some false;
  name = "make";
  python_name = "make";
  attrs = make_args;
  args =
      record { name = "unit"; py = false; optional = some false; reference = false }
      ∷ record { name = "rest"; py = false; optional = none; reference = true }
      ∷ [];
  doc = "\0";
}

make_accepted :
    parse plain "make" (inputs_of none make_inputs) make_attrs true
    ≡ ret (ok (make_spec, attribute "inline" word ∷ []))
unfolding parse parse_method_attributes add_attributes parse_method_name_attribute
    parse_name_attribute name_literals without_names name_literal add_inputs receiver_type
    tweak_name text_signature_of parse_text_signature_attrs parse_text_signature_attr get_doc
    from_meta is_ref check_ty_optional if_type_is_python
make_accepted = refl

parse-arg_names_example : "unit" ∷ "rest" ∷ [] ≡ (
    if takes_first (type_or_fn (last_type make_attrs)) && not (is_some {A = Bool} none)
    then drop 1 (input_names make_inputs)
    else input_names make_inputs)
parse-arg_names_example =
    parse-arg_names plain "make" none make_inputs make_attrs (attribute "inline" word ∷ []) true
      make_spec make_accepted
