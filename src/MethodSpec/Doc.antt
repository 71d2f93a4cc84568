-- ===== src/MethodSpec/Doc.antt =====
-- The text of a doc comment and of `#[text_signature]` (pyo3-derive-backend/src/utils.rs). An
-- identifier has no dot and no space, so that the last part of a Python name is the name itself.
pub mod Lines
pub mod Signatures
pub mod Kept
use Prim.Native.Char.{Char, code}
use Prim.Native.String.{String}
use Prim.Native.String
use text.Mathlib.Text.{◌==◌ as same}
use text.Mathlib.TextLemmas
use pyo.Base.{
  ℕ, ◌≡◌, refl, sym, ap, ◌∙◌, Bool, true, false, not, ◌&&◌, ◌||◌, if◌then◌else◌, ◌==◌, Option, none,
  some, List, [], ◌∷◌, ◌++◌, Result, ok, err, then_ok,
}
use pyo.FnAttr.{Lit, str}
use pyo.MethodSpec.Attributes.{
  Attribute, Meta, word, list, name_value, SpecError, bad_meta, invalid_doc, signature_twice,
  signature_parentheses, signature_form,
}

abbrev pub append : String → String → String
append = String.◌++◌

abbrev starts_with_char : ℕ → String → Bool
starts_with_char k String.[] = false
starts_with_char k (String.◌∷◌ c s) = code c == k

abbrev ends_with_char : ℕ → String → Bool
ends_with_char k String.[] = false
ends_with_char k (String.◌∷◌ c String.[]) = code c == k
ends_with_char k (String.◌∷◌ c (String.◌∷◌ d s)) = ends_with_char k (String.◌∷◌ d s)

signature_value : String → Lit → Result (Option String) SpecError
signature_value python_name (str value) =
    if starts_with_char b'(' value && ends_with_char b')' value
    then ok (some (append python_name value))
    else err signature_parentheses
signature_value python_name lit = err signature_form

unfoldable pub parse_text_signature_attr : String → Attribute → Result (Option String) SpecError
unfolding signature_value
parse_text_signature_attr python_name a =
    if not (same a.path "text_signature") then ok none else elim a.meta [
      | none ↦ err bad_meta
      | some word ↦ err signature_form
      | some (list nested) ↦ err signature_form
      | some (name_value lit) ↦ signature_value python_name lit
    ]

add_signature :
    Attribute
    → Option String
    → Option String × List Attribute
    → Result (Option String × List Attribute) SpecError
add_signature a none (found, left) = ok (found, left ++ a ∷ [])
add_signature a (some value) (none, left) = ok (some value, left)
add_signature a (some value) (some other, left) = err signature_twice

-- The loop of `parse_text_signature_attrs`, with `text_signature` and `attrs_out`.
add_signatures :
    String
    → List Attribute
    → Option String × List Attribute
    → Result (Option String × List Attribute) SpecError
unfolding parse_text_signature_attr add_signature
add_signatures python_name [] s = ok s
add_signatures python_name (a ∷ attrs) s =
    then_ok (parse_text_signature_attr python_name a)
      λ value. then_ok (add_signature a value s) λ s'. add_signatures python_name attrs s'

unfoldable pub parse_text_signature_attrs :
    String → List Attribute → Result (Option String × List Attribute) SpecError
unfolding add_signatures
parse_text_signature_attrs python_name attrs = add_signatures python_name attrs (none, [])

-- The value of a `doc` attribute.
abbrev doc_literal : Attribute → Option Lit
doc_literal a = elim a.meta [
  | some (name_value lit) ↦ if same a.path "doc" then some lit else none
  | some word ↦ none
  | some (list nested) ↦ none
  | none ↦ none
]

abbrev without_space : String → String
without_space String.[] = String.[]
without_space (String.◌∷◌ c s) = if code c == 32 then s else String.◌∷◌ c s

-- One round of the loop of `get_doc`, with `separator` and `doc`.
add_doc : Option Lit → String × String → Result (String × String) SpecError
add_doc none (separator, doc) = ok (separator, doc)
add_doc (some (str d)) (separator, doc) = ok ("\n", append (append doc separator) (without_space d))
add_doc (some lit) s = err invalid_doc

add_docs : List Attribute → String × String → Result (String × String) SpecError
unfolding add_doc
add_docs [] s = ok s
add_docs (a ∷ attrs) s = then_ok (add_doc (doc_literal a) s) λ s'. add_docs attrs s'

abbrev pub signature_part : Option String → String
signature_part none = ""
signature_part (some text_signature) = append text_signature "\n--\n\n"

abbrev pub nul : String
nul = "\0"

unfoldable pub get_doc :
    List Attribute
    → (text_signature : Option String) → (null_terminated : Bool) → Result String SpecError
unfolding add_docs
get_doc attrs text_signature null_terminated =
    then_ok (add_docs attrs ("", signature_part text_signature))
      λ (separator, doc). ok (if null_terminated then append doc nul else doc)

-- The lines of the doc comments, or none where an attribute has something else.
abbrev line_and : Option Lit → Option (List String) → Option (List String)
line_and none lines = lines
line_and (some (str d)) none = none
line_and (some (str d)) (some lines) = some (without_space d ∷ lines)
line_and (some lit) lines = none

unfoldable pub doc_lines : List Attribute → Option (List String)
doc_lines [] = some []
doc_lines (a ∷ attrs) = line_and (doc_literal a) (doc_lines attrs)

abbrev more_lines : List String → String
more_lines [] = ""
more_lines (line ∷ lines) = append (append "\n" line) (more_lines lines)

-- The lines with a line feed between two of them.
abbrev pub join : List String → String
join [] = ""
join (line ∷ lines) = append line (more_lines lines)
