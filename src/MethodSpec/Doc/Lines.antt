-- ===== src/MethodSpec/Doc/Lines.antt =====
-- What a doc comment becomes (`get_doc` of pyo3-derive-backend/src/utils.rs).
use Prim.Native.String.{String}
use text.Mathlib.TextLemmas.{append_assoc, append-nil}
use pyo.Base.{
  ◌⊎◌, inl, inr, ◌≡◌, refl, sym, ap, ◌∙◌, Bool, if◌then◌else◌, Option, none, some, List, [], ◌∷◌,
  Result, ok, err, then_ok,
}
use pyo.FnAttr.{Lit, str, int, boolean, other_literal}
use pyo.MethodSpec.Attributes.{Attribute, SpecError, invalid_doc}
use pyo.MethodSpec.Doc.{
  append, add_doc, add_docs, doc_literal, without_space, signature_part, nul, get_doc, line_and,
  doc_lines, more_lines, join,
}

abbrev text_of : Result (String × String) SpecError → Result String SpecError
text_of (ok (separator, doc)) = ok doc
text_of (err e) = err e

abbrev pub lines_after :
    String → (List String → String) → Option (List String) → Result String SpecError
lines_after doc put none = err invalid_doc
lines_after doc put (some lines) = ok (append doc (put lines))

abbrev pub ended : Bool → Result String SpecError → Result String SpecError
ended null_terminated (ok doc) = ok (if null_terminated then append doc nul else doc)
ended null_terminated (err e) = err e

-- The next line after a line feed, and the first line.
next_line :
    (doc d : String) (lines : Option (List String))
    → lines_after (append (append doc "\n") (without_space d)) more_lines lines
      ≡ lines_after doc more_lines (line_and (some (str d)) lines)
next_line doc d none = refl
next_line doc d (some lines) = ap ok (
    ap (λ s. append s (more_lines lines)) (append_assoc doc "\n" (without_space d))
    ∙ append_assoc doc (append "\n" (without_space d)) (more_lines lines))

first_line :
    (doc d : String) (lines : Option (List String))
    → lines_after (append doc (without_space d)) more_lines lines
      ≡ lines_after doc join (line_and (some (str d)) lines)
first_line doc d none = refl
first_line doc d (some lines) = ap ok (append_assoc doc (without_space d) (more_lines lines))

literal_cases :
    (o : Option Lit)
    → (o ≡ none)
      ⊎ (((d : String) × (o ≡ some (str d)))
          ⊎ (((s : String × String) → add_doc o s ≡ err invalid_doc)
              × ((lines : Option (List String)) → line_and o lines ≡ none)))
unfolding add_doc
literal_cases none = inl refl
literal_cases (some (str d)) = inr (inl (d, refl))
literal_cases (some (int printed)) = inr (inr (λ s. refl, λ lines. refl))
literal_cases (some (boolean value)) = inr (inr (λ s. refl, λ lines. refl))
literal_cases (some other_literal) = inr (inr (λ s. refl, λ lines. refl))

add_docs-more :
    (attrs : List Attribute) (doc : String)
    → text_of (add_docs attrs ("\n", doc)) ≡ lines_after doc more_lines (doc_lines attrs)
unfolding add_docs doc_lines add_doc
add_docs-more [] doc = ap ok (sym (append-nil doc))
add_docs-more (a ∷ attrs) doc = elim (literal_cases (doc_literal a)) [
  | inl other ↦ rw other (add_docs-more attrs doc)
  | inr (inl (d, line)) ↦ rw line (
      add_docs-more attrs (append (append doc "\n") (without_space d))
      ∙ next_line doc d (doc_lines attrs))
  | inr (inr (refused, no_lines)) ↦ rw (refused, no_lines) refl
]

add_docs-first :
    (attrs : List Attribute) (doc : String)
    → text_of (add_docs attrs ("", doc)) ≡ lines_after doc join (doc_lines attrs)
unfolding add_docs doc_lines add_doc
add_docs-first [] doc = ap ok (sym (append-nil doc))
add_docs-first (a ∷ attrs) doc = elim (literal_cases (doc_literal a)) [
  | inl other ↦ rw other (add_docs-first attrs doc)
  | inr (inl (d, line)) ↦ rw line (
      add_docs-more attrs (append (append doc "") (without_space d))
      ∙ ap (λ s. lines_after (append s (without_space d)) more_lines (doc_lines attrs))
          (append-nil doc)
      ∙ first_line doc d (doc_lines attrs))
  | inr (inr (refused, no_lines)) ↦ rw (refused, no_lines) refl
]

ended_text :
    (null_terminated : Bool) (r : Result (String × String) SpecError)
    → (then_ok {B = String} r
        λ (separator, doc). ok (if null_terminated then append doc nul else doc))
      ≡ ended null_terminated (text_of r)
ended_text null_terminated (ok (separator, doc)) = refl
ended_text null_terminated (err e) = refl

-- The doc of a class or function is its text signature with a separator, if it has one, and the
-- lines of the doc comments, each without its leading space and with a line feed between two of
-- them; a null byte ends it where it is asked for. A `doc` attribute that is no text is an error.
pub get_doc_lem :
    (attrs : List Attribute) (text_signature : Option String) (null_terminated : Bool)
    → get_doc attrs text_signature null_terminated
      ≡ ended null_terminated (lines_after (signature_part text_signature) join (doc_lines attrs))
unfolding get_doc
get_doc_lem attrs text_signature null_terminated =
    ended_text null_terminated (add_docs attrs ("", signature_part text_signature))
    ∙ ap (ended null_terminated) (add_docs-first attrs (signature_part text_signature))
