-- ===== src/Classes/Entries.antt =====
-- What the definitions of a class say of its properties, and the entries of the table that
-- `py_class_properties` of src/pyclass.rs fills.
use text.Mathlib.Text.{◌==◌}
use text.Mathlib.TextEquality.{eq_iff}
use pyo.Base.{
  or_else, or_else-none, ℕ, ◌≡◌, refl, sym, ap, ◌∙◌, arith, Bool, false, ◌||◌, Bool-cases, inl, inr,
  if◌then◌else◌, Option, none, some, String, List, [], ◌∷◌,
}
use pyo.Classes.{PyMethodDefType, getter, setter, GetSetDef, has_nul, get_entry, set_entry, doc_or}

-- Names without a null byte, as those that a C string can hold.
abbrev pub IsNamed : PyMethodDefType → Type 0
IsNamed (getter g) = has_nul g.name ≡ false
IsNamed (setter s) = has_nul s.name ≡ false
IsNamed def = Unit

abbrev pub AreNamed : List PyMethodDefType → Type 0
AreNamed [] = Unit
AreNamed (def ∷ defs) = IsNamed def × AreNamed defs

-- What the definitions say of the property with a name, each field on its own: it has the last
-- getter, the last setter and the first text.
unfoldable pub is_property : String → List PyMethodDefType → Bool
is_property n [] = false
is_property n (getter g ∷ defs) = (g.name == n) || is_property n defs
is_property n (setter s ∷ defs) = (s.name == n) || is_property n defs
is_property n (_ ∷ defs) = is_property n defs

unfoldable pub last_getter : String → List PyMethodDefType → Option ℕ
last_getter n [] = none
last_getter n (getter g ∷ defs) =
    or_else (last_getter n defs) (if g.name == n then some g.meth else none)
last_getter n (_ ∷ defs) = last_getter n defs

unfoldable pub last_setter : String → List PyMethodDefType → Option ℕ
last_setter n [] = none
last_setter n (setter s ∷ defs) =
    or_else (last_setter n defs) (if s.name == n then some s.meth else none)
last_setter n (_ ∷ defs) = last_setter n defs

unfoldable pub first_doc : String → List PyMethodDefType → Option String
first_doc n [] = none
first_doc n (getter g ∷ defs) =
    or_else (if g.name == n then some g.doc else none) (first_doc n defs)
first_doc n (setter s ∷ defs) =
    or_else (if s.name == n then some s.doc else none) (first_doc n defs)
first_doc n (_ ∷ defs) = first_doc n defs

unfoldable pub property : String → List PyMethodDefType → Option GetSetDef
property n defs =
    if is_property n defs
    then some (record {
      name = some n;
      get = last_getter n defs;
      set = last_setter n defs;
      doc = first_doc n defs;
    })
    else none

-- An entry with what further definitions add to it.
unfoldable pub extended : String → List PyMethodDefType → Option GetSetDef → Option GetSetDef
extended n defs none = property n defs
extended n defs (some d) = some (record {
  name = some n;
  get = or_else (last_getter n defs) d.get;
  set = or_else (last_setter n defs) d.set;
  doc = or_else d.doc (first_doc n defs);
})

-- Every entry has its key for its name.
abbrev pub KeyIsName : List (String × GetSetDef) → Type 0
KeyIsName [] = Unit
KeyIsName ((key, d) ∷ t) = (d.name ≡ some key) × KeyIsName t

pub get_entry-set_entry :
    (n k : String) (d : GetSetDef) (t : List (String × GetSetDef))
    → get_entry n (set_entry k d t) ≡ (if k == n then some d else get_entry n t)
unfolding get_entry set_entry
get_entry-set_entry n k d [] = refl
get_entry-set_entry n k d ((key, old) ∷ t) =
    ground (arith, eq_iff key k, eq_iff key n, eq_iff k n, get_entry-set_entry n k d t)

pub extended-none :
    (n : String) (o : Option GetSetDef)
    → ((d : GetSetDef) → o ≡ some d → d.name ≡ some n)
    → o ≡ extended n [] o
unfolding extended property is_property last_getter last_setter first_doc
extended-none n none key = refl
extended-none n (some d) key = rw (sym (key d refl), or_else-none) refl

abbrev pub name_of : Option GetSetDef → Option String
name_of none = none
name_of (some d) = d.name

pub get_entry-KeyIsName :
    (n : String) (d : GetSetDef) (t : List (String × GetSetDef))
    → KeyIsName t
    → get_entry n t ≡ some d
    → d.name ≡ some n
unfolding get_entry
get_entry-KeyIsName n d [] keys h = absurd (ground (arith, h))
get_entry-KeyIsName n d ((key, old) ∷ t) (named, keys) h = elim (Bool-cases (key == n)) [
  | inl same ↦ sym (ap name_of (rw same at h)) ∙ named ∙ ap some ((eq_iff key n).0 same)
  | inr other ↦ get_entry-KeyIsName n d t keys (rw other at h)
]

pub KeyIsName-set_entry :
    (k : String) (d : GetSetDef) (t : List (String × GetSetDef))
    → KeyIsName t
    → d.name ≡ some k
    → KeyIsName (set_entry k d t)
unfolding set_entry
KeyIsName-set_entry k d [] keys named = (named, tt)
KeyIsName-set_entry k d ((key, old) ∷ t) (old_named, keys) named = elim (Bool-cases (key == k)) [
  | inl same ↦ rw same (named ∙ ap some (sym ((eq_iff key k).0 same)), keys)
  | inr other ↦ rw other (old_named, KeyIsName-set_entry k d t keys named)
]

pub or_else-some {ℓ} :
    {A : Type ℓ} (o p : Option A) (a : A) → or_else (or_else o (some a)) p ≡ or_else o (some a)
or_else-some none p a = refl
or_else-some (some b) p a = refl

pub or_else-doc_or : (o : Option String) (doc : String) → or_else o (some doc) ≡ some (doc_or o doc)
or_else-doc_or none doc = refl
or_else-doc_or (some old) doc = refl
