-- ===== src/Classes/Properties.antt =====
-- The property table of a class (`py_class_properties` of src/pyclass.rs).
use text.Mathlib.Text.{◌==◌}
use text.Mathlib.TextEquality.{eq_iff}
use pyo.Base.{
  or_else-none, ◌≡◌, refl, sym, ap, ◌∙◌, arith, true, false, Bool-cases, Option-cases, inl, inr,
  if◌then◌else◌, Option, none, some, String, List, [], ◌∷◌, ret,
}
use pyo.Classes.{
  PropertyDef, PyMethodDefType, getter, setter, new_def, call_def, class_def, static_def,
  method_def, class_attribute, GetSetDef, get_set_def_init, c_string, getter_copy_to,
  setter_copy_to, get_entry, set_entry, add_property, add_properties, py_class_properties, doc_or,
  entry_or_init,
}
use pyo.Classes.Entries.{
  IsNamed, AreNamed, is_property, last_getter, last_setter, first_doc, property, extended,
  KeyIsName, get_entry-set_entry, extended-none, get_entry-KeyIsName, KeyIsName-set_entry,
  or_else-some, or_else-doc_or,
}

-- The entry that a getter or setter leaves.
abbrev getter_entry : PropertyDef → GetSetDef → GetSetDef
getter_entry p d = record {
  name = some p.name;
  get = some p.meth;
  set = d.set;
  doc = some (doc_or d.doc p.doc);
}

abbrev setter_entry : PropertyDef → GetSetDef → GetSetDef
setter_entry p d = record {
  name = some p.name;
  get = d.get;
  set = some p.meth;
  doc = some (doc_or d.doc p.doc);
}

getter-other :
    (n : String) (defs : List PyMethodDefType) (p : PropertyDef) (o : Option GetSetDef)
    → (p.name == n) ≡ false
    → extended n defs o ≡ extended n (getter p ∷ defs) o
unfolding extended property is_property last_getter last_setter first_doc
getter-other n defs p none h = rw (h, or_else-none) refl
getter-other n defs p (some d) h = rw (h, or_else-none) refl

getter-same :
    (n : String) (defs : List PyMethodDefType) (p : PropertyDef) (o : Option GetSetDef)
    → (p.name == n) ≡ true
    → extended n defs (some (getter_entry p (entry_or_init o))) ≡ extended n (getter p ∷ defs) o
unfolding extended property is_property last_getter last_setter first_doc
getter-same n defs p none h = rw (h, or_else-none) refl
getter-same n defs p (some d) h = rw (h, or_else-some, or_else-doc_or) refl

getter-extends :
    (n : String) (defs : List PyMethodDefType) (p : PropertyDef) (t : List (String × GetSetDef))
    (o : Option GetSetDef)
    → get_entry p.name t ≡ o
    → extended n defs
        (if p.name == n then some (getter_entry p (entry_or_init o)) else get_entry n t)
      ≡ extended n (getter p ∷ defs) (get_entry n t)
getter-extends n defs p t o found = elim (Bool-cases (p.name == n)) [
  | inl same ↦
      rw (same, sym (ap (λ m. get_entry m t) ((eq_iff p.name n).0 same)) ∙ found)
        (getter-same n defs p o same)
  | inr other ↦ rw other (getter-other n defs p (get_entry n t) other)
]

setter-other :
    (n : String) (defs : List PyMethodDefType) (p : PropertyDef) (o : Option GetSetDef)
    → (p.name == n) ≡ false
    → extended n defs o ≡ extended n (setter p ∷ defs) o
unfolding extended property is_property last_getter last_setter first_doc
setter-other n defs p none h = rw (h, or_else-none) refl
setter-other n defs p (some d) h = rw (h, or_else-none) refl

setter-same :
    (n : String) (defs : List PyMethodDefType) (p : PropertyDef) (o : Option GetSetDef)
    → (p.name == n) ≡ true
    → extended n defs (some (setter_entry p (entry_or_init o))) ≡ extended n (setter p ∷ defs) o
unfolding extended property is_property last_getter last_setter first_doc
setter-same n defs p none h = rw (h, or_else-none) refl
setter-same n defs p (some d) h = rw (h, or_else-some, or_else-doc_or) refl

setter-extends :
    (n : String) (defs : List PyMethodDefType) (p : PropertyDef) (t : List (String × GetSetDef))
    (o : Option GetSetDef)
    → get_entry p.name t ≡ o
    → extended n defs
        (if p.name == n then some (setter_entry p (entry_or_init o)) else get_entry n t)
      ≡ extended n (setter p ∷ defs) (get_entry n t)
setter-extends n defs p t o found = elim (Bool-cases (p.name == n)) [
  | inl same ↦
      rw (same, sym (ap (λ m. get_entry m t) ((eq_iff p.name n).0 same)) ∙ found)
        (setter-same n defs p o same)
  | inr other ↦ rw other (setter-other n defs p (get_entry n t) other)
]

-- One getter or setter.
added :
    (def : PyMethodDefType) (t : List (String × GetSetDef))
    → IsNamed def
    → KeyIsName t
    → (t' : List (String × GetSetDef)) × (add_property def t ≡ ret t')
      × KeyIsName t'
      × ((n : String) (defs : List PyMethodDefType)
          → extended n defs (get_entry n t') ≡ extended n (def ∷ defs) (get_entry n t))
unfolding add_property getter_copy_to setter_copy_to extended property is_property last_getter
    last_setter first_doc c_string
added (getter p) t named keys = elim (Option-cases (get_entry p.name t)) [
  | inl absent ↦
      rw (absent, named)
        (
          set_entry p.name (getter_entry p get_set_def_init) t,
          refl,
          KeyIsName-set_entry _ _ t keys refl,
          λ n defs. rw get_entry-set_entry (getter-extends n defs p t none absent),
        )
  | inr (d, present) ↦
      rw (present, get_entry-KeyIsName p.name d t keys present)
        (
          set_entry p.name (getter_entry p d) t,
          refl,
          KeyIsName-set_entry _ _ t keys refl,
          λ n defs. rw get_entry-set_entry (getter-extends n defs p t (some d) present),
        )
]
added (setter p) t named keys = elim (Option-cases (get_entry p.name t)) [
  | inl absent ↦
      rw (absent, named)
        (
          set_entry p.name (setter_entry p get_set_def_init) t,
          refl,
          KeyIsName-set_entry _ _ t keys refl,
          λ n defs. rw get_entry-set_entry (setter-extends n defs p t none absent),
        )
  | inr (d, present) ↦
      rw (present, get_entry-KeyIsName p.name d t keys present)
        (
          set_entry p.name (setter_entry p d) t,
          refl,
          KeyIsName-set_entry _ _ t keys refl,
          λ n defs. rw get_entry-set_entry (setter-extends n defs p t (some d) present),
        )
]
added (new_def _) t named keys = (t, refl, keys, λ n defs. ground arith)
added (call_def _) t named keys = (t, refl, keys, λ n defs. ground arith)
added (class_def _) t named keys = (t, refl, keys, λ n defs. ground arith)
added (static_def _) t named keys = (t, refl, keys, λ n defs. ground arith)
added (method_def _) t named keys = (t, refl, keys, λ n defs. ground arith)
added (class_attribute _) t named keys = (t, refl, keys, λ n defs. ground arith)

added_all :
    (defs : List PyMethodDefType) (t : List (String × GetSetDef))
    → AreNamed defs
    → KeyIsName t
    → (t' : List (String × GetSetDef)) × (add_properties defs t ≡ ret t')
      × KeyIsName t'
      × ((n : String) → get_entry n t' ≡ extended n defs (get_entry n t))
unfolding add_properties
added_all [] t named keys =
    (t, refl, keys, λ n. extended-none n (get_entry n t) (λ d h. get_entry-KeyIsName n d t keys h))
added_all (def ∷ defs) t (named, names) keys =
    let (t1, e1, keys1, h1) = added def t named keys in
    let (t2, e2, keys2, h2) = added_all defs t1 names keys1 in
    (t2, rw e1 e2, keys2, λ n. h2 n ∙ h1 n defs)

pub py_class_properties_table :
    (defs : List PyMethodDefType)
    → AreNamed defs
    → (t : List (String × GetSetDef)) × (py_class_properties defs ≡ ret t)
      × KeyIsName t
      × ((n : String) → get_entry n t ≡ property n defs)
unfolding py_class_properties get_entry extended
py_class_properties_table defs named = added_all defs [] named tt

-- When no name has a null byte, the table of properties has one entry for each name that a getter
-- or a setter has: with the last getter and the last setter of the name, where there is one, and the
-- text of the first definition of it.
pub py_class_properties_lem :
    (defs : List PyMethodDefType)
    → AreNamed defs
    → (t : List (String × GetSetDef)) × (py_class_properties defs ≡ ret t)
      × ((n : String) → get_entry n t ≡ property n defs)
py_class_properties_lem defs named =
    let (t, e, keys, h) = py_class_properties_table defs named in (t, e, h)
