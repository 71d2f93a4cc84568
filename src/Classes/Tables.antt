-- ===== src/Classes/Tables.antt =====
-- The tables and flags of a type object (src/pyclass.rs), as Python reads them: a table ends at the
-- first entry without a name.
use text.Mathlib.Text.{◌==◌}
use pyo.Base.{
  is_some, ℕ, ◌≡◌, refl, ap, ◌∙◌, Bool, true, false, ◌||◌, Bool-cases, inl, inr, if◌then◌else◌,
  Option, none, some, String, List, [], ◌∷◌, ◌++◌, map, ret, ok, err, sym, then_ok_inv,
  ok-injective,
}
use pyo.Classes.{
  PyMethodDefType, getter, setter, new_def, call_def, class_def, static_def, method_def,
  class_attribute, FfiMethodDef, GetSetDef, get_entry, method_def_init, get_set_def_init,
}
use pyo.Classes.Entries.{AreNamed, property, KeyIsName}
use pyo.Classes.Properties.{py_class_properties_table}
use pyo.Classes.Methods.{
  all_supported, last_new, last_call, all_methods, ffi_method, py_class_method_defs_lem,
}
use pyo.Classes.TypeObject.{
  Class, PyTypeObject, Runtime, closed_or, with_tables, dict_property, has_bit, py_class_flags,
  set_protocols, set_offsets,
}
use pyo.Classes.Build.{with_names, filled, ready, initialize_type_object}
use pyo.Classes.Names.{not_ready, description_doc, qualified_name}

unfoldable pub read_methods : List FfiMethodDef → List FfiMethodDef
read_methods [] = []
read_methods (d ∷ ds) =
    let rest = read_methods ds in elim d.ml_name [ none ↦ [] | some name ↦ d ∷ rest ]

read_named : String → Option String → GetSetDef → Option GetSetDef → Option GetSetDef
read_named n none d rest = none
read_named n (some name) d rest = if name == n then some d else rest

unfoldable pub read_property : String → List GetSetDef → Option GetSetDef
unfolding read_named
read_property n [] = none
read_property n (d ∷ ds) = read_named n d.name d (read_property n ds)

read_methods-closed :
    (defs : List PyMethodDefType)
    → read_methods (all_methods defs ++ method_def_init ∷ []) ≡ all_methods defs
unfolding read_methods all_methods
read_methods-closed [] = refl
read_methods-closed (method_def d ∷ defs) = ap (λ ds. ffi_method d ∷ ds) (read_methods-closed defs)
read_methods-closed (class_def d ∷ defs) = ap (λ ds. ffi_method d ∷ ds) (read_methods-closed defs)
read_methods-closed (static_def d ∷ defs) = ap (λ ds. ffi_method d ∷ ds) (read_methods-closed defs)
read_methods-closed (new_def _ ∷ defs) = read_methods-closed defs
read_methods-closed (call_def _ ∷ defs) = read_methods-closed defs
read_methods-closed (getter _ ∷ defs) = read_methods-closed defs
read_methods-closed (setter _ ∷ defs) = read_methods-closed defs
read_methods-closed (class_attribute _ ∷ defs) = read_methods-closed defs

read_named-some :
    (n key : String) (o : Option String) (d : GetSetDef) (rest : Option GetSetDef)
    → o ≡ some key
    → read_named n o d rest ≡ (if key == n then some d else rest)
unfolding read_named
read_named-some n key o d rest h = rw h refl

abbrev found_or : Option GetSetDef → Option GetSetDef → Option GetSetDef
found_or none o = o
found_or (some d) o = some d

read_property-map :
    (n : String) (props : List (String × GetSetDef)) (rest : List GetSetDef)
    → KeyIsName props
    → read_property n (map (λ p. p.1) props ++ rest)
      ≡ found_or (get_entry n props) (read_property n rest)
unfolding read_property get_entry
read_property-map n [] rest keys = refl
read_property-map n ((key, d) ∷ props) rest (named, keys) =
    read_named-some n key d.name d _ named ∙ elim (Bool-cases (key == n)) [
      | inl same ↦ rw same refl
      | inr other ↦ rw other (read_property-map n props rest keys)
    ]

read_property-last :
    (n : String) (ds : List GetSetDef)
    → read_property n (ds ++ get_set_def_init ∷ []) ≡ read_property n ds
unfolding read_property read_named
read_property-last n [] = refl
read_property-last n (d ∷ ds) = ap (read_named n d.name d) (read_property-last n ds)

read_property-closed :
    (n : String) (ds : List GetSetDef)
    → read_property n (closed_or [] ds get_set_def_init) ≡ read_property n ds
unfolding closed_or
read_property-closed n [] = refl
read_property-closed n (d ∷ ds) = read_property-last n (d ∷ ds)

found_or-none : (o : Option GetSetDef) → found_or o none ≡ o
found_or-none none = refl
found_or-none (some d) = refl

read_property-dict :
    (n : String) (r : Runtime) (has_dict : Bool)
    → ("__dict__" == n) ≡ false
    → read_property n (dict_property r has_dict) ≡ none
unfolding read_property read_named
read_property-dict n r true h = rw h refl
read_property-dict n r false h = refl

read_methods-last :
    (ds : List FfiMethodDef)
    → read_methods (closed_or [] ds method_def_init) ≡ read_methods (ds ++ method_def_init ∷ [])
unfolding closed_or read_methods
read_methods-last [] = refl
read_methods-last (d ∷ ds) = refl

read_methods-all :
    (defs : List PyMethodDefType)
    → read_methods (closed_or [] (all_methods defs) method_def_init) ≡ all_methods defs
read_methods-all defs = read_methods-last (all_methods defs) ∙ read_methods-closed defs

-- The name and doc leave the tables alone.
with_names-tables :
    (c : Class) (module_name : Option String) (t u : PyTypeObject)
    → with_names c module_name t ≡ ok u
    → (u.tp_methods ≡ t.tp_methods) × (u.tp_getset ≡ t.tp_getset)
unfolding with_names
with_names-tables c module_name t u h =
    let (doc, documented, h1) = then_ok_inv (description_doc c.description) _ u h in
    let (name, named, h2) = then_ok_inv (qualified_name module_name c.name) _ u h1 in
    rw (sym (ok-injective _ _ h2)) (refl, refl)

-- What Python finds in the type object of a class.
abbrev IsFilled : Class → PyTypeObject → Type 0
IsFilled c t =
    (read_methods t.tp_methods ≡ all_methods c.py_methods)
    × (t.tp_new ≡ last_new c.py_methods)
    × (t.tp_call ≡ last_call c.py_methods)
    × ((n : String)
        → ("__dict__" == n) ≡ false
        → read_property n t.tp_getset ≡ property n c.py_methods)

filled-IsFilled :
    (r : Runtime) (c : Class) (t : PyTypeObject)
    → AreNamed c.py_methods
    → all_supported c.py_methods ≡ true
    → t.tp_methods ≡ []
    → t.tp_getset ≡ []
    → (t' : PyTypeObject) × (filled r c t ≡ ret t') × IsFilled c t'
unfolding filled py_class_flags with_tables set_protocols set_offsets
filled-IsFilled r c t named supported no_methods no_getset =
    let (props, e, keys, found) = py_class_properties_table c.py_methods named in
    rw ((py_class_method_defs_lem c.py_methods).0 supported, e, no_methods, no_getset)
      (
        _,
        refl,
        (
          read_methods-all c.py_methods,
          refl,
          refl,
          λ n h.
              read_property-closed n _
              ∙ read_property-map n props _ keys
              ∙ rw (read_property-dict n r c.has_dict h) (found_or-none _ ∙ found n),
        ),
      )

-- For a class whose definitions have supported kinds, and whose name, doc and names of properties
-- become C strings, and a type object that has no table of methods or properties yet, `initialize_type_object` does not panic
-- and hands a type object to `PyType_Ready`, whose failure it returns as an error. In this type object
-- Python finds the methods of the class in their order, the last `__new__` and the last `__call__`,
-- and for every name but `__dict__` the property that its getters and setters define, or none.
pub initialize_type_object_lem :
    (r : Runtime) (c : Class) (module_name : Option String) (t u : PyTypeObject)
    → AreNamed c.py_methods
    → all_supported c.py_methods ≡ true
    → with_names c module_name t ≡ ok u
    → t.tp_methods ≡ []
    → t.tp_getset ≡ []
    → (t' : PyTypeObject) × (initialize_type_object r c module_name t
        ≡ ret (if r.type_ready t' then ok t' else err not_ready))
      × (read_methods t'.tp_methods ≡ all_methods c.py_methods)
      × (t'.tp_new ≡ last_new c.py_methods)
      × (t'.tp_call ≡ last_call c.py_methods)
      × ((n : String)
          → ("__dict__" == n) ≡ false
          → read_property n t'.tp_getset ≡ property n c.py_methods)
unfolding initialize_type_object ready
initialize_type_object_lem r c module_name t u named supported names no_methods no_getset =
    let (same_methods, same_getset) = with_names-tables c module_name t u names in
    let (t', e, tables) =
      filled-IsFilled r c u named supported (same_methods ∙ no_methods) (same_getset ∙ no_getset) in
    let (methods, new, call, getset) = tables in
    (t', rw (names, initialize_type_object, e) refl, methods, new, call, getset)

-- The type takes part in garbage collection if it has a `tp_traverse`, a `tp_clear` or the flag of
-- the attribute, and can be a base type if the attribute says so; no other flag differs from the
-- default ones.
pub py_class_flags_lem :
    (flags : ℕ) (t : PyTypeObject)
    → (has_bit (py_class_flags flags t).tp_flags 14
        ≡ (is_some t.gc.tp_traverse || is_some t.gc.tp_clear || has_bit flags 0))
      × (has_bit (py_class_flags flags t).tp_flags 10 ≡ has_bit flags 2)
      × has_bit (py_class_flags flags t).tp_flags 18 ≡ true
unfolding py_class_flags
py_class_flags_lem flags t =
    elim (Bool-cases (is_some t.gc.tp_traverse || is_some t.gc.tp_clear || has_bit flags 0)) [
      | inl gc ↦ elim (Bool-cases (has_bit flags 2)) [
        | inl b ↦ rw (gc, b) (refl, refl, refl)
        | inr b ↦ rw (gc, b) (refl, refl, refl)
      ]
      | inr gc ↦ elim (Bool-cases (has_bit flags 2)) [
        | inl b ↦ rw (gc, b) (refl, refl, refl)
        | inr b ↦ rw (gc, b) (refl, refl, refl)
      ]
    ]
