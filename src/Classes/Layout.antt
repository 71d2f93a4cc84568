-- ===== src/Classes/Layout.antt =====
-- The fields of a `PyCell` in memory (`PyCell::py_drop` of src/pycell.rs and src/pyclass_slots.rs),
-- and the offsets that the type object names.
use pyo.Base.{
  not_null, ℕ, ◌+◌, ◌≡◌, ◌≢◌, refl, sym, ap, ◌∙◌, arith, Bool, true, false, not, ◌&&◌, ◌==◌,
  if◌then◌else◌, List, [], ◌∷◌, ◌++◌,
}
use pyo.Classes.TypeObject.{Class, PyTypeObject, slot_size, size_of_cell, set_offsets}

-- Where `dict` and `weakref` lie.
abbrev pub dict_field : Class → ℕ
dict_field c = c.inner_size

abbrev pub weakref_field : Class → ℕ
weakref_field c = c.inner_size + slot_size c.has_dict

pub data DropAction : Type 0 where
  drop_value drop_base : DropAction
  clear_dict : (dict : ℕ) → DropAction
  clear_weakrefs : DropAction

-- What is done for a slot, if the class has it, with the pointer there.
unfoldable pub dict_action : Bool → ℕ → List DropAction
dict_action has_dict dict = if has_dict && not (dict == 0) then clear_dict dict ∷ [] else []

unfoldable pub weakref_action : Bool → ℕ → List DropAction
weakref_action has_weakref list = if has_weakref && not (list == 0) then clear_weakrefs ∷ [] else []

-- Memory holds a pointer at each offset of the object.
unfoldable pub py_drop : Class → (ℕ → ℕ) → List DropAction
unfolding dict_action weakref_action
py_drop c memory =
    drop_value ∷ dict_action c.has_dict (memory (dict_field c))
    ++ (weakref_action c.has_weakref (memory (weakref_field c)) ++ drop_base ∷ [])

-- The class's type object, and where Python keeps an object's `__dict__` and its weak references.
abbrev pub type_of : Class → PyTypeObject → PyTypeObject
type_of c t = set_offsets c (record t { tp_basicsize = size_of_cell c })

-- In a class with only one of the two slots, the type object names the place of the field.
pub set_offsets_lem :
    (c : Class) (t : PyTypeObject)
    → c.has_dict && c.has_weakref ≡ false
    → (c.has_dict ≡ true → (type_of c t).tp_dictoffset ≡ dict_field c)
      × (c.has_weakref ≡ true → (type_of c t).tp_weaklistoffset ≡ weakref_field c)
unfolding set_offsets size_of_cell
set_offsets_lem c t one = (λ h. ground (arith, h, one), λ h. ground (arith, h, one))

-- In a class with both, it names the place of the other field for each.
pub set_offsets_exchanged :
    (c : Class) (t : PyTypeObject)
    → c.has_dict ≡ true
    → c.has_weakref ≡ true
    → ((type_of c t).tp_dictoffset ≡ weakref_field c)
      × ((type_of c t).tp_weaklistoffset ≡ dict_field c)
unfolding set_offsets size_of_cell
set_offsets_exchanged c t d w = (ground (arith, d, w), ground (arith, d, w))

-- What dropping an object should do with the places that Python uses.
unfoldable pub drop_at_offsets : Class → PyTypeObject → (ℕ → ℕ) → List DropAction
drop_at_offsets c t memory =
    drop_value ∷ dict_action c.has_dict (memory t.tp_dictoffset)
    ++ (weakref_action c.has_weakref (memory t.tp_weaklistoffset) ++ drop_base ∷ [])

dict_action-same : (b : Bool) (p q : ℕ) → (b ≡ true → p ≡ q) → dict_action b p ≡ dict_action b q
unfolding dict_action
dict_action-same true p q h = rw (h refl) refl
dict_action-same false p q h = refl

weakref_action-same :
    (b : Bool) (p q : ℕ) → (b ≡ true → p ≡ q) → weakref_action b p ≡ weakref_action b q
unfolding weakref_action
weakref_action-same true p q h = rw (h refl) refl
weakref_action-same false p q h = refl

actions_null :
    (has_dict has_weakref : Bool) (dict list : ℕ)
    → has_dict ≡ true
    → dict ≢ 0
    → list ≡ 0
    → dict_action has_dict dict ++ (weakref_action has_weakref list ++ drop_base ∷ [])
      ≡ clear_dict dict ∷ drop_base ∷ []
unfolding dict_action weakref_action
actions_null has_dict true dict list d some_dict null = rw (d, not_null dict some_dict, null) refl
actions_null has_dict false dict list d some_dict null = rw (d, not_null dict some_dict) refl

-- An object of a class with at most one of the two slots is dropped with its `__dict__` cleared and
-- its weak references cleared, where Python has put any.
pub py_drop_lem :
    (c : Class) (t : PyTypeObject) (memory : ℕ → ℕ)
    → c.has_dict && c.has_weakref ≡ false
    → py_drop c memory ≡ drop_at_offsets c (type_of c t) memory
unfolding py_drop drop_at_offsets
py_drop_lem c t memory one =
    let (dict_at, weakrefs_at) = set_offsets_lem c t one in
    rw
      (
        dict_action-same c.has_dict (memory (dict_field c)) (memory (type_of c t).tp_dictoffset)
            (λ h. ap memory (sym (dict_at h))),
        weakref_action-same c.has_weakref (memory (weakref_field c))
            (memory (type_of c t).tp_weaklistoffset) (λ h. ap memory (sym (weakrefs_at h))),
      )
      refl

-- An object of a class with both slots that is weakly referenced, and has no `__dict__` yet, is
-- dropped without clearing its weak references.
pub py_drop-keeps_weakrefs :
    (c : Class) (t : PyTypeObject) (memory : ℕ → ℕ)
    → c.has_dict ≡ true
    → c.has_weakref ≡ true
    → memory (type_of c t).tp_weaklistoffset ≢ 0
    → memory (type_of c t).tp_dictoffset ≡ 0
    → py_drop c memory
      ≡ drop_value ∷ clear_dict (memory (type_of c t).tp_weaklistoffset) ∷ drop_base ∷ []
unfolding py_drop
py_drop-keeps_weakrefs c t memory d w referenced no_dict =
    let (dict_at, weakrefs_at) = set_offsets_exchanged c t d w in
    ap (λ rest. drop_value ∷ rest)
      (actions_null c.has_dict c.has_weakref _ _ d (λ z. referenced (ap memory weakrefs_at ∙ z))
          (sym (ap memory dict_at) ∙ no_dict)
        ∙ ap (λ p. clear_dict p ∷ drop_base ∷ []) (sym (ap memory weakrefs_at)))
