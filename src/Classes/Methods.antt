-- ===== src/Classes/Methods.antt =====
-- The method table, `tp_new` and `tp_call` of a class (`py_class_method_defs` of src/pyclass.rs).
use mathlib.Core.List.{append-nil, append_assoc}
use pyo.Base.{
  or_else, or_else-none, ℕ, ◌≡◌, refl, ap, ◌∙◌, arith, Bool, true, false, not, ◌&&◌, Bool-cases,
  inl, inr, Option, none, some, String, List, [], ◌∷◌, ◌++◌, Outcome, ret, panic,
}
use pyo.Classes.{
  PyMethodType, c_function, c_function_with_keywords, new_func, init_func, PyMethodDef,
  PyMethodDefType, getter, setter, new_def, call_def, class_def, static_def, method_def,
  class_attribute, FfiMethodDef, MethodDefs, has_nul, c_string, method_address, as_method_def,
  add_method_def, add_method_defs, py_class_method_defs, set_new, set_call, push_method,
}

abbrev with_keywords : PyMethodType → Bool
with_keywords (c_function_with_keywords meth) = true
with_keywords meth = false

-- What the tables can hold: a `tp_call` takes keywords, and a method's name is a C string.
abbrev pub is_supported : PyMethodDefType → Bool
is_supported (call_def def) = with_keywords def.ml_meth
is_supported (method_def def) = not (has_nul def.ml_name)
is_supported (class_def def) = not (has_nul def.ml_name)
is_supported (static_def def) = not (has_nul def.ml_name)
is_supported def = true

abbrev pub all_supported : List PyMethodDefType → Bool
all_supported [] = true
all_supported (def ∷ defs) = is_supported def && all_supported defs

abbrev new_of : PyMethodDefType → Option ℕ
new_of (new_def def) = elim def.ml_meth [ new_func meth ↦ some meth | _ ↦ none ]
new_of def = none

abbrev call_of : PyMethodDefType → Option ℕ
call_of (call_def def) = some (method_address def.ml_meth)
call_of def = none

abbrev pub ffi_method : PyMethodDef → FfiMethodDef
ffi_method def = record {
  ml_name = some def.ml_name;
  ml_meth = some (method_address def.ml_meth);
  ml_flags = def.ml_flags;
  ml_doc = some def.ml_doc;
}

abbrev methods_of : PyMethodDefType → List FfiMethodDef
methods_of (method_def def) = ffi_method def ∷ []
methods_of (class_def def) = ffi_method def ∷ []
methods_of (static_def def) = ffi_method def ∷ []
methods_of def = []

-- The last definition that yields something.
unfoldable pub last_of : (PyMethodDefType → Option ℕ) → List PyMethodDefType → Option ℕ
last_of f [] = none
last_of f (def ∷ defs) = or_else (last_of f defs) (f def)

unfoldable pub all_methods : List PyMethodDefType → List FfiMethodDef
all_methods [] = []
all_methods (def ∷ defs) = methods_of def ++ all_methods defs

unfoldable pub last_new : List PyMethodDefType → Option ℕ
last_new defs = last_of new_of defs

unfoldable pub last_call : List PyMethodDefType → Option ℕ
last_call defs = last_of call_of defs

abbrev Panics {ℓ} : {A : Type ℓ} → Outcome A → Type ℓ
Panics {A = A} o = (message : String) × (o ≡ panic message)

abbrev with_def : PyMethodDefType → MethodDefs → MethodDefs
with_def def m = record {
  new = or_else (new_of def) m.new;
  call = or_else (call_of def) m.call;
  defs = m.defs ++ methods_of def;
}

pushed :
    (def : PyMethodDef) (m : MethodDefs)
    → has_nul def.ml_name ≡ false
    → push_method def m ≡ ret (record m { defs = m.defs ++ (ffi_method def ∷ []) })
unfolding push_method as_method_def c_string
pushed def m h = rw h refl

set_new_lem :
    (meth : PyMethodType) (def : PyMethodDef) (m : MethodDefs)
    → def.ml_meth ≡ meth
    → set_new meth m ≡ with_def (new_def def) m
set_new_lem (new_func a) def m h = rw (h, append-nil) refl
set_new_lem (c_function a) def m h = rw (h, append-nil) refl
set_new_lem (c_function_with_keywords a) def m h = rw (h, append-nil) refl
set_new_lem (init_func a) def m h = rw (h, append-nil) refl

set_call_lem :
    (meth : PyMethodType) (m : MethodDefs)
    → with_keywords meth ≡ true
    → set_call meth m ≡ ret (record m { call = some (method_address meth) })
unfolding set_call
set_call_lem (c_function_with_keywords a) m h = refl
set_call_lem _ m h = absurd (ground (arith, h))

set_call_unsupported :
    (meth : PyMethodType) (m : MethodDefs) → with_keywords meth ≡ false → Panics (set_call meth m)
unfolding set_call
set_call_unsupported (c_function_with_keywords a) m h = absurd (ground (arith, h))
set_call_unsupported (c_function a) m h = (_, refl)
set_call_unsupported (new_func a) m h = (_, refl)
set_call_unsupported (init_func a) m h = (_, refl)

pushed_unsupported :
    (def : PyMethodDef) (m : MethodDefs)
    → not (has_nul def.ml_name) ≡ false
    → Panics (push_method def m)
unfolding push_method as_method_def c_string
pushed_unsupported def m h = elim (Bool-cases (has_nul def.ml_name)) [
  | inl nul ↦ ("Method name must not contain NULL byte", rw nul refl)
  | inr clean ↦ absurd (ground (arith, h, clean))
]

add_method_def_lem :
    (def : PyMethodDefType) (m : MethodDefs)
    → is_supported def ≡ true
    → add_method_def def m ≡ ret (with_def def m)
unfolding add_method_def set_call
add_method_def_lem (new_def def) m h = ap ret (set_new_lem def.ml_meth def m refl)
add_method_def_lem (call_def def) m h = set_call_lem def.ml_meth m h ∙ ap ret (rw append-nil refl)
add_method_def_lem (method_def def) m h = pushed def m (ground (arith, h))
add_method_def_lem (class_def def) m h = pushed def m (ground (arith, h))
add_method_def_lem (static_def def) m h = pushed def m (ground (arith, h))
add_method_def_lem (getter _) m h = rw append-nil refl
add_method_def_lem (setter _) m h = rw append-nil refl
add_method_def_lem (class_attribute _) m h = rw append-nil refl

add_method_def_unsupported :
    (def : PyMethodDefType) (m : MethodDefs)
    → is_supported def ≡ false
    → Panics (add_method_def def m)
unfolding add_method_def set_call push_method as_method_def c_string
add_method_def_unsupported (call_def def) m h = set_call_unsupported def.ml_meth m h
add_method_def_unsupported (method_def def) m h = pushed_unsupported def m h
add_method_def_unsupported (class_def def) m h = pushed_unsupported def m h
add_method_def_unsupported (static_def def) m h = pushed_unsupported def m h
add_method_def_unsupported _ m h = absurd (ground (arith, h))

or_else_assoc {ℓ} :
    {A : Type ℓ} (o p q : Option A) → or_else (or_else o p) q ≡ or_else o (or_else p q)
or_else_assoc none p q = refl
or_else_assoc (some a) p q = refl

add_method_defs_lem :
    (defs : List PyMethodDefType) (m : MethodDefs)
    → all_supported defs ≡ true
    → add_method_defs defs m
      ≡ ret (record {
        new = or_else (last_new defs) m.new;
        call = or_else (last_call defs) m.call;
        defs = m.defs ++ all_methods defs;
      })
unfolding add_method_defs last_new last_call last_of all_methods
add_method_defs_lem [] m h = rw append-nil refl
add_method_defs_lem (def ∷ defs) m h = rw (add_method_def_lem def m (ground (arith, h))) (
    add_method_defs_lem defs (with_def def m) (ground (arith, h))
    ∙ rw (or_else_assoc (last_new defs), or_else_assoc (last_call defs), append_assoc) refl)

add_method_defs_unsupported :
    (defs : List PyMethodDefType) (m : MethodDefs)
    → all_supported defs ≡ false
    → Panics (add_method_defs defs m)
unfolding add_method_defs
add_method_defs_unsupported [] m h = absurd (ground (arith, h))
add_method_defs_unsupported (def ∷ defs) m h = elim (Bool-cases (is_supported def)) [
  | inl first ↦
      rw (add_method_def_lem def m first)
        (add_method_defs_unsupported defs (with_def def m) (ground (arith, h, first)))
  | inr unsupported ↦
      let (message, e) = add_method_def_unsupported def m unsupported in (message, rw e refl)
]

-- The tables of a class hold the last `__new__`, the last `__call__` and, in their order, all
-- methods, if every `__call__` takes keywords and no method's name has a null byte; otherwise
-- collecting them panics.
pub py_class_method_defs_lem :
    (defs : List PyMethodDefType)
    → (all_supported defs ≡ true
        → py_class_method_defs defs
          ≡ ret (record { new = last_new defs; call = last_call defs; defs = all_methods defs }))
      × (all_supported defs ≡ false → Panics (py_class_method_defs defs))
unfolding py_class_method_defs
py_class_method_defs_lem defs = (
  λ h.
      add_method_defs_lem defs _ h
      ∙ rw (or_else-none (last_new defs), or_else-none (last_call defs)) refl,
  λ h. add_method_defs_unsupported defs _ h,
)
