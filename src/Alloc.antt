-- ===== src/Alloc.antt =====
-- Memory for objects of a class: `PyClassAlloc` with and without a free list (src/pyclass.rs,
-- src/freelist.rs), and `PyClassInitializer` (src/pyclass_init.rs), which fills a new object.
pub mod Blocks
pub mod Lives
pub mod Histories
pub mod Chains
mod Examples
use pyo.Base.{
  ℕ, ◌≡◌, Bool, true, false, ◌&&◌, ◌==◌, if◌then◌else◌, Option, none, some, String, List, [], ◌∷◌,
  Outcome, ret, panic, and_then, update,
}
use pyo.FreeList.{FreeList, pop, insert}

-- An object: its type, and its value while it has one.
pub record Object (V : Type 0) : Type 0 where
  pub ty : ℕ
  pub value : Option V

-- Which addresses are allocated blocks, for which type, the objects alive, and the free list.
pub record Memory (V : Type 0) : Type 0 where
  pub allocated : ℕ → Bool
  pub made_for : ℕ → ℕ
  pub objects : ℕ → Option (Object V)
  pub free_list : FreeList ℕ

-- C functions that allocate, 0 for a failure: the native base's `tp_new`, the subtype's `tp_alloc`
-- and `PyType_GenericAlloc`. `extends_native` is the test of the flag and of `IS_NATIVE_TYPE`.
pub record Allocators (V : Type 0) : Type 0 where
  pub extends_native : Bool
  pub base_new : Option (ℕ → Memory V → ℕ)
  pub tp_alloc : Option (ℕ → Memory V → ℕ)
  pub generic_alloc : ℕ → Memory V → ℕ

module _ {V : Type 0} where
  or_generic : Allocators V → Option (ℕ → Memory V → ℕ) → ℕ → Memory V → ℕ
  or_generic a none = a.generic_alloc
  or_generic a (some alloc) = alloc

  -- The call that `default_new` makes.
  unfoldable pub allocator : Allocators V → ℕ → Memory V → ℕ
  unfolding or_generic
  allocator a =
      if a.extends_native
      then elim a.base_new [ some base_new ↦ base_new | none ↦ or_generic a a.tp_alloc ]
      else or_generic a a.tp_alloc

  abbrev pub with_object : ℕ → Option (Object V) → Memory V → Memory V
  with_object p o s = record s { objects = update s.objects p o }

  abbrev pub new_object : ℕ → Option (Object V)
  new_object subtype = some (record { ty = subtype; value = none })

  unfoldable pub placed : ℕ → ℕ → Memory V → ℕ × Memory V
  placed subtype p s = if p == 0 then (0, s) else (
    p,
    record s {
      allocated = update s.allocated p true;
      made_for = update s.made_for p subtype;
      objects = update s.objects p (new_object subtype);
    },
  )

  unfoldable pub default_new : Allocators V → ℕ → Memory V → ℕ × Memory V
  unfolding allocator placed
  default_new a subtype s = placed subtype (allocator a subtype s) s

  popped : Allocators V → ℕ → Memory V → Option ℕ × FreeList ℕ → ℕ × Memory V
  unfolding default_new
  popped a subtype s (some obj, l) =
      (obj, record s { free_list = l; objects = update s.objects obj (new_object subtype) })
  popped a subtype s (none, l) = default_new a subtype (record s { free_list = l })

  -- `PyClassAlloc::new` of a class with a free list; `own` is the class's type object.
  unfoldable pub alloc : Allocators V → (own subtype : ℕ) → Memory V → Outcome (ℕ × Memory V)
  unfolding popped default_new
  alloc a own subtype s =
      if subtype == own
      then and_then (pop s.free_list) (λ r. ret (popped a subtype s r))
      else ret (default_new a subtype s)

  -- `py_drop`, for an object.
  abbrev drop_value : Option (Object V) → Option (Object V)
  drop_value none = none
  drop_value (some o) = some (record o { value = none })

  abbrev has_type : ℕ → Option (Object V) → Bool
  has_type own none = false
  has_type own (some o) = o.ty == own

  -- `tp_free` of the object's type, or `tp_free_fallback`.
  unfoldable pub free : ℕ → Memory V → Memory V
  free p s = record s { allocated = update s.allocated p false; objects = update s.objects p none }

  inserted : ℕ → Memory V → Option ℕ × FreeList ℕ → Memory V
  unfolding free
  inserted p s (none, l) = record s { free_list = l; objects = update s.objects p none }
  inserted p s (some obj, l) = free obj (record s { free_list = l })

  -- `resurrected` is whether `PyObject_CallFinalizerFromDealloc` says so.
  unfoldable pub dealloc : (own : ℕ) → (resurrected : Bool) → ℕ → Memory V → Outcome (Memory V)
  unfolding inserted
  dealloc own resurrected p s =
      let s1 = with_object p (drop_value (s.objects p)) s in
      if has_type own (s.objects p) && resurrected
      then ret s1
      else and_then (insert p s1.free_list) λ r. ret (inserted p s1 r)

  -- `PyClassAlloc::dealloc` as pyclass.rs has it, without a free list.
  unfoldable pub default_dealloc : (own : ℕ) → (resurrected : Bool) → ℕ → Memory V → Memory V
  unfolding free
  default_dealloc own resurrected p s =
      let s1 = with_object p (drop_value (s.objects p)) s in
      if has_type own (s.objects p) && resurrected then s1 else free p s1
