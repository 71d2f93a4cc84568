-- ===== src/Alloc/Chains.antt =====
-- `PyClassInitializer` of src/pyclass_init.rs: the values of a class and its base classes, put into
-- the layouts that a new `PyCell` nests.
use mathlib.Core.List.{append_assoc}
use pyo.Base.{
  ℕ, zero, suc, ◌+◌, ◌≡◌, refl, sym, ap, ◌∙◌, arith, ◌==◌, if◌then◌else◌, Option, none, some, List,
  [], ◌∷◌, ◌++◌, map, length, Outcome, ret, and_then, Result, ok, err,
}
use pyo.Cell.{unused}
use pyo.Alloc.{Memory, Allocators, alloc, with_object}

-- `PyNativeTypeInitializer`, or `init` and `super_init`.
pub data Initializer (V : Type 0) : Type 0 where
  native : Initializer V
  class_init : (init : V) (super_init : Initializer V) → Initializer V

-- `PyCellBase`, or a value on top of its base's layout; memory is uninitialised at first.
pub data Layout (V : Type 0) : Type 0 where
  native_layout : Layout V
  inner : (value : Option V) (ob_base : Layout V) → Layout V

-- The whole cell, with its borrow flag and its two slots.
pub record NewCell (V : Type 0) : Type 0 where
  pub layout : Layout V
  pub borrow_flag : Option ℕ
  pub dict : Option ℕ
  pub weakref : Option ℕ

module _ {V : Type 0} where
  unfoldable pub init_class : Initializer V → Layout V → Layout V
  init_class native l = l
  init_class (class_init init super_init) native_layout = native_layout
  init_class (class_init init super_init) (inner value ob_base) =
      inner (some init) (init_class super_init ob_base)

  -- `From<T>` and `add_subclass`.
  unfoldable pub from_value : V → Initializer V
  from_value v = class_init v native

  unfoldable pub add_subclass : Initializer V → V → Initializer V
  add_subclass base v = class_init v base

  -- `From<(S, B)>`.
  unfoldable pub from_pair : V → V → Initializer V
  unfolding add_subclass from_value
  from_pair sub base = add_subclass (from_value base) sub

  unfoldable pub try_from : {E : Type 0} → Result V E → Result (Initializer V) E
  unfolding from_value
  try_from (ok v) = ok (from_value v)
  try_from (err e) = err e

  -- `internal_new`: a null pointer is an error, which is fetched.
  unfoldable pub internal_new : NewCell V → NewCell V
  internal_new c = record c { borrow_flag = some unused; dict = some 0; weakref = some 0 }

  -- A block of a class whose chain of classes has `depth` members.
  unfoldable pub blank_layout : (depth : ℕ) → Layout V
  blank_layout zero = native_layout
  blank_layout (suc n) = inner none (blank_layout n)

  unfoldable pub blank : ℕ → NewCell V
  unfolding blank_layout
  blank depth = record {
    layout = blank_layout depth;
    borrow_flag = none;
    dict = none;
    weakref = none;
  }

  -- What initialises the object at an address.
  unfoldable pub filled_cell : Initializer V → NewCell V → NewCell V
  unfolding internal_new init_class
  filled_cell i c = record (internal_new c) { layout = init_class i c.layout }

  unfoldable pub create_cell_from_subtype :
      {E : Type 0}
      → Allocators (NewCell V)
      → (own subtype depth : ℕ) → E
      → Initializer V
      → Memory (NewCell V)
      → Outcome (Result ℕ E × Memory (NewCell V))
  unfolding filled_cell blank
  create_cell_from_subtype a own subtype depth fetched i s = and_then (alloc a own subtype s) λ r.
      if r.0 == 0
      then ret (err fetched, r.1)
      else ret (
        ok r.0,
        with_object r.0 (some (record { ty = subtype; value = some (filled_cell i (blank depth)) }))
            r.1,
      )

  unfoldable pub create_cell :
      {E : Type 0}
      → Allocators (NewCell V)
      → (own depth : ℕ) → E
      → Initializer V
      → Memory (NewCell V)
      → Outcome (Result ℕ E × Memory (NewCell V))
  unfolding create_cell_from_subtype
  create_cell a own depth fetched i s = create_cell_from_subtype a own own depth fetched i s

  -- The values of a layout, from the class to its last base, and the initialiser that
  -- `add_subclass` makes of a base's value and its subclasses' in turn.
  unfoldable pub values : Layout V → List (Option V)
  values native_layout = []
  values (inner value ob_base) = value ∷ values ob_base

  unfoldable pub with_subclasses : Initializer V → List V → Initializer V
  with_subclasses i [] = i
  with_subclasses i (v ∷ vs) = with_subclasses (add_subclass i v) vs

  unfoldable pub reversed : List V → List V
  reversed [] = []
  reversed (v ∷ vs) = reversed vs ++ v ∷ []

  chain : Initializer V → List V
  chain native = []
  chain (class_init v i) = v ∷ chain i

  values-init_class :
      (i : Initializer V)
      → values (init_class i (blank_layout (length (chain i)))) ≡ map some (chain i)
  unfolding values init_class blank_layout chain
  values-init_class native = refl
  values-init_class (class_init v i) = ap (λ vs. some v ∷ vs) (values-init_class i)

  chain-with_subclasses :
      (i : Initializer V) (vs : List V) → chain (with_subclasses i vs) ≡ reversed vs ++ chain i
  unfolding with_subclasses reversed add_subclass chain
  chain-with_subclasses i [] = refl
  chain-with_subclasses i (v ∷ vs) =
      chain-with_subclasses (class_init v i) vs
      ∙ sym (append_assoc (reversed vs) (v ∷ []) (chain i))

  length-++ : (xs ys : List V) → length (xs ++ ys) ≡ length xs + length ys
  length-++ [] ys = omega arith
  length-++ (x ∷ xs) ys = ground (arith, length-++ xs ys)

  length-reversed : (xs : List V) → length (reversed xs) ≡ length xs
  unfolding reversed
  length-reversed [] = refl
  length-reversed (x ∷ xs) = ground (arith, length-++ (reversed xs) (x ∷ []), length-reversed xs)

  -- A cell made from a base value and the values of its subclasses has, at each level of the class,
  -- the value of that level, whatever memory held before; and it is not borrowed.
  pub filled_cell-add_subclass :
      (base : V) (subs : List V)
      → let c =
          filled_cell (with_subclasses (from_value base) subs) (blank (length (base ∷ subs))) in
        (values c.layout ≡ map some (reversed (base ∷ subs))) × (c.borrow_flag ≡ some unused)
  unfolding filled_cell blank from_value chain reversed
  filled_cell-add_subclass base subs =
      let i = with_subclasses (from_value base) subs in
      let e = chain-with_subclasses (from_value base) subs in
      let n : suc (length subs) ≡ length (chain i) =
        ground (arith, ap length e, length-++ (reversed subs) (base ∷ []), length-reversed subs) in
      (
        ap (λ k. values (init_class i (blank_layout k))) n ∙ values-init_class i ∙ ap (map some) e,
        refl,
      )
