-- ===== src/Alloc/Blocks.antt =====
-- The blocks in the free list of a class (src/freelist.rs): allocated, without an object, distinct.
use pyo.Base.{
  true-false, ==_iff, ℕ, ◌≡◌, sym, ap, ◌∙◌, arith, Bool, true, false, Bool-cases, inl, inr, ◌==◌,
  Option, none, some, List, [], ◌∷◌, update,
}
use pyo.Alloc.{Object}

abbrev pub IsAbsent : ℕ → List ℕ → Type 0
IsAbsent p [] = Unit
IsAbsent p (x ∷ xs) = ((p == x) ≡ false) × IsAbsent p xs

module _ {V : Type 0} where
  abbrev pub AllIdle : (ℕ → Bool) → (ℕ → Option (Object V)) → List ℕ → Type 0
  AllIdle allocated objects [] = Unit
  AllIdle allocated objects (x ∷ xs) =
      ((allocated x ≡ true) × (objects x ≡ none)) × IsAbsent x xs × AllIdle allocated objects xs

  -- What is written at an address outside the list changes nothing for it.
  pub AllIdle-update :
      (allocated : ℕ → Bool) (objects : ℕ → Option (Object V)) (p : ℕ) (b : Bool)
      (o : Option (Object V)) (xs : List ℕ)
      → IsAbsent p xs
      → AllIdle allocated objects xs
      → AllIdle (update allocated p b) (update objects p o) xs
  AllIdle-update allocated objects p b o [] absent idle = tt
  AllIdle-update allocated objects p b o (x ∷ xs) (other, absent) ((is, empty), alone, idle) =
      ((rw other is, rw other empty), alone, AllIdle-update allocated objects p b o xs absent idle)

  pub AllIdle-object :
      (allocated : ℕ → Bool) (objects : ℕ → Option (Object V)) (p : ℕ) (o : Option (Object V))
      (xs : List ℕ)
      → IsAbsent p xs
      → AllIdle allocated objects xs
      → AllIdle allocated (update objects p o) xs
  AllIdle-object allocated objects p o [] absent idle = tt
  AllIdle-object allocated objects p o (x ∷ xs) (other, absent) ((is, empty), alone, idle) =
      ((is, rw other empty), alone, AllIdle-object allocated objects p o xs absent idle)

  -- A block that is not allocated, or that an object lives in, is not in the list.
  pub IsAbsent-unallocated :
      (allocated : ℕ → Bool) (objects : ℕ → Option (Object V)) (p : ℕ) (xs : List ℕ)
      → AllIdle allocated objects xs
      → allocated p ≡ false
      → IsAbsent p xs
  IsAbsent-unallocated allocated objects p [] idle h = tt
  IsAbsent-unallocated allocated objects p (x ∷ xs) ((is, empty), alone, idle) h =
      elim (Bool-cases (p == x)) [
        | inl same ↦ absurd (true-false (sym is ∙ ap allocated (sym ((==_iff p x).0 same)) ∙ h))
        | inr other ↦ (other, IsAbsent-unallocated allocated objects p xs idle h)
      ]

  pub IsAbsent-object :
      (allocated : ℕ → Bool) (objects : ℕ → Option (Object V)) (p : ℕ) (o : Object V) (xs : List ℕ)
      → AllIdle allocated objects xs
      → objects p ≡ some o
      → IsAbsent p xs
  IsAbsent-object allocated objects p o [] idle h = tt
  IsAbsent-object allocated objects p o (x ∷ xs) ((is, empty), alone, idle) h =
      elim (Bool-cases (p == x)) [
        | inl same ↦ absurd (ground (arith, sym empty ∙ ap objects (sym ((==_iff p x).0 same)) ∙ h))
        | inr other ↦ (other, IsAbsent-object allocated objects p o xs idle h)
      ]
