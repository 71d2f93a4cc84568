-- ===== src/Wrappers/Flags.antt =====
-- The borrow flags before and after the wrappers of src/class/macros.rs.
use pyo.Base.{
  ℕ, ◌≤◌, ◌≡◌, refl, ◌∙◌, arith, Bool-cases, inl, inr, ◌==◌, ==_iff, ap, if◌then◌else◌, List,
  Result, ok, err, update, usize_max,
}
use pyo.Cell.{
  PyCell, try_borrow, try_borrow_mut, drop_ref, drop_ref_mut, write, increment, set_borrow_flag,
  has_mutable_borrow, unused,
}
use pyo.Callback.{Ended, finished, unwound}
use pyo.Wrappers.{
  Objects, CallError, set_cell, Call, CallMut, extracted, extracted_mut, finish_ref, finish_mut,
  borrowed, borrowed_mut, call_ref, call_mut, return_self,
}

-- The borrow flags are machine words.
abbrev pub AreWords : {A : Type 0} → Objects A → Type 0
AreWords s = (o : ℕ) → (s.cells o).borrow_flag ≤ usize_max

abbrev pub SameFlags : {A : Type 0} → Objects A → Objects A → Type 0
SameFlags s t = (o : ℕ) → (t.cells o).borrow_flag ≡ (s.cells o).borrow_flag

-- A step that drops every guard that it creates.
abbrev pub IsBalanced : {A X : Type 0} → (Objects A → X × Objects A) → Type 0
IsBalanced f = (s : Objects _) → AreWords s → SameFlags s (f s).1

flag-update :
    {A : Type 0} (m : ℕ → PyCell A) (i : ℕ) (c : PyCell A) (o : ℕ)
    → (update m i c o).borrow_flag ≡ (if i == o then c.borrow_flag else (m o).borrow_flag)
flag-update m i c o = elim (Bool-cases (i == o)) [
  | inl same ↦ rw same refl
  | inr other ↦ rw other refl
]

-- A guard that is taken and dropped around something balanced.
around :
    {A : Type 0} (s t : Objects A) (slf : ℕ) (taken dropped : PyCell A)
    → SameFlags (set_cell slf taken s) t
    → ((t.cells slf).borrow_flag ≡ taken.borrow_flag
        → dropped.borrow_flag ≡ (s.cells slf).borrow_flag)
    → SameFlags s (set_cell slf dropped t)
around s t slf taken dropped same back o = elim (Bool-cases (slf == o)) [
  | inl here ↦
      flag-update t.cells slf dropped o
      ∙ rw here (
          back (same slf ∙ flag-update s.cells slf taken slf ∙ rw ((==_iff slf slf).1 refl) refl)
          ∙ ap (λ i. (s.cells i).borrow_flag) ((==_iff slf o).0 here))
  | inr other ↦
      flag-update t.cells slf dropped o
      ∙ rw other (same o ∙ flag-update s.cells slf taken o ∙ rw other refl)
]

set_cell-AreWords :
    {A : Type 0} (s : Objects A) (slf : ℕ) (c : PyCell A)
    → AreWords s
    → c.borrow_flag ≤ usize_max
    → AreWords (set_cell slf c s)
set_cell-AreWords s slf c words small o = ground (arith, flag-update s.cells slf c o, words o)

module _ {A V R E : Type 0} where
  pub extracted-IsBalanced :
      (r : Result (List V) E) (f : List V → Call A R E)
      → ((vs : List V) → IsBalanced (f vs))
      → IsBalanced (extracted r f)
  unfolding extracted
  extracted-IsBalanced (ok vs) f h s words = h vs s words
  extracted-IsBalanced (err e) f h s words = λ o. refl

  pub call_ref-IsBalanced :
      (slf : ℕ) (r : Result (List V) E) (f : A → List V → Call A R E)
      → ((a : A) (vs : List V) → IsBalanced (f a vs))
      → IsBalanced (call_ref slf r f)
  unfolding call_ref borrowed try_borrow finish_ref drop_ref
  call_ref-IsBalanced slf r f h s words o =
      elim (Bool-cases ((s.cells slf).borrow_flag == has_mutable_borrow)) [
        | inl mutable ↦ rw mutable refl
        | inr free ↦
            let c = set_borrow_flag (increment (s.cells slf).borrow_flag) (s.cells slf) in
            let s' = set_cell slf c s in
            let inner = extracted r (f c.value) s' in
            rw free (
              around s inner.1 slf c (drop_ref (inner.1.cells slf))
                (extracted-IsBalanced r (f c.value) (h c.value) s'
                  (set_cell-AreWords s slf c words (omega arith)))
                (λ e. ground (arith, e, words slf)) o)
      ]

  extracted_mut-IsBalanced :
      (r : Result (List V) E) (a : A) (f : A → List V → CallMut A R E)
      → ((a : A) (vs : List V) → IsBalanced (f a vs))
      → IsBalanced (extracted_mut r a f)
  unfolding extracted_mut
  extracted_mut-IsBalanced (ok vs) a f h s words = h a vs s words
  extracted_mut-IsBalanced (err e) a f h s words = λ o. refl

  pub call_mut-IsBalanced :
      (slf : ℕ) (r : Result (List V) E) (f : A → List V → CallMut A R E)
      → ((a : A) (vs : List V) → IsBalanced (f a vs))
      → IsBalanced (call_mut slf r f)
  unfolding call_mut borrowed_mut try_borrow_mut finish_mut drop_ref_mut write
  call_mut-IsBalanced slf r f h s words o =
      elim (Bool-cases ((s.cells slf).borrow_flag == unused)) [
        | inr taken ↦ rw taken refl
        | inl free ↦
            let c = set_borrow_flag has_mutable_borrow (s.cells slf) in
            let s' = set_cell slf c s in
            let inner = extracted_mut r c.value f s' in
            rw free (
              around s inner.1 slf c (drop_ref_mut (write inner.0.0 (inner.1.cells slf)))
                (extracted_mut-IsBalanced r c.value f h s'
                  (set_cell-AreWords s slf c words (omega arith)))
                (λ e. ground (arith, free)) o)
      ]

same-return_self :
    {A E : Type 0} (slf : ℕ) (r : Ended (Unit {0}) (CallError E) × Objects A)
    → SameFlags r.1 (return_self slf r).1
unfolding return_self
same-return_self slf (finished (ok u), s) o = refl
same-return_self slf (finished (err e), s) o = refl
same-return_self slf (unwound payload, s) o = refl

pub return_self-IsBalanced :
    {A E : Type 0} (slf : ℕ) (f : Call A (Unit {0}) E)
    → IsBalanced f
    → IsBalanced (λ s. return_self slf (f s))
return_self-IsBalanced slf f h s words o = same-return_self slf (f s) o ∙ h s words o
