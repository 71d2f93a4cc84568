-- ===== src/Cell/Guards.antt =====
-- src/pycell.rs: which guards of one cell can be alive together.
use pyo.Base.{
  ℕ, ◌+◌, ◌-◌, ◌≤◌, ◌<◌, ◌≡◌, refl, ◌⊎◌, ◌↔◌, inl, arith, zero, suc, subst, ◌==◌, if◌then◌else◌,
  usize_max, Outcome, ret, panic, ok, err,
}
use pyo.Cell.{
  PyCell, Replacement, set_borrow_flag, increment, has_mutable_borrow, new_cell, try_borrow,
  try_borrow_mut, drop_ref, drop_ref_mut, write, replace, replace_with, already_mutably_borrowed,
}

-- A cell with the guards that are alive: `refs` of type `PyRef`, `muts` of type `PyRefMut`. A guard
-- that is leaked stays alive for ever. `into_super` turns a guard into one of the same kind.
pub record Live {ℓ} (A : Type ℓ) : Type ℓ where
  pub cell : PyCell A
  pub refs : ℕ
  pub muts : ℕ

module _ {ℓ} {A : Type ℓ} where
  pub data Step (s : Live A) : Live A → Type ℓ where
    borrows :
        (c : PyCell A)
        → try_borrow s.cell ≡ ok c
        → Step s (record s { cell = c; refs = s.refs + 1 })
    borrows_mut :
        (c : PyCell A)
        → try_borrow_mut s.cell ≡ ok c
        → Step s (record s { cell = c; muts = s.muts + 1 })
    drops_ref : 0 < s.refs → Step s (record s { cell = drop_ref s.cell; refs = s.refs - 1 })
    drops_mut : 0 < s.muts → Step s (record s { cell = drop_ref_mut s.cell; muts = s.muts - 1 })
    writes : (v : A) → 0 < s.muts → Step s (record s { cell = write v s.cell })
    replaces :
        (v old : A) (c : PyCell A)
        → replace v s.cell ≡ ret (old, c)
        → Step s (record s { cell = c })
    replaces_with : (f : A → Replacement A) → Step s (record s { cell = (replace_with f s.cell).1 })

  pub data Reach (v : A) : Live A → Type ℓ where
    start : Reach v (record { cell = new_cell v; refs = 0; muts = 0 })
    later : {s t : Live A} → Reach v s → Step s t → Reach v t

  -- The flag counts the `PyRef`s, or marks the one `PyRefMut`.
  abbrev pub IsCounted : Live A → Type 0
  IsCounted s =
      ((s.muts ≡ 0) × (s.cell.borrow_flag ≡ s.refs) × (s.refs ≤ usize_max))
      ⊎ ((s.muts ≡ 1) × (s.refs ≡ 0) × (s.cell.borrow_flag ≡ has_mutable_borrow))

  Step-IsCounted : {s t : Live A} → Step s t → IsCounted s → IsCounted t
  unfolding try_borrow try_borrow_mut drop_ref drop_ref_mut write replace replace_with
  Step-IsCounted (borrows c e) h = ground arith
  Step-IsCounted (borrows_mut c e) h = ground arith
  Step-IsCounted (drops_ref l) h = ground arith
  Step-IsCounted (drops_mut l) h = ground arith
  Step-IsCounted (writes v l) h = ground arith
  Step-IsCounted (replaces v old c e) h = ground arith
  Step-IsCounted {s} (replaces_with f) h = ground arith

  Reach-IsCounted : {v : A} {s : Live A} → Reach v s → IsCounted s
  unfolding new_cell
  Reach-IsCounted start = inl (refl, refl, omega arith)
  Reach-IsCounted (later r st) = Step-IsCounted st (Reach-IsCounted r)

  -- In every state that calls and drops can lead to, there is no `PyRefMut` alive, or one and no
  -- `PyRef` beside it. This holds for any number of guards, leaked ones included.
  pub exclusive : {v : A} {s : Live A} → Reach v s → (s.muts ≡ 0) ⊎ ((s.muts ≡ 1) × (s.refs ≡ 0))
  exclusive r = ground (arith, Reach-IsCounted r)

  -- In every reachable state `try_borrow` succeeds exactly when no `PyRefMut` is alive and fewer
  -- than `usize::MAX` `PyRef`s are.
  pub try_borrow_iff :
      {v : A} {s : Live A}
      → Reach v s
      → ((c : PyCell A) × (try_borrow s.cell ≡ ok c)) ↔ ((s.muts ≡ 0) × (s.refs < usize_max))
  unfolding try_borrow
  try_borrow_iff {s = s} r = (
    λ (c, e). ground (arith, Reach-IsCounted r),
    λ h. (set_borrow_flag (increment s.cell.borrow_flag) s.cell, ground (arith, Reach-IsCounted r)),
  )

  -- In every reachable state `try_borrow_mut` succeeds exactly when no guard at all is alive.
  pub try_borrow_mut_iff :
      {v : A} {s : Live A}
      → Reach v s
      → ((c : PyCell A) × (try_borrow_mut s.cell ≡ ok c)) ↔ ((s.muts ≡ 0) × (s.refs ≡ 0))
  unfolding try_borrow_mut
  try_borrow_mut_iff {s = s} r = (
    λ (c, e). ground (arith, Reach-IsCounted r),
    λ h. (set_borrow_flag has_mutable_borrow s.cell, ground (arith, Reach-IsCounted r)),
  )

  Step-value : {s t : Live A} → Step s t → IsCounted s → 0 < s.refs → t.cell.value ≡ s.cell.value
  unfolding try_borrow try_borrow_mut drop_ref drop_ref_mut write replace replace_with
  Step-value (borrows c e) h l = ground arith
  Step-value (borrows_mut c e) h l = ground arith
  Step-value (drops_ref _) h l = refl
  Step-value (drops_mut _) h l = refl
  Step-value (writes v m) h l = ground arith
  Step-value (replaces v old c e) h l = ground arith
  Step-value (replaces_with f) h l = ground arith

  -- While a `PyRef` is alive nothing changes the value: no call, no write through a guard and no
  -- drop, in any reachable state.
  pub value_stable :
      {v : A} {s t : Live A} → Reach v s → Step s t → 0 < s.refs → t.cell.value ≡ s.cell.value
  value_stable r st l = Step-value st (Reach-IsCounted r) l

  -- In every reachable state `replace` swaps the value in and leaves the cell unborrowed if no
  -- guard is alive, and panics otherwise.
  pub replace_lem :
      {v : A} {s : Live A}
      → Reach v s
      → (t : A)
      → replace t s.cell ≡ (
          if (s.muts + s.refs) == 0
          then ret (s.cell.value, new_cell t)
          else panic "Already borrowed")
  unfolding replace new_cell
  replace_lem r t = ground (arith, Reach-IsCounted r)

  abbrev pub replaced : A → Outcome A → Outcome A × PyCell A
  replaced lent (ret t) = (ret lent, new_cell t)
  replaced lent (panic message) = (panic message, new_cell lent)

  -- `replace_with` hands back what the closure left in place of the value and stores its
  -- replacement if no guard is alive. If the closure panics, so does the call, with what the
  -- closure left in the cell and the cell unborrowed. With a guard alive it panics and changes
  -- nothing.
  pub replace_with_lem :
      {v : A} {s : Live A}
      → Reach v s
      → (f : A → Replacement A)
      → replace_with f s.cell ≡ (
          if (s.muts + s.refs) == 0
          then replaced (f s.cell.value).lent (f s.cell.value).replacement
          else (panic "Already borrowed", s.cell))
  unfolding replace_with new_cell
  replace_with_lem r f = ground (arith, Reach-IsCounted r)

  -- Any number of `PyRef`s up to `usize::MAX` can be alive.
  many_refs :
      (v : A) (n : ℕ)
      → n ≤ usize_max
      → Reach v (record { cell = record { value = v; borrow_flag = n }; refs = n; muts = 0 })
  unfolding new_cell try_borrow
  many_refs v zero h = start
  many_refs v (suc n) h = subst (Reach v) (ground arith) (
      later (many_refs v n (omega arith))
        (borrows (record { value = v; borrow_flag = suc n }) (ground arith)))

  -- Every cell can be brought to a state where no `PyRefMut` is alive and `try_borrow` still fails,
  -- saying that one is: `usize::MAX` `PyRef`s take the flag to the mark of a mutable borrow.
  pub refs_exhausted :
      (v : A)
      → (s : Live A) × Reach v s × (s.muts ≡ 0) × (try_borrow s.cell ≡ err already_mutably_borrowed)
  unfolding try_borrow
  refs_exhausted v = (
    record { cell = record { value = v; borrow_flag = usize_max }; refs = usize_max; muts = 0 },
    many_refs v usize_max (omega arith),
    refl,
    refl,
  )
