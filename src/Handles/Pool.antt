-- ===== src/Handles/Pool.antt =====
-- The pool and the pending counts of src/gil.rs keep the laws of counting.
use pyo.Base.{ℕ, ◌+◌, ◌-◌, ◌%◌, ◌≡◌, refl, arith, List, [], ◌∷◌, some, usize_mod}
use pyo.Refcount.{
  incref, incref_all, decref, count, count-append, refcnt-incref_all, refcnt-decref_all,
}
use pyo.Gil.{
  register_incref, register_decref, register_owned, update_counts, apply_increfs, apply_decrefs,
}
use pyo.Gil.ThreadState.{State}
use pyo.Handles.{Counting, SameWord, IsCounted}
use pyo.Handles.Histories.{Held, Operation, perform_all, owed-perform_all}

module _ {T : Type 0} where
  abbrev pub counting : Counting (State T)
  counting = record {
    incref = λ o s. record s { heap = incref o s.heap };
    decref = λ o s. record s { heap = decref o s.heap };
    register_incref = register_incref;
    register_decref = register_decref;
    register_owned = register_owned;
  }

  -- The reference count, with what is put off.
  abbrev pub owed : ℕ → State T → ℕ
  owed o s =
      s.heap.refcnt o
      + count o s.pointers_to_incref
      + (usize_mod - count o s.pointers_to_decref % usize_mod)

  pub counting-IsCounted : IsCounted counting owed
  unfolding register_incref register_decref register_owned incref decref
  counting-IsCounted = record {
    owed-incref = λ o x w. ground arith;
    owed-decref = λ o x w. ground arith;
    owed-register_incref = λ o x w. ground (arith, count-append o w.pointers_to_incref (x ∷ []));
    owed-register_decref = λ o x w. ground (arith, count-append o w.pointers_to_decref (x ∷ []));
    owed-register_owned = λ o x w. refl;
  }

  refcnt-update_counts :
      (o : ℕ) (s : State T) → SameWord ((update_counts s).heap.refcnt o) (owed o s)
  unfolding update_counts apply_increfs apply_decrefs
  refcnt-update_counts o s = omega (
    arith,
    refcnt-incref_all o s.pointers_to_incref s.heap,
    refcnt-decref_all o s.pointers_to_decref (incref_all s.pointers_to_incref s.heap),
  )

  -- With any history of handles, with the lock or without it: once the pending counts are applied,
  -- the reference count of an object is what it would have been before, and one more for each handle
  -- or pointer that was added, and one less for each that went.
  pub perform_all-refcnt :
      (ops : List Operation) (s s' : Held (State T)) (o : ℕ)
      → perform_all counting ops s ≡ some s'
      → SameWord
          ((update_counts s'.world).heap.refcnt o + count o s.handles + count o s.pointers)
          ((update_counts s.world).heap.refcnt o + count o s'.handles + count o s'.pointers)
  perform_all-refcnt ops s s' o h = omega (
    arith,
    owed-perform_all counting owed counting-IsCounted o ops s s' h,
    refcnt-update_counts o s.world,
    refcnt-update_counts o s'.world,
  )
