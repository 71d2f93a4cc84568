-- ===== src/Gil/Updates.antt =====
-- `ReferencePool::update_counts` of src/gil.rs, on its own and with another thread in between.
use pyo.Base.{ℕ, ◌+◌, ◌%◌, ◌<◌, ◌≡◌, refl, ap, [], ◌∷◌, ◌++◌, arith, usize_mod}
use pyo.Refcount.{
  incref_all, count, count-append, refcnt-incref_all, refcnt-decref_all, refcnt-incref_all_small,
  freed-incref_all, freed-decref_all_lt, freed-decref_all_eq,
}
use pyo.Gil.ThreadState.{State}
use pyo.Gil.{apply_increfs, apply_decrefs, update_counts, register_incref, register_decref}

-- The references to `o` in the program: those counted, and those still to be added; less than
-- those still to be taken off only if some were given up twice.
abbrev pub held_refs : {T : Type 0} → ℕ → State T → ℕ
held_refs o s = s.refcnt o + count o s.pointers_to_incref

module _ {T : Type 0} (o : ℕ) (s : State T) where
  -- `update_counts` adds every reference put off, takes off every one given up, in the arithmetic
  -- of 64 bits, and leaves nothing to do.
  pub update_counts_lem :
      (((update_counts s).refcnt o + count o s.pointers_to_decref) % usize_mod
        ≡ held_refs o s % usize_mod)
      × ((update_counts s).pointers_to_incref ≡ [])
      × ((update_counts s).pointers_to_decref ≡ [])
  unfolding update_counts
  update_counts_lem = (
    omega (
      arith,
      refcnt-decref_all o s.pointers_to_decref (incref_all s.pointers_to_incref s.heap),
      refcnt-incref_all o s.pointers_to_incref s.heap,
    ),
    refl,
    refl,
  )

  -- While more references to an object are alive than are to be taken off, `update_counts` does not
  -- deallocate it, since it adds first.
  pub update_counts_keeps :
      held_refs o s < usize_mod
      → count o s.pointers_to_decref < held_refs o s
      → count o (update_counts s).freed ≡ count o s.freed
  unfolding update_counts
  update_counts_keeps small alive = omega (
    arith,
    freed-decref_all_lt o s.pointers_to_decref (incref_all s.pointers_to_incref s.heap)
        (omega (arith, added)) (omega (arith, added)),
    ap (count o) (freed-incref_all s.pointers_to_incref s.heap),
  )
    where
      added : (incref_all s.pointers_to_incref s.heap).refcnt o ≡ held_refs o s
      added = refcnt-incref_all_small o s.pointers_to_incref s.heap small

  -- An object whose references are all given up is deallocated, and once.
  pub update_counts_frees :
      held_refs o s < usize_mod
      → 0 < count o s.pointers_to_decref
      → count o s.pointers_to_decref ≡ held_refs o s
      → count o (update_counts s).freed ≡ count o s.freed + 1
  unfolding update_counts
  update_counts_frees small some_left all_left = omega (
    arith,
    freed-decref_all_eq o s.pointers_to_decref (incref_all s.pointers_to_incref s.heap) some_left
        (omega (arith, added)) (omega (arith, added)),
    ap (count o) (freed-incref_all s.pointers_to_incref s.heap),
  )
    where
      added : (incref_all s.pointers_to_incref s.heap).refcnt o ≡ held_refs o s
      added = refcnt-incref_all_small o s.pointers_to_incref s.heap small

  -- What a thread without the lock does: it shares the two vectors alone.
  abbrev pub elsewhere : (State T → State T) → State T → State T
  elsewhere f s =
      let t = f (record s { gil_count = 0 }) in
      record s {
        pointers_to_incref = t.pointers_to_incref;
        pointers_to_decref = t.pointers_to_decref;
      }

  -- Between the two halves of `update_counts`, another thread clones its reference to `o` and drops
  -- the old one.
  abbrev pub raced_update_counts : State T
  raced_update_counts =
      apply_decrefs (elsewhere (λ t. register_decref o (register_incref o t)) (apply_increfs s))

  -- If another thread clones its reference and drops the old one between the two halves of
  -- `update_counts`, and that reference is the only one alive, the object is deallocated although
  -- the clone is alive, and the clone's increment is still to be made.
  pub update_counts_race :
      held_refs o s < usize_mod
      → held_refs o s ≡ count o s.pointers_to_decref + 1
      → (count o raced_update_counts.freed ≡ count o s.freed + 1)
        × (count o raced_update_counts.pointers_to_incref ≡ 1)
  unfolding apply_increfs apply_decrefs register_incref register_decref
  update_counts_race small one = (
    omega (
      arith,
      freed-decref_all_eq o (s.pointers_to_decref ++ o ∷ [])
          (incref_all s.pointers_to_incref s.heap) (omega (arith, longer))
          (omega (arith, longer, added)) (omega (arith, added)),
      ap (count o) (freed-incref_all s.pointers_to_incref s.heap),
    ),
    ground arith,
  )
    where
      added : (incref_all s.pointers_to_incref s.heap).refcnt o ≡ held_refs o s
      added = refcnt-incref_all_small o s.pointers_to_incref s.heap small

      longer : count o (s.pointers_to_decref ++ o ∷ []) ≡ count o s.pointers_to_decref + 1
      longer = ground (arith, count-append o s.pointers_to_decref (o ∷ []))
