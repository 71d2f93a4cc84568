-- ===== src/Refcount.antt =====
-- src/ffi/object.rs: `Py_INCREF` and `Py_DECREF` on a heap of objects, named by numbers.
-- `ob_refcnt` is kept as the bit pattern of the 64-bit `Py_ssize_t`. What the destructor of an
-- object does is not in the sources: the heap records that `_Py_Dealloc` is called.
use pyo.Base.{
  ℕ, ◌+◌, ◌%◌, ◌<◌, ◌≡◌, refl, List, [], ◌∷◌, ◌++◌, arith, ◌==◌, if◌then◌else◌, update, usize_mod,
  usize_add, usize_sub,
}

pub record Heap : Type 0 where
  pub refcnt : ℕ → ℕ
  -- The objects that `_Py_Dealloc` was called on, the latest first.
  pub freed : List ℕ

unfoldable pub incref : ℕ → Heap → Heap
incref o h = record h { refcnt = update h.refcnt o (usize_add (h.refcnt o) 1) }

unfoldable pub decref : ℕ → Heap → Heap
decref o h =
    let left = usize_sub (h.refcnt o) 1 in
    record h { refcnt = update h.refcnt o left; freed = if left == 0 then o ∷ h.freed else h.freed }

unfoldable pub incref_all : List ℕ → Heap → Heap
incref_all [] h = h
incref_all (o ∷ os) h = incref_all os (incref o h)

unfoldable pub decref_all : List ℕ → Heap → Heap
decref_all [] h = h
decref_all (o ∷ os) h = decref_all os (decref o h)

abbrev pub one : ℕ → ℕ → ℕ
one o x = if x == o then 1 else 0

-- How often an object stands in a list.
abbrev pub count : ℕ → List ℕ → ℕ
count o [] = 0
count o (x ∷ xs) = (if x == o then 1 else 0) + count o xs

pub count-append : (o : ℕ) (xs ys : List ℕ) → count o (xs ++ ys) ≡ count o xs + count o ys
count-append o [] ys = omega arith
count-append o (x ∷ xs) ys = omega (arith, count-append o xs ys)

pub refcnt-incref_all :
    (o : ℕ) (os : List ℕ) (h : Heap)
    → (incref_all os h).refcnt o % usize_mod ≡ (h.refcnt o + count o os) % usize_mod
unfolding incref_all incref
refcnt-incref_all o [] h = omega arith
refcnt-incref_all o (x ∷ os) h = ground (arith, refcnt-incref_all o os (incref x h))

-- Without overflow.
pub refcnt-incref_all_small :
    (o : ℕ) (os : List ℕ) (h : Heap)
    → h.refcnt o + count o os < usize_mod
    → (incref_all os h).refcnt o ≡ h.refcnt o + count o os
unfolding incref_all incref
refcnt-incref_all_small o [] h b = omega arith
refcnt-incref_all_small o (x ∷ os) h b = ground (arith, refcnt-incref_all_small o os (incref x h))

pub refcnt-decref_all :
    (o : ℕ) (os : List ℕ) (h : Heap)
    → ((decref_all os h).refcnt o + count o os) % usize_mod ≡ h.refcnt o % usize_mod
unfolding decref_all decref
refcnt-decref_all o [] h = omega arith
refcnt-decref_all o (x ∷ os) h = ground (arith, refcnt-decref_all o os (decref x h))

pub freed-incref_all : (os : List ℕ) (h : Heap) → (incref_all os h).freed ≡ h.freed
unfolding incref_all incref
freed-incref_all [] h = refl
freed-incref_all (x ∷ os) h = freed-incref_all os _

-- An object with more references than there are decrements is not deallocated.
pub freed-decref_all_lt :
    (o : ℕ) (os : List ℕ) (h : Heap)
    → count o os < h.refcnt o
    → h.refcnt o < usize_mod
    → count o (decref_all os h).freed ≡ count o h.freed
unfolding decref_all decref
freed-decref_all_lt o [] h l b = refl
freed-decref_all_lt o (x ∷ os) h l b = ground (arith, freed-decref_all_lt o os (decref x h))

freed-decref_all_absent :
    (o : ℕ) (os : List ℕ) (h : Heap)
    → count o os ≡ 0
    → count o (decref_all os h).freed ≡ count o h.freed
unfolding decref_all decref
freed-decref_all_absent o [] h e = refl
freed-decref_all_absent o (x ∷ os) h e = ground (arith, freed-decref_all_absent o os (decref x h))

-- With as many decrements as references, and at least one, it is deallocated once.
pub freed-decref_all_eq :
    (o : ℕ) (os : List ℕ) (h : Heap)
    → 0 < count o os
    → count o os ≡ h.refcnt o
    → h.refcnt o < usize_mod
    → count o (decref_all os h).freed ≡ count o h.freed + 1
unfolding decref_all decref
freed-decref_all_eq o [] h p l b = absurd (omega arith)
freed-decref_all_eq o (x ∷ os) h p l b =
    ground (arith, freed-decref_all_absent o os (decref x h), freed-decref_all_eq o os (decref x h))
