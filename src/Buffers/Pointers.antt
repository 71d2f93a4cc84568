-- ===== src/Buffers/Pointers.antt =====
-- `PyBuffer::get_ptr` of src/buffer.rs, which hands the address of its indices to CPython.
use pyo.Base.{
  ℕ, zero, suc, ◌≡◌, ◌<◌, refl, ap, arith, Bool, true, false, not, ◌&&◌, Bool-cases, inl, inr, ltb,
  leb, if◌then◌else◌, none, some, String, List, [], ◌∷◌, length, Outcome, ret, panic,
}
use pyo.Buffers.{PyBuffer}

abbrev pub shape_of : PyBuffer → List ℕ
shape_of b = elim b.shape [ none ↦ [] | some shape ↦ shape ]

-- `assert!(indices[i] < shape[i])` for each index, on a shape that is at least as long.
unfoldable pub in_range : List ℕ → List ℕ → Bool
in_range [] shape = true
in_range (i ∷ is) [] = false
in_range (i ∷ is) (n ∷ ns) = ltb i n && in_range is ns

-- Memory from the first index on: the indices, and what lies beyond them.
unfoldable pub reads : List ℕ → (ℕ → ℕ) → ℕ → ℕ
reads [] beyond k = beyond k
reads (i ∷ is) beyond zero = i
reads (i ∷ is) beyond (suc k) = reads is beyond k

-- `PyBuffer_GetPointer` takes an array of ndim indices.
pub record Pointer : Type 0 where
  pub get_pointer : PyBuffer → (ℕ → ℕ) → ℕ
  pub only_indices :
      (b : PyBuffer) (f g : ℕ → ℕ)
      → ((k : ℕ) → k < length (shape_of b) → f k ≡ g k)
      → get_pointer b f ≡ get_pointer b g

unfoldable pub get_ptr : Pointer → PyBuffer → List ℕ → (ℕ → ℕ) → Outcome ℕ
get_ptr c b indices beyond =
    if not (leb (length indices) (length (shape_of b)))
    then panic "range end index out of range"
    else if not (in_range indices (shape_of b))
    then panic "assertion failed"
    else ret (c.get_pointer b (reads indices beyond))

reads_within :
    (indices : List ℕ) (f g : ℕ → ℕ) (k : ℕ)
    → k < length indices
    → reads indices f k ≡ reads indices g k
unfolding reads
reads_within [] f g k h = absurd (omega arith)
reads_within (i ∷ is) f g zero h = refl
reads_within (i ∷ is) f g (suc k) h = reads_within is f g k (omega arith)

-- With an index for each dimension, each below the dimension's length, there is an address, which
-- does not depend on the memory after the indices; with an index that is too large, or with too many
-- indices, the call panics.
pub get_ptr_lem :
    (c : Pointer) (b : PyBuffer) (indices : List ℕ) (beyond : ℕ → ℕ)
    → (length indices ≡ length (shape_of b)
        → in_range indices (shape_of b) ≡ true
        → get_ptr c b indices beyond ≡ ret (c.get_pointer b (reads indices (λ k. 0))))
      × (in_range indices (shape_of b) ≡ false
          → (m : String) × (get_ptr c b indices beyond ≡ panic m))
unfolding get_ptr
get_ptr_lem c b indices beyond = (
  λ same inside.
      let fits : leb (length indices) (length (shape_of b)) ≡ true = ground (arith, same) in
      rw (fits, inside)
        (ap ret
          (c.only_indices b _ _ (λ k h. reads_within indices beyond (λ n. 0) k (omega arith)))),
  λ outside. elim (Bool-cases (leb (length indices) (length (shape_of b)))) [
    | inl fits ↦ ("assertion failed", rw (fits, outside) refl)
    | inr long ↦ ("range end index out of range", rw long refl)
  ],
)
