-- ===== src/Callback/Hash.antt =====
-- The hash that `__hash__` gives Python (src/callback.rs).
use pyo.Base.{
  ℕ, ◌-◌, ◌≡◌, ◌≤◌, ◌<◌, refl, arith, Bool-cases, inl, inr, leb, ◌==◌, if◌then◌else◌, ok, isize_max,
  usize_max, usize_mod,
}
use pyo.Callback.{ℤ, pos, negsuc, integer, hash_value, wrapping_cast, convert_hash, convert}

-- The 64 bits of an integer.
abbrev pub bits : ℤ → ℕ
bits (pos n) = n
bits (negsuc n) = usize_max - n

abbrev pub IsHash : ℤ → Type 0
IsHash (pos n) = n ≤ isize_max
IsHash (negsuc n) = (1 ≤ n) × (n ≤ isize_max)

-- The 64 bits that a class computes as a hash come to Python as a number in the range of Py_hash_t
-- other than -1, with the same bits unless these are those of -1; then they are those of -2.
pub convert-wrapping_cast :
    {E : Type 0} (n : ℕ)
    → n < usize_mod
    → (z : ℤ) × (convert {E = E} hash_value (wrapping_cast n) ≡ ok (integer z))
      × IsHash z
      × (bits z ≡ (if n == usize_max then usize_max - 1 else n))
unfolding convert convert_hash wrapping_cast
convert-wrapping_cast n l = elim (Bool-cases (leb n isize_max)) [
  | inl small ↦ rw small (pos n, refl, ground (arith, small), ground (arith, small))
  | inr big ↦ elim (Bool-cases (n == usize_max)) [
    | inl last ↦
        (negsuc 1, ground (arith, big, last), (omega arith, omega arith), ground (arith, last))
    | inr other ↦ (
      negsuc (usize_max - n),
      ground (arith, big, other),
      (ground (arith, other), ground (arith, big)),
      ground (arith, other),
    )
  ]
]
