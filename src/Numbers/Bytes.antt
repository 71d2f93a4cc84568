-- ===== src/Numbers/Bytes.antt =====
-- The 16 bytes of the 128-bit integers of src/types/num.rs.
use pyo.Base.{ℕ, zero, suc, ◌/◌, ◌^◌, ◌<◌, ◌≡◌, Bool, true, false, ℤ, pos, negsuc, arith}
use pyo.Numbers.{
  IntType, in_range, int_type, i128, u128, bytes, number, word, to_ne_bytes, from_ne_bytes,
  signed_value,
}

-- The type that a conversion through bytes is for.
abbrev pub wide_type : Bool → IntType
wide_type true = int_type i128
wide_type false = int_type u128

number-bytes : (n x : ℕ) → x < 256 ^ n → number (bytes n x) ≡ x
unfolding number bytes
number-bytes zero x h = omega arith
number-bytes (suc n) x h = omega (arith, number-bytes n (x / 256))

signed_value-word :
    (is_signed : Bool) (v : ℤ)
    → in_range (wide_type is_signed) v ≡ true
    → signed_value is_signed (word v) ≡ v
signed_value-word true (pos x) h = ground (arith, h)
signed_value-word true (negsuc x) h = ground (arith, h)
signed_value-word false (pos x) h = ground (arith, h)
signed_value-word false (negsuc x) h = ground (arith, h)

word_bound : (is_signed : Bool) (v : ℤ) → in_range (wide_type is_signed) v ≡ true → word v < 2 ^ 128
word_bound true (pos x) h = ground (arith, h)
word_bound true (negsuc x) h = ground (arith, h)
word_bound false (pos x) h = ground (arith, h)
word_bound false (negsuc x) h = ground (arith, h)

number-to_ne_bytes : (v : ℤ) → word v < 2 ^ 128 → number (to_ne_bytes v) ≡ word v
unfolding to_ne_bytes
number-to_ne_bytes v h = number-bytes 16 (word v) h

-- The bytes of an integer in the range of its type are read back as that integer.
pub from_ne_bytes-to_ne_bytes :
    (is_signed : Bool) (v : ℤ)
    → in_range (wide_type is_signed) v ≡ true
    → from_ne_bytes is_signed (to_ne_bytes v) ≡ v
unfolding from_ne_bytes
from_ne_bytes-to_ne_bytes is_signed v h =
    rw (number-to_ne_bytes v (word_bound is_signed v h)) (signed_value-word is_signed v h)
