-- ===== src/Numbers/Laws.antt =====
-- The functions of C that src/types/num.rs calls, and what its parts do with their results.
use pyo.Base.{
  ℕ, ◌-◌, ◌^◌, ◌≡◌, ◌≢◌, refl, sym, ap, ◌∙◌, arith, Bool, true, false, ◌&&◌, Option, none, some,
  some-injective, List, Outcome, ret, panic, Result, ok, ℤ, pos, negsuc, eqb_ℤ,
}
use pyo.Handles.{Counting, Functions, fetched, finally}
use pyo.Numbers.{
  IntType, in_range, RustInt, i8, u8, i16, u16, i32, u32, i64, isize, usize, u64, i128, u128,
  int_type, conversion, fits_c_long, to_ne_bytes, from_ne_bytes, Numbers, read_buffer,
}
use pyo.Numbers.Bytes.{wide_type}

-- What CPython documents. `index_value` is the integer that an object's `__index__` gives, if it gives
-- one, and `long_value` that of an `int`.
pub record IsPython {W E : Type 0} (n : Numbers W E) (index_value long_value : ℕ → W → Option ℤ)
    : Type 0 where
  pub index_none : (o : ℕ) (w : W) → index_value o w ≡ none → (n.number_index o w).0 ≡ 0
  pub index_some :
      (o : ℕ) (w : W) (v : ℤ)
      → index_value o w ≡ some v
      → ((n.number_index o w).0 ≢ 0)
        × (long_value (n.number_index o w).0 (n.number_index o w).1 ≡ some v)
        × (n.occurred (n.number_index o w).1 ≡ n.occurred w)
  pub as_long_fits :
      (o : ℕ) (w : W) (v : ℤ)
      → long_value o w ≡ some v
      → in_range (int_type i64) v ≡ true
      → ((n.as_long o w).0 ≡ v) × (n.occurred (n.as_long o w).1 ≡ n.occurred w)
  pub as_long_overflows :
      (o : ℕ) (w : W) (v : ℤ)
      → long_value o w ≡ some v
      → in_range (int_type i64) v ≡ false
      → ((n.as_long o w).0 ≡ negsuc 0) × (n.occurred (n.as_long o w).1 ≡ true)
  pub as_unsigned_fits :
      (o : ℕ) (w : W) (v : ℤ)
      → long_value o w ≡ some v
      → in_range (int_type u64) v ≡ true
      → ((n.as_unsigned_long_long o w).0 ≡ v)
        × (n.occurred (n.as_unsigned_long_long o w).1 ≡ n.occurred w)
  pub as_unsigned_overflows :
      (o : ℕ) (w : W) (v : ℤ)
      → long_value o w ≡ some v
      → in_range (int_type u64) v ≡ false
      → ((n.as_unsigned_long_long o w).0 ≡ pos (2 ^ 64 - 1))
        × (n.occurred (n.as_unsigned_long_long o w).1 ≡ true)
  pub as_byte_array_fits :
      (o : ℕ) (is_signed : Bool) (w : W) (v : ℤ)
      → long_value o w ≡ some v
      → in_range (wide_type is_signed) v ≡ true
      → (n.as_byte_array o is_signed w).0 ≡ some (to_ne_bytes v)
  pub as_byte_array_overflows :
      (o : ℕ) (is_signed : Bool) (w : W) (v : ℤ)
      → long_value o w ≡ some v
      → in_range (wide_type is_signed) v ≡ false
      → (n.as_byte_array o is_signed w).0 ≡ none

pub fetched-not_ok :
    {W E : Type 0} (c : Counting W) (f : Functions W E) (q : Outcome E × W) (x : ℤ)
    → (fetched c f q).0 ≢ ret (ok x)
unfolding fetched
fetched-not_ok c f (ret e, w) x h = ground (arith, h)
fetched-not_ok c f (panic m, w) x h = ground (arith, h)

pub finally-result :
    {W E : Type 0} (c : Counting W) (f : Functions W E) (after : W → W)
    (q : Outcome (Result ℤ E) × W)
    → (finally c f after q).0 ≡ q.0
unfolding finally
finally-result c f after (ret a, w) = refl
finally-result c f after (panic m, w) = refl

pub and_false : (b : Bool) → (b && false) ≡ false
and_false true = refl
and_false false = refl

pub eqb_ℤ-same : (v : ℤ) → eqb_ℤ v v ≡ true
eqb_ℤ-same (pos x) = ground arith
eqb_ℤ-same (negsuc x) = ground arith

module _ {W E : Type 0} (c : Counting W) (f : Functions W E) (n : Numbers W E) where
  pub read_buffer-some :
      (is_signed : Bool) (q : Option (List ℕ) × W) (bs : List ℕ)
      → q.0 ≡ some bs
      → (read_buffer c f n is_signed q).0 ≡ ret (ok (from_ne_bytes is_signed bs))
  unfolding read_buffer
  read_buffer-some is_signed (none, w) bs h = absurd (ground (arith, h))
  read_buffer-some is_signed (some b, w) bs h = rw (some-injective _ _ h) refl

  pub read_buffer-none :
      (is_signed : Bool) (q : Option (List ℕ) × W)
      → q.0 ≡ none
      → (read_buffer c f n is_signed q).0 ≡ (fetched c f (f.fetch q.1)).0
  unfolding read_buffer
  read_buffer-none is_signed (none, w) h = refl
  read_buffer-none is_signed (some b, w) h = absurd (ground (arith, h))

pub in_and_out {ℓ} :
    {A : Type ℓ} (t : IntType) (v x : ℤ) → in_range t v ≡ false → in_range t x ≡ true → v ≡ x → A
in_and_out t v x over fits e = absurd (ground (arith, sym fits ∙ ap (in_range t) (sym e) ∙ over))

-- The types of the first macro are within `c_long`.
pub within_c_long :
    (t : RustInt) (x : ℤ)
    → conversion t ≡ fits_c_long
    → in_range (int_type t) x ≡ true
    → in_range (int_type i64) x ≡ true
within_c_long i8 x c h = ground (arith, h)
within_c_long u8 x c h = ground (arith, h)
within_c_long i16 x c h = ground (arith, h)
within_c_long u16 x c h = ground (arith, h)
within_c_long i32 x c h = ground (arith, h)
within_c_long u32 x c h = ground (arith, h)
within_c_long i64 x c h = ground (arith, h)
within_c_long isize x c h = ground (arith, h)
within_c_long usize x c h = ground (arith, c)
within_c_long u64 x c h = ground (arith, c)
within_c_long i128 x c h = ground (arith, c)
within_c_long u128 x c h = ground (arith, c)
