-- ===== src/Numbers/References.antt =====
-- The references that the conversions of src/types/num.rs leave.
use pyo.Base.{
  ℕ, ◌+◌, ◌-◌, ◌^◌, ◌≡◌, refl, arith, Bool, ◌&&◌, ◌==◌, Option, none, some, List, Outcome, ret,
  panic, Result, ok, err, ℤ, pos, negsuc, eqb_ℤ,
}
use pyo.Handles.{Counting, SameWord, IsCounted, Functions, fetched}
use pyo.Handles.Leaves.{
  owned, IsFair, result_refs, Leaves, Leaves-if, Leaves-result, Leaves-finally, Leaves-fetched,
}
use pyo.Numbers.{
  IntType, in_range, RustInt, int_type, conversion, Conversion, fits_c_long, convert_u64, fits_u64,
  convert_128, from_ne_bytes, Numbers, err_if_invalid_value, narrowed, extract_native,
  extract_c_long, extract_u64, read_buffer, extract_128, extract_by, extract,
}

-- `PyNumber_Index` returns a new reference or null, and the conversions to C keep all counts; the new
-- error owns its objects.
pub record IsFairNumbers {W E : Type 0} (n : Numbers W E) (owed : ℕ → W → ℕ)
    (error_refs : ℕ → E → ℕ) : Type 0 where
  pub owed-number_index :
      (o ptr : ℕ) (w : W)
      → SameWord (owed o (n.number_index ptr w).1) (owed o w + owned o (n.number_index ptr w).0)
  pub owed-as_long : (o num : ℕ) (w : W) → SameWord (owed o (n.as_long num w).1) (owed o w)
  pub owed-as_unsigned :
      (o num : ℕ) (w : W) → SameWord (owed o (n.as_unsigned_long_long num w).1) (owed o w)
  pub owed-as_byte_array :
      (o num : ℕ) (is_signed : Bool) (w : W)
      → SameWord (owed o (n.as_byte_array num is_signed w).1) (owed o w)
  pub owed-overflow_error :
      (o : ℕ) (w : W)
      → SameWord (owed o (n.overflow_error w).1) (owed o w + error_refs o (n.overflow_error w).0)

-- An integer owns nothing.
abbrev pub no_refs : ℤ → ℕ
no_refs v = 0

-- The conversions of 128 bits keep the reference that `PyNumber_Index` returns.
abbrev pub kept : ℕ → Conversion → ℕ → ℕ
kept o (convert_128 is_signed) num = owned o num
kept o other num = 0

module _ {W E : Type 0} (c : Counting W) (f : Functions W E) (n : Numbers W E) (owed : ℕ → W → ℕ)
    (error_refs : ℕ → E → ℕ) (counted : IsCounted c owed) (fair : IsFair f owed error_refs)
    (fair_numbers : IsFairNumbers n owed error_refs) (o : ℕ) where
  abbrev LeavesInt : ℕ → Outcome (Result ℤ E) × W → Type 0
  LeavesInt base q = Leaves owed error_refs o no_refs base q

  LeavesInt-fetched :
      (base : ℕ) (w : W) → SameWord (owed o w) base → LeavesInt base (fetched c f (f.fetch w))
  LeavesInt-fetched base w b = Leaves-fetched owed error_refs o no_refs c f base w fair b

  LeavesInt-err_if_invalid_value :
      (invalid actual : ℤ) (base : ℕ) (w : W)
      → SameWord (owed o w) base
      → LeavesInt base (err_if_invalid_value c f n invalid actual w)
  unfolding err_if_invalid_value
  LeavesInt-err_if_invalid_value invalid actual base w b =
      Leaves-if owed error_refs o no_refs base (eqb_ℤ actual invalid && n.occurred w) _ _
        (λ failed. LeavesInt-fetched base w b)
        (λ fine. Leaves-result owed error_refs o no_refs base (ok actual) w (omega (arith, b)))

  LeavesInt-extract_native :
      (as_native : ℕ → W → ℤ × W) (invalid : ℤ) (ptr : ℕ) (w : W)
      → ((num : ℕ) (v : W) → SameWord (owed o (as_native num v).1) (owed o v))
      → LeavesInt (owed o w) (extract_native c f n as_native invalid ptr w)
  unfolding extract_native
  LeavesInt-extract_native as_native invalid ptr w same =
      let (num, w1) = n.number_index ptr w in
      let index = fair_numbers.owed-number_index o ptr w in
      Leaves-if owed error_refs o no_refs (owed o w) (num == 0) _ _
        (λ null. LeavesInt-fetched _ w1 (ground (arith, null, index)))
        (λ object.
          Leaves-finally owed error_refs o no_refs c f (c.decref num) (owned o num) (owed o w) _
            (λ v. ground (arith, object, counted.owed-decref o num v))
            (LeavesInt-err_if_invalid_value invalid (as_native num w1).0 _ (as_native num w1).1
              (omega (arith, same num w1, index))))

  LeavesInt-narrowed :
      (t : IntType) (base : ℕ) (q : Outcome (Result ℤ E) × W)
      → LeavesInt base q
      → LeavesInt base (narrowed c f n t q)
  unfolding narrowed
  LeavesInt-narrowed t base (ret (ok val), w) l =
      Leaves-if owed error_refs o no_refs base (in_range t val) _ _ (λ fits. l)
        (λ over.
          Leaves-result owed error_refs o no_refs base (err (n.overflow_error w).0) _
            (omega (arith, l (ok val) refl, fair_numbers.owed-overflow_error o w)))
  LeavesInt-narrowed t base (ret (err e), w) l = l
  LeavesInt-narrowed t base (panic m, w) l = l

  LeavesInt-read_buffer :
      (is_signed : Bool) (base : ℕ) (q : Option (List ℕ) × W)
      → SameWord (owed o q.1) base
      → LeavesInt base (read_buffer c f n is_signed q)
  unfolding read_buffer
  LeavesInt-read_buffer is_signed base (none, w) b = LeavesInt-fetched base w b
  LeavesInt-read_buffer is_signed base (some buffer, w) b =
      Leaves-result owed error_refs o no_refs base (ok (from_ne_bytes is_signed buffer)) w
        (omega (arith, b))

  LeavesInt-extract_128 :
      (is_signed : Bool) (ptr : ℕ) (w : W)
      → LeavesInt (owed o w + owned o (n.number_index ptr w).0) (extract_128 c f n is_signed ptr w)
  unfolding extract_128
  LeavesInt-extract_128 is_signed ptr w =
      let (num, w1) = n.number_index ptr w in
      let index = fair_numbers.owed-number_index o ptr w in
      Leaves-if owed error_refs o no_refs (owed o w + owned o num) (num == 0) _ _
        (λ null. LeavesInt-fetched _ w1 index)
        (λ object.
          LeavesInt-read_buffer is_signed _ (n.as_byte_array num is_signed w1)
            (omega (arith, fair_numbers.owed-as_byte_array o num is_signed w1, index)))

  LeavesInt-extract_u64 : (ptr : ℕ) (w : W) → LeavesInt (owed o w) (extract_u64 c f n ptr w)
  unfolding extract_u64
  LeavesInt-extract_u64 ptr w =
      LeavesInt-extract_native n.as_unsigned_long_long (pos (2 ^ 64 - 1)) ptr w
        (fair_numbers.owed-as_unsigned o)

  LeavesInt-extract_by :
      (by : Conversion) (t : IntType) (ptr : ℕ) (w : W)
      → LeavesInt (owed o w + kept o by (n.number_index ptr w).0) (extract_by c f n by t ptr w)
  unfolding extract_by extract_c_long
  LeavesInt-extract_by fits_c_long t ptr w r h = omega (
    arith,
    LeavesInt-narrowed t (owed o w) (extract_native c f n n.as_long (negsuc 0) ptr w)
        (LeavesInt-extract_native n.as_long (negsuc 0) ptr w (fair_numbers.owed-as_long o)) r h,
  )
  LeavesInt-extract_by convert_u64 t ptr w r h = omega (arith, LeavesInt-extract_u64 ptr w r h)
  LeavesInt-extract_by fits_u64 t ptr w r h = omega (
    arith,
    LeavesInt-narrowed t (owed o w) (extract_u64 c f n ptr w) (LeavesInt-extract_u64 ptr w) r h,
  )
  LeavesInt-extract_by (convert_128 is_signed) t ptr w r h =
      LeavesInt-extract_128 is_signed ptr w r h

  -- If `extract` of an integer type returns, the references that are left are the ones before it and
  -- those of its error. For `i128` and `u128` one more is left, to the object that `PyNumber_Index`
  -- returned.
  pub extract-owed :
      (t : RustInt) (ptr : ℕ) (w : W) (r : Result ℤ E)
      → (extract c f n t ptr w).0 ≡ ret r
      → SameWord (owed o (extract c f n t ptr w).1) (
          owed o w
          + kept o (conversion t) (n.number_index ptr w).0
          + result_refs no_refs error_refs o r)
  unfolding extract
  extract-owed t ptr w r h = LeavesInt-extract_by (conversion t) (int_type t) ptr w r h
