-- ===== src/Numbers/RoundTrip.antt =====
-- An integer that src/types/num.rs converts to Python and back.
use pyo.Base.{
  ℕ, ◌≡◌, ◌≢◌, refl, sym, ap, ◌∙◌, arith, Bool, true, false, ◌==◌, Bool-cases, inl, inr, Option,
  some, List, ret, ok, ret-injective, ℤ,
}
use pyo.Handles.{Counting, Functions, from_owned_ptr_or_panic}
use pyo.Numbers.{
  in_range, RustInt, i8, u8, i16, u16, i32, u32, i64, isize, usize, u64, i128, u128, int_type,
  conversion, Numbers, to_ne_bytes, from_ne_bytes, new_int, into_py, extract,
}
use pyo.Numbers.Bytes.{wide_type, from_ne_bytes-to_ne_bytes}
use pyo.Numbers.Laws.{IsPython, within_c_long}
use pyo.Numbers.Extract.{extract-ok_iff}

-- What CPython documents of a new `int`, where there is memory for one.
pub record IsMade {W E : Type 0} (n : Numbers W E) (index_value : ℕ → W → Option ℤ) : Type 0 where
  pub long_value :
      (v : ℤ) (w : W)
      → in_range (int_type i64) v ≡ true
      → (n.from_long v w).0 ≢ 0
      → (index_value (n.from_long v w).0 (n.from_long v w).1 ≡ some v)
        × (n.occurred (n.from_long v w).1 ≡ n.occurred w)
  pub unsigned_value :
      (v : ℤ) (w : W)
      → in_range (int_type u64) v ≡ true
      → (n.from_unsigned_long_long v w).0 ≢ 0
      → (index_value (n.from_unsigned_long_long v w).0 (n.from_unsigned_long_long v w).1 ≡ some v)
        × (n.occurred (n.from_unsigned_long_long v w).1 ≡ n.occurred w)
  pub byte_array_value :
      (bs : List ℕ) (is_signed : Bool) (w : W)
      → (n.from_byte_array bs is_signed w).0 ≢ 0
      → (index_value (n.from_byte_array bs is_signed w).0 (n.from_byte_array bs is_signed w).1
          ≡ some (from_ne_bytes is_signed bs))
        × (n.occurred (n.from_byte_array bs is_signed w).1 ≡ n.occurred w)

module _ {W E : Type 0} (c : Counting W) (f : Functions W E) (n : Numbers W E)
    (index_value : ℕ → W → Option ℤ) (made : IsMade n index_value) where
  -- The new object has the value.
  abbrev Holds : ℤ → W → ℕ × W → Type 0
  Holds v w q = q.0 ≢ 0 → (index_value q.0 q.1 ≡ some v) × (n.occurred q.1 ≡ n.occurred w)

  bytes-Hold :
      (is_signed : Bool) (v : ℤ) (w : W)
      → in_range (wide_type is_signed) v ≡ true
      → Holds v w (n.from_byte_array (to_ne_bytes v) is_signed w)
  bytes-Hold is_signed v w h object =
      let (e, still) = made.byte_array_value (to_ne_bytes v) is_signed w object in
      (e ∙ ap some (from_ne_bytes-to_ne_bytes is_signed v h), still)

  new_int-Holds :
      (t : RustInt) (v : ℤ) (w : W)
      → in_range (int_type t) v ≡ true
      → Holds v w (new_int c f n (conversion t) v w)
  unfolding new_int
  new_int-Holds i8 v w h = made.long_value v w (within_c_long i8 v refl h)
  new_int-Holds u8 v w h = made.long_value v w (within_c_long u8 v refl h)
  new_int-Holds i16 v w h = made.long_value v w (within_c_long i16 v refl h)
  new_int-Holds u16 v w h = made.long_value v w (within_c_long u16 v refl h)
  new_int-Holds i32 v w h = made.long_value v w (within_c_long i32 v refl h)
  new_int-Holds u32 v w h = made.long_value v w (within_c_long u32 v refl h)
  new_int-Holds i64 v w h = made.long_value v w (within_c_long i64 v refl h)
  new_int-Holds isize v w h = made.long_value v w (within_c_long isize v refl h)
  new_int-Holds usize v w h = made.unsigned_value v w h
  new_int-Holds u64 v w h = made.unsigned_value v w h
  new_int-Holds i128 v w h = bytes-Hold true v w h
  new_int-Holds u128 v w h = bytes-Hold false v w h

  from_owned_ptr_or_panic_inv :
      (q : ℕ × W) (ptr : ℕ) (w' : W)
      → from_owned_ptr_or_panic c f q.0 q.1 ≡ (ret ptr, w')
      → (q.0 ≢ 0) × (q ≡ (ptr, w'))
  unfolding from_owned_ptr_or_panic
  from_owned_ptr_or_panic_inv (p, w) ptr w' h = elim (Bool-cases (p == 0)) [
    | inl null ↦ absurd (ground (arith, ap (λ q. q.0) (rw null at h)))
    | inr object ↦
        let e = rw object at h in
        (
          λ z. ground (arith, object, z),
          rw (ret-injective _ _ (ap (λ q. q.0) e), ap (λ q. q.1) e) refl,
        )
  ]

  -- If `into_py` of an integer in the range of its type returns an object, then `extract` of that
  -- object, with no error set before, gives the integer back.
  pub extract-into_py :
      (long_value : ℕ → W → Option ℤ) (t : RustInt) (v : ℤ) (w w' : W) (ptr : ℕ)
      → IsPython n index_value long_value
      → in_range (int_type t) v ≡ true
      → n.occurred w ≡ false
      → into_py c f n t v w ≡ (ret ptr, w')
      → (extract c f n t ptr w').0 ≡ ret (ok v)
  unfolding into_py
  extract-into_py long_value t v w w' ptr python fits clear h =
      let (object, same) =
        from_owned_ptr_or_panic_inv (new_int c f n (conversion t) v w) ptr w' h in
      let (held, still) = new_int-Holds t v w fits object in
      (extract-ok_iff c f n index_value long_value python t ptr w' v
          (sym (ap (λ q. n.occurred q.1) same) ∙ still ∙ clear)).1
        (sym (ap (λ q. index_value q.0 q.1) same) ∙ held, fits)
