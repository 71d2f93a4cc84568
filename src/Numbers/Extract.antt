-- ===== src/Numbers/Extract.antt =====
-- What `extract` of src/types/num.rs gives, for an object of any value.
use pyo.Base.{
  ℕ, ◌-◌, ◌^◌, ◌≡◌, ◌≢◌, ◌↔◌, refl, sym, ◌∙◌, arith, Bool, true, false, Bool-cases, Option-cases,
  inl, inr, Option, none, some, some-injective, Outcome, ret, panic, Result, ok, err, ret-injective,
  ok-injective, ℤ, pos, negsuc, eqb_ℤ, not_null,
}
use pyo.Handles.{Counting, Functions}
use pyo.Numbers.{
  IntType, in_range, RustInt, i8, u8, i16, u16, i32, u32, i64, isize, usize, u64, i128, u128,
  int_type, conversion, fits_c_long, Numbers, err_if_invalid_value, narrowed, extract_native,
  extract_c_long, extract_u64, extract_128, extract_by, extract,
}
use pyo.Numbers.Bytes.{wide_type, from_ne_bytes-to_ne_bytes}
use pyo.Numbers.Laws.{
  IsPython, fetched-not_ok, finally-result, and_false, eqb_ℤ-same, within_c_long, in_and_out,
  read_buffer-some, read_buffer-none,
}

module _ {W E : Type 0} (c : Counting W) (f : Functions W E) (n : Numbers W E)
    (index_value long_value : ℕ → W → Option ℤ) (python : IsPython n index_value long_value) where
  -- A result is the object's integer, if it is in the range.
  abbrev Extracts : IntType → ℕ → W → Outcome (Result ℤ E) → Type 0
  Extracts t o w q =
      (x : ℤ) → (q ≡ ret (ok x)) ↔ ((index_value o w ≡ some x) × (in_range t x ≡ true))

  Extracts-none :
      (t : IntType) (o : ℕ) (w : W) (q : Outcome (Result ℤ E))
      → index_value o w ≡ none
      → ((x : ℤ) → q ≢ ret (ok x))
      → Extracts t o w q
  Extracts-none t o w q h never x = (λ e. absurd (never x e), λ e. absurd (ground (arith, h, e)))

  Extracts-ok :
      (t : IntType) (o : ℕ) (w : W) (q : Outcome (Result ℤ E)) (v : ℤ)
      → index_value o w ≡ some v
      → in_range t v ≡ true
      → q ≡ ret (ok v)
      → Extracts t o w q
  Extracts-ok t o w q v h fits e x = (
    λ k. rw (sym (ok-injective _ _ (ret-injective _ _ (sym e ∙ k)))) (h, fits),
    λ (k, l). rw (sym (some-injective _ _ (sym h ∙ k))) e,
  )

  Extracts-refused :
      (t : IntType) (o : ℕ) (w : W) (q : Outcome (Result ℤ E)) (v : ℤ)
      → index_value o w ≡ some v
      → in_range t v ≡ false
      → ((x : ℤ) → q ≢ ret (ok x))
      → Extracts t o w q
  Extracts-refused t o w q v h over never x =
      (λ e. absurd (never x e), λ (k, l). in_and_out t v x over l (some-injective _ _ (sym h ∙ k)))

  narrowed_iff :
      (t : IntType) (q : Outcome (Result ℤ E) × W) (x : ℤ)
      → ((narrowed c f n t q).0 ≡ ret (ok x)) ↔ ((q.0 ≡ ret (ok x)) × (in_range t x ≡ true))
  unfolding narrowed
  narrowed_iff t (ret (ok v), w) x = elim (Bool-cases (in_range t v)) [
    | inl fits ↦
        rw fits (λ e. (e, rw (sym (ok-injective _ _ (ret-injective _ _ e))) fits), λ (k, l). k)
    | inr over ↦ rw over (
      λ e. absurd (ground (arith, e)),
      λ (k, l). in_and_out t v x over l (ok-injective _ _ (ret-injective _ _ k)),
    )
  ]
  narrowed_iff t (ret (err e), w) x = ground arith
  narrowed_iff t (panic m, w) x = ground arith

  -- What a conversion of C says of its result.
  abbrev Reads : IntType → (ℕ → W → ℤ × W) → ℤ → Type 0
  Reads t as_native invalid_value =
      (o : ℕ) (w : W) (v : ℤ)
      → long_value o w ≡ some v
      → (in_range t v ≡ true
          → ((as_native o w).0 ≡ v) × (n.occurred (as_native o w).1 ≡ n.occurred w))
        × (in_range t v ≡ false
            → ((as_native o w).0 ≡ invalid_value) × (n.occurred (as_native o w).1 ≡ true))

  extract_native-Extracts :
      (t : IntType) (as_native : ℕ → W → ℤ × W) (invalid_value : ℤ) (o : ℕ) (w : W)
      → Reads t as_native invalid_value
      → n.occurred w ≡ false
      → Extracts t o w (extract_native c f n as_native invalid_value o w).0
  unfolding extract_native err_if_invalid_value
  extract_native-Extracts t as_native invalid_value o w reads clear =
      let (num, w1) = n.number_index o w in
      elim (Option-cases (index_value o w)) [
        | inl missing ↦
            Extracts-none t o w _ missing
              (λ x. rw (python.index_none o w missing) (fetched-not_ok c f (f.fetch w1) x))
        | inr (v, h) ↦
            let (object, long, still) = python.index_some o w v h in
            elim (Bool-cases (in_range t v)) [
              | inl fits ↦
                  let (e, quiet) = (reads num w1 v long).0 fits in
                  Extracts-ok t o w _ v h fits (
                    rw
                      (
                        not_null num object,
                        finally-result,
                        e,
                        quiet,
                        still,
                        clear,
                        and_false (eqb_ℤ v invalid_value),
                      )
                      refl)
              | inr over ↦
                  let (e, raised) = (reads num w1 v long).1 over in
                  Extracts-refused t o w _ v h over (λ x.
                    rw (not_null num object, finally-result, e, raised, eqb_ℤ-same invalid_value)
                      (fetched-not_ok c f (f.fetch (as_native num w1).1) x))
            ]
      ]

  Extracts-narrowed :
      (t larger : IntType) (o : ℕ) (w : W) (q : Outcome (Result ℤ E) × W)
      → ((x : ℤ) → in_range t x ≡ true → in_range larger x ≡ true)
      → Extracts larger o w q.0
      → Extracts t o w (narrowed c f n t q).0
  Extracts-narrowed t larger o w q within l x =
      let (there, back) = narrowed_iff t q x in
      let (down, up) = l x in
      (
        λ e. let (k, fits) = there e in ((down k).0, fits),
        λ (h, fits). back (up (h, within x fits), fits),
      )

  extract_128-Extracts :
      (is_signed : Bool) (o : ℕ) (w : W)
      → Extracts (wide_type is_signed) o w (extract_128 c f n is_signed o w).0
  unfolding extract_128
  extract_128-Extracts is_signed o w =
      let (num, w1) = n.number_index o w in
      elim (Option-cases (index_value o w)) [
        | inl missing ↦
            Extracts-none (wide_type is_signed) o w _ missing
              (λ x. rw (python.index_none o w missing) (fetched-not_ok c f (f.fetch w1) x))
        | inr (v, h) ↦
            let (object, long, still) = python.index_some o w v h in
            elim (Bool-cases (in_range (wide_type is_signed) v)) [
              | inl fits ↦ Extracts-ok (wide_type is_signed) o w _ v h fits (
                  rw
                    (
                      not_null num object,
                      read_buffer-some c f n is_signed (n.as_byte_array num is_signed w1) _
                          (python.as_byte_array_fits num is_signed w1 v long fits),
                      from_ne_bytes-to_ne_bytes is_signed v fits,
                    )
                    refl)
              | inr over ↦ Extracts-refused (wide_type is_signed) o w _ v h over (λ x.
                  rw
                    (
                      not_null num object,
                      read_buffer-none c f n is_signed (n.as_byte_array num is_signed w1)
                          (python.as_byte_array_overflows num is_signed w1 v long over),
                    )
                    (fetched-not_ok c f (f.fetch (n.as_byte_array num is_signed w1).1) x))
            ]
      ]

  as_long-Reads : Reads (int_type i64) n.as_long (negsuc 0)
  as_long-Reads o w v h = (python.as_long_fits o w v h, python.as_long_overflows o w v h)

  as_unsigned-Reads : Reads (int_type u64) n.as_unsigned_long_long (pos (2 ^ 64 - 1))
  as_unsigned-Reads o w v h =
      (python.as_unsigned_fits o w v h, python.as_unsigned_overflows o w v h)

  extract_u64-Extracts :
      (o : ℕ) (w : W) → n.occurred w ≡ false → Extracts (int_type u64) o w (extract_u64 c f n o w).0
  unfolding extract_u64
  extract_u64-Extracts o w =
      extract_native-Extracts (int_type u64) n.as_unsigned_long_long (pos (2 ^ 64 - 1)) o w
        as_unsigned-Reads

  extract_c_long-Extracts :
      (t : RustInt) (o : ℕ) (w : W)
      → conversion t ≡ fits_c_long
      → n.occurred w ≡ false
      → Extracts (int_type t) o w (extract_c_long c f n (int_type t) o w).0
  unfolding extract_c_long
  extract_c_long-Extracts t o w c_long clear =
      Extracts-narrowed (int_type t) (int_type i64) o w
        (extract_native c f n n.as_long (negsuc 0) o w) (λ x. within_c_long t x c_long)
        (extract_native-Extracts (int_type i64) n.as_long (negsuc 0) o w as_long-Reads clear)

  extract_by-Extracts :
      (t : RustInt) (o : ℕ) (w : W)
      → n.occurred w ≡ false
      → Extracts (int_type t) o w (extract_by c f n (conversion t) (int_type t) o w).0
  unfolding extract_by extract_c_long
  extract_by-Extracts u64 o w clear = extract_u64-Extracts o w clear
  extract_by-Extracts usize o w clear =
      Extracts-narrowed (int_type usize) (int_type u64) o w (extract_u64 c f n o w) (λ x fits. fits)
        (extract_u64-Extracts o w clear)
  extract_by-Extracts i128 o w clear = extract_128-Extracts true o w
  extract_by-Extracts u128 o w clear = extract_128-Extracts false o w
  extract_by-Extracts i8 o w clear = extract_c_long-Extracts i8 o w refl clear
  extract_by-Extracts u8 o w clear = extract_c_long-Extracts u8 o w refl clear
  extract_by-Extracts i16 o w clear = extract_c_long-Extracts i16 o w refl clear
  extract_by-Extracts u16 o w clear = extract_c_long-Extracts u16 o w refl clear
  extract_by-Extracts i32 o w clear = extract_c_long-Extracts i32 o w refl clear
  extract_by-Extracts u32 o w clear = extract_c_long-Extracts u32 o w refl clear
  extract_by-Extracts i64 o w clear = extract_c_long-Extracts i64 o w refl clear
  extract_by-Extracts isize o w clear = extract_c_long-Extracts isize o w refl clear

  -- With no error set before, `extract` of any of the twelve integer types succeeds exactly for an
  -- object whose `__index__` gives an integer in the range of the type, and the result is that
  -- integer, also where it equals the value with which C reports an error.
  pub extract-ok_iff :
      (t : RustInt) (o : ℕ) (w : W) (x : ℤ)
      → n.occurred w ≡ false
      → ((extract c f n t o w).0 ≡ ret (ok x))
        ↔ ((index_value o w ≡ some x) × (in_range (int_type t) x ≡ true))
  unfolding extract
  extract-ok_iff t o w x clear = extract_by-Extracts t o w clear x
