-- ===== src/Numbers.antt =====
-- src/types/num.rs: Rust's integers from and to Python's, for a little-endian target with 64 bits that
-- is not Windows. A Rust integer is its value, and the casts to a larger type keep it. The functions
-- of C are a parameter, and so is `OverflowError.into()`, which is `PyErr::new`.
pub mod Bytes
pub mod Laws
pub mod Extract
pub mod RoundTrip
pub mod References
mod Examples
use pyo.Base.{
  ℕ, zero, suc, ◌+◌, ◌-◌, ◌*◌, ◌/◌, ◌%◌, ◌^◌, ◌≡◌, Bool, true, false, ◌&&◌, ◌==◌, leb,
  if◌then◌else◌, Option, none, some, List, [], ◌∷◌, Outcome, ret, panic, Result, ok, err, ℤ, pos,
  negsuc, leb_ℤ, eqb_ℤ,
}
use pyo.Handles.{Counting, Functions, fetched, finally, from_owned_ptr_or_panic}

pub record IntType : Type 0 where
  pub lowest : ℤ
  pub highest : ℤ

-- `try_from`.
abbrev pub in_range : IntType → ℤ → Bool
in_range t v = leb_ℤ t.lowest v && leb_ℤ v t.highest

pub data RustInt : Type 0 where
  i8 u8 i16 u16 i32 u32 i64 isize usize u64 i128 u128 : RustInt

abbrev signed_type : ℕ → IntType
signed_type half = record { lowest = negsuc (half - 1); highest = pos (half - 1) }

abbrev unsigned_type : ℕ → IntType
unsigned_type bound = record { lowest = pos 0; highest = pos (bound - 1) }

abbrev pub int_type : RustInt → IntType
int_type i8 = signed_type (2 ^ 7)
int_type u8 = unsigned_type (2 ^ 8)
int_type i16 = signed_type (2 ^ 15)
int_type u16 = unsigned_type (2 ^ 16)
int_type i32 = signed_type (2 ^ 31)
int_type u32 = unsigned_type (2 ^ 32)
int_type i64 = signed_type (2 ^ 63)
int_type isize = signed_type (2 ^ 63)
int_type usize = unsigned_type (2 ^ 64)
int_type u64 = unsigned_type (2 ^ 64)
int_type i128 = signed_type (2 ^ 127)
int_type u128 = unsigned_type (2 ^ 128)

-- The macro that a type's conversions come from.
pub data Conversion : Type 0 where
  fits_c_long convert_u64 fits_u64 : Conversion
  convert_128 : (is_signed : Bool) → Conversion

abbrev pub conversion : RustInt → Conversion
conversion u64 = convert_u64
conversion usize = fits_u64
conversion i128 = convert_128 true
conversion u128 = convert_128 false
conversion t = fits_c_long

-- Two's complement in 128 bits, the lowest byte first.
pub bytes : ℕ → ℕ → List ℕ
bytes zero x = []
bytes (suc n) x = x % 256 ∷ bytes n (x / 256)

pub number : List ℕ → ℕ
number [] = 0
number (b ∷ bs) = b + 256 * number bs

abbrev word : ℤ → ℕ
word (pos x) = x
word (negsuc x) = 2 ^ 128 - 1 - x

unfoldable pub to_ne_bytes : ℤ → List ℕ
unfolding bytes
to_ne_bytes v = bytes 16 (word v)

abbrev pub signed_value : Bool → ℕ → ℤ
signed_value is_signed x = if is_signed && leb (2 ^ 127) x then negsuc (2 ^ 128 - 1 - x) else pos x

unfoldable pub from_ne_bytes : Bool → List ℕ → ℤ
unfolding number
from_ne_bytes is_signed bs = signed_value is_signed (number bs)

-- A pointer that is returned is a new reference or null. `as_byte_array` gives what it writes into a
-- buffer of 16 bytes, or `none` for -1.
pub record Numbers (W E : Type 0) : Type 0 where
  pub occurred : W → Bool
  pub overflow_error : W → E × W
  pub number_index : ℕ → W → ℕ × W
  pub from_long : ℤ → W → ℕ × W
  pub as_long : ℕ → W → ℤ × W
  pub from_unsigned_long_long : ℤ → W → ℕ × W
  pub as_unsigned_long_long : ℕ → W → ℤ × W
  pub from_byte_array : List ℕ → (is_signed : Bool) → W → ℕ × W
  pub as_byte_array : ℕ → (is_signed : Bool) → W → Option (List ℕ) × W

module _ {W E : Type 0} (c : Counting W) (f : Functions W E) (n : Numbers W E) where
  err_if_invalid_value : (invalid_value actual_value : ℤ) → W → Outcome (Result ℤ E) × W
  unfolding fetched
  err_if_invalid_value invalid_value actual_value w =
      if eqb_ℤ actual_value invalid_value && n.occurred w
      then fetched c f (f.fetch w)
      else (ret (ok actual_value), w)

  -- `?`, `try_from` and its error.
  narrowed : IntType → Outcome (Result ℤ E) × W → Outcome (Result ℤ E) × W
  narrowed t (ret (ok val), w) =
      if in_range t val
      then (ret (ok val), w)
      else (ret (err (n.overflow_error w).0), (n.overflow_error w).1)
  narrowed t (ret (err e), w) = (ret (err e), w)
  narrowed t (panic m, w) = (panic m, w)

  -- The part that the two macros with a C integer share.
  extract_native : (ℕ → W → ℤ × W) → ℤ → ℕ → W → Outcome (Result ℤ E) × W
  unfolding err_if_invalid_value fetched finally
  extract_native as_native invalid_value ptr w =
      let (num, w1) = n.number_index ptr w in
      if num == 0
      then fetched c f (f.fetch w1)
      else (let (val, w2) = as_native num w1 in
          finally c f (c.decref num) (err_if_invalid_value invalid_value val w2))

  extract_c_long : IntType → ℕ → W → Outcome (Result ℤ E) × W
  unfolding extract_native narrowed
  extract_c_long t ptr w = narrowed t (extract_native n.as_long (negsuc 0) ptr w)

  extract_u64 : ℕ → W → Outcome (Result ℤ E) × W
  unfolding extract_native
  extract_u64 ptr w = extract_native n.as_unsigned_long_long (pos (2 ^ 64 - 1)) ptr w

  pub read_buffer : Bool → Option (List ℕ) × W → Outcome (Result ℤ E) × W
  unfolding from_ne_bytes fetched
  read_buffer is_signed (none, w) = fetched c f (f.fetch w)
  read_buffer is_signed (some buffer, w) = (ret (ok (from_ne_bytes is_signed buffer)), w)

  extract_128 : Bool → ℕ → W → Outcome (Result ℤ E) × W
  unfolding read_buffer fetched
  extract_128 is_signed ptr w =
      let (num, w1) = n.number_index ptr w in
      if num == 0
      then fetched c f (f.fetch w1)
      else read_buffer is_signed (n.as_byte_array num is_signed w1)

  extract_by : Conversion → IntType → ℕ → W → Outcome (Result ℤ E) × W
  unfolding extract_c_long extract_u64 narrowed extract_128
  extract_by fits_c_long t ptr w = extract_c_long t ptr w
  extract_by convert_u64 t ptr w = extract_u64 ptr w
  extract_by fits_u64 t ptr w = narrowed t (extract_u64 ptr w)
  extract_by (convert_128 is_signed) t ptr w = extract_128 is_signed ptr w

  unfoldable pub extract : RustInt → ℕ → W → Outcome (Result ℤ E) × W
  unfolding extract_by
  extract t ptr w = extract_by (conversion t) (int_type t) ptr w

  new_int : Conversion → ℤ → W → ℕ × W
  unfolding to_ne_bytes
  new_int fits_c_long v w = n.from_long v w
  new_int convert_u64 v w = n.from_unsigned_long_long v w
  new_int fits_u64 v w = n.from_unsigned_long_long v w
  new_int (convert_128 is_signed) v w = n.from_byte_array (to_ne_bytes v) is_signed w

  -- `into_py` and `to_object`.
  unfoldable pub into_py : RustInt → ℤ → W → Outcome ℕ × W
  unfolding new_int from_owned_ptr_or_panic
  into_py t v w = let (ptr, w1) = new_int (conversion t) v w in from_owned_ptr_or_panic c f ptr w1
