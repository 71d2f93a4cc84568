-- ===== src/Buffers/Examples.antt =====
-- A buffer of eight bytes, as two 32-bit numbers.
use pyo.Base.{
  length, ◌*◌, ◌<◌, ℕ, suc, ◌+◌, ◌-◌, ◌≡◌, ◌↔◌, refl, sym, ap, arith, true, false, ◌==◌,
  if◌then◌else◌, Option, none, some, List, [], ◌∷◌, Result, ok, err,
}
use pyo.Buffers.{
  PyBuffer, Element, unsigned_integer, native_element_type_from_type_char, is_compatible_format,
  from_format, is_matching_endian, same_type, BufferError, buffer_error, validate, is_compatible,
}
use pyo.Buffers.Formats.{Describes, is_compatible_format_iff}
use pyo.Buffers.Exports.{Exporter, Counts, get, get_exports, get_leaks}
use pyo.Buffers.Pointers.{Pointer, shape_of}

u64_big : is_compatible_format (unsigned_integer 8) (b'>' ∷ b'Q' ∷ []) ≡ false
unfolding is_compatible_format is_matching_endian
u64_big = refl

is_compatible_format_iff_example :
    (is_compatible_format (unsigned_integer 8) (b'<' ∷ b'Q' ∷ []) ≡ true)
    ↔ Describes (unsigned_integer 8) (b'<' ∷ b'Q' ∷ [])
is_compatible_format_iff_example =
    is_compatible_format_iff (unsigned_integer 8) (b'<' ∷ b'Q' ∷ []) (λ h. ground (arith, h))

abbrev two_numbers : PyBuffer
two_numbers = record {
  buf = 64;
  len = 8;
  itemsize = 4;
  readonly = false;
  shape = some (2 ∷ []);
  strides = some (4 ∷ []);
  format_or_null = some (b'I' ∷ []);
}

abbrev scalar : PyBuffer
scalar = record two_numbers { shape = none; strides = none }

abbrev u32 : Element
u32 = record { element_type = unsigned_integer 4; size = 4; align = 4 }

-- The state counts the exports; the object 1 gives the two numbers, 2 a scalar, and others nothing.
abbrev given : ℕ → Option PyBuffer
given obj = if obj == 1 then some two_numbers else if obj == 2 then some scalar else none

abbrev more : Option PyBuffer → ℕ → ℕ
more none n = n
more (some b) n = suc n

abbrev exporter : Exporter ℕ
exporter = record {
  get_buffer = λ obj n. (given obj, more (given obj) n);
  release = λ b n. n - 1;
  is_contiguous = λ fortran b. true;
  to_contiguous = λ fortran b n. some (1 ∷ 2 ∷ []);
  from_contiguous = λ fortran b xs n. some n;
}

abbrev counts : Counts exporter
counts = record {
  exports = λ n. n;
  get_some = λ obj n b h. rw h refl;
  get_none = λ obj n h. rw h refl;
  release_one = λ b n. refl;
}

abbrev validate_some : Option PyBuffer → Result (Unit {0}) BufferError
validate_some none = ok tt
validate_some (some b) = validate b

given_valid : (b : PyBuffer) → given 1 ≡ some b → validate b ≡ ok tt
unfolding validate
given_valid b h = ap validate_some (sym h)

get_exports_example : (get exporter u32 1 0).1 ≡ 1
unfolding get is_compatible is_compatible_format validate from_format
    native_element_type_from_type_char same_type
get_exports_example = get_exports exporter counts u32 1 0 given_valid

get_leaks_example :
    ((get exporter u32 2 0).0 ≡ err (buffer_error "Shape is Null")) × ((get exporter u32 2 0).1 ≡ 1)
get_leaks_example = get_leaks exporter counts u32 2 0 scalar refl refl

-- The address in a buffer with at most one dimension.
abbrev address : List ℕ → ℕ → (ℕ → ℕ) → ℕ
address [] start f = start
address (n ∷ ns) start f = start + 4 * f 0

address_same :
    (shape : List ℕ) (start : ℕ) (f g : ℕ → ℕ)
    → ((k : ℕ) → k < length shape → f k ≡ g k)
    → address shape start f ≡ address shape start g
address_same [] start f g h = refl
address_same (n ∷ ns) start f g h = rw (h 0 (omega arith)) refl

abbrev pointer : Pointer
pointer = record {
  get_pointer = λ b f. address (shape_of b) b.buf f;
  only_indices = λ b f g h. address_same (shape_of b) b.buf f g h;
}
