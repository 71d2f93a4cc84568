-- ===== src/Buffers.antt =====
-- src/buffer.rs: buffers of Python objects, on a little-endian machine of 64 bits. A C string is the
-- list of its bytes, and an address a number.
pub mod Formats
pub mod Exports
pub mod Pointers
mod Examples
use pyo.Base.{
  ℕ, ◌+◌, ◌-◌, ◌*◌, ◌/◌, ◌%◌, ◌≡◌, Bool, true, false, not, ◌&&◌, ltb, ◌==◌, if◌then◌else◌, Option,
  none, some, String, List, [], ◌∷◌, length, Outcome, ret, panic, Result, ok, err, usize_mod,
}

pub data ElementType : Type 0 where
  signed_integer unsigned_integer float : (bytes : ℕ) → ElementType
  bool unknown : ElementType

-- A table from the bytes of types to what they mean.
abbrev find_type : ℕ → List (ℕ × ElementType) → ElementType
find_type c [] = unknown
find_type c ((b, t) ∷ rest) = if c == b then t else find_type c rest

-- On a machine where `long` has 64 bits.
unfoldable pub native_element_type_from_type_char : ℕ → ElementType
native_element_type_from_type_char c = find_type c (
    (b'c', unsigned_integer 1)
    ∷ (b'b', signed_integer 1)
    ∷ (b'B', unsigned_integer 1)
    ∷ (b'?', bool)
    ∷ (b'h', signed_integer 2)
    ∷ (b'H', unsigned_integer 2)
    ∷ (b'i', signed_integer 4)
    ∷ (b'I', unsigned_integer 4)
    ∷ (b'l', signed_integer 8)
    ∷ (b'L', unsigned_integer 8)
    ∷ (b'q', signed_integer 8)
    ∷ (b'Q', unsigned_integer 8)
    ∷ (b'n', signed_integer 8)
    ∷ (b'N', unsigned_integer 8)
    ∷ (b'e', float 2)
    ∷ (b'f', float 4)
    ∷ (b'd', float 8)
    ∷ [])

unfoldable pub standard_element_type_from_type_char : ℕ → ElementType
standard_element_type_from_type_char c = find_type c (
    (b'c', unsigned_integer 1)
    ∷ (b'B', unsigned_integer 1)
    ∷ (b'b', signed_integer 1)
    ∷ (b'?', bool)
    ∷ (b'h', signed_integer 2)
    ∷ (b'H', unsigned_integer 2)
    ∷ (b'i', signed_integer 4)
    ∷ (b'l', signed_integer 4)
    ∷ (b'I', unsigned_integer 4)
    ∷ (b'L', unsigned_integer 4)
    ∷ (b'q', signed_integer 8)
    ∷ (b'Q', unsigned_integer 8)
    ∷ (b'e', float 2)
    ∷ (b'f', float 4)
    ∷ (b'd', float 8)
    ∷ [])

abbrev member : ℕ → List ℕ → Bool
member c [] = false
member c (b ∷ bs) = if c == b then true else member c bs

unfoldable pub from_format : List ℕ → ElementType
from_format (c ∷ []) = native_element_type_from_type_char c
from_format (p ∷ c ∷ []) =
    if p == b'@'
    then native_element_type_from_type_char c
    else if member p (b'=' ∷ b'<' ∷ b'>' ∷ b'!' ∷ [])
    then standard_element_type_from_type_char c
    else unknown
from_format _ = unknown

unfoldable pub is_matching_endian : ℕ → Bool
is_matching_endian c = member c (b'@' ∷ b'=' ∷ b'<' ∷ [])

-- `==` of element types.
unfoldable pub same_type : ElementType → ElementType → Bool
same_type (signed_integer a) (signed_integer b) = a == b
same_type (unsigned_integer a) (unsigned_integer b) = a == b
same_type (float a) (float b) = a == b
same_type bool bool = true
same_type unknown unknown = true
same_type _ _ = false

-- `Element::is_compatible_format` of a Rust type, given as its element type.
unfoldable pub is_compatible_format : ElementType → List ℕ → Bool
is_compatible_format t (p ∷ c ∷ rest) =
    if not (is_matching_endian p) then false else same_type (from_format (p ∷ c ∷ rest)) t
is_compatible_format t format = same_type (from_format format) t

-- `ffi::Py_buffer`; null is `none`. Strides are the 64 bits of an `isize`.
pub record PyBuffer : Type 0 where
  pub buf : ℕ
  pub len : ℕ
  pub itemsize : ℕ
  pub readonly : Bool
  pub shape : Option (List ℕ)
  pub strides : Option (List ℕ)
  pub format_or_null : Option (List ℕ)

-- A Rust type of elements: its element type, size and alignment.
pub record Element : Type 0 where
  pub element_type : ElementType
  pub size : ℕ
  pub align : ℕ

abbrev pub format : PyBuffer → List ℕ
format b = elim b.format_or_null [ none ↦ b'B' ∷ [] | some f ↦ f ]

unfoldable pub item_count : PyBuffer → ℕ
item_count b = b.len / b.itemsize

pub data BufferError : Type 0 where
  buffer_error : String → BufferError
  python_error : BufferError

unfoldable pub validate : PyBuffer → Result (Unit {0}) BufferError
validate b = elim b.shape [
  | none ↦ err (buffer_error "Shape is Null")
  | some shape ↦ elim b.strides [
    | none ↦ err (buffer_error "PyBuffer: Strides is Null")
    | some strides ↦ ok tt
  ]
]

unfoldable pub is_compatible : Element → PyBuffer → Bool
is_compatible e b =
    e.size == b.itemsize && (b.buf % e.align == 0 && is_compatible_format e.element_type (format b))
