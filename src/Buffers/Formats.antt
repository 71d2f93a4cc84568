-- ===== src/Buffers/Formats.antt =====
-- Which formats of a buffer suit a Rust type (src/buffer.rs).
use pyo.Base.{
  true-false, ==-same, ℕ, ◌≡◌, ◌≢◌, ◌↔◌, ◌⊎◌, refl, sym, arith, Bool, true, false, not,
  if◌then◌else◌, List, [], ◌∷◌,
}
use pyo.Buffers.{
  ElementType, signed_integer, unsigned_integer, float, bool, unknown,
  native_element_type_from_type_char, standard_element_type_from_type_char, from_format,
  is_matching_endian, same_type, is_compatible_format,
}

-- A native type with no prefix or with `@`, or a standard type in little-endian order.
abbrev pub Describes : ElementType → List ℕ → Type 0
Describes t (c ∷ []) = native_element_type_from_type_char c ≡ t
Describes t (p ∷ c ∷ []) =
    ((p ≡ b'@') × (native_element_type_from_type_char c ≡ t))
    ⊎ (((p ≡ b'=') ⊎ (p ≡ b'<')) × (standard_element_type_from_type_char c ≡ t))
Describes t _ = ⊥

same_type_sound : (a b : ElementType) → same_type a b ≡ true → a ≡ b
unfolding same_type
same_type_sound a b h = ground (arith, h)

same_type_refl : (a : ElementType) → same_type a a ≡ true
unfolding same_type
same_type_refl (signed_integer a) = ==-same a
same_type_refl (unsigned_integer a) = ==-same a
same_type_refl (float a) = ==-same a
same_type_refl bool = refl
same_type_refl unknown = refl

same_type_iff : (a b : ElementType) → (same_type a b ≡ true) ↔ (a ≡ b)
same_type_iff a b = (same_type_sound a b, λ e. rw e (same_type_refl b))

if_not : (b c : Bool) → (if not b then false else c) ≡ true → c ≡ true
if_not true c h = h
if_not false c h = absurd (true-false (sym h))

-- A format suits a Rust type of numbers exactly if it is a native type of this kind and size, alone
-- or after `@`, or a standard one after `=` or `<`; never one in the other byte order.
pub is_compatible_format_iff :
    (t : ElementType) (format : List ℕ)
    → t ≢ unknown
    → (is_compatible_format t format ≡ true) ↔ Describes t format
unfolding is_compatible_format from_format is_matching_endian
is_compatible_format_iff t [] known =
    (λ h. known (sym (same_type_sound unknown t h)), λ z. absurd z)
is_compatible_format_iff t (c ∷ []) known = same_type_iff _ t
is_compatible_format_iff t (p ∷ c ∷ []) known = ground (
  arith,
  same_type_iff (native_element_type_from_type_char c) t,
  same_type_iff (standard_element_type_from_type_char c) t,
)
is_compatible_format_iff t (p ∷ c ∷ d ∷ rest) known = (
  λ h. known (sym (same_type_sound unknown t (if_not (is_matching_endian p) _ h))),
  λ z. absurd z,
)
