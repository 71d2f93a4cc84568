-- ===== src/Buffers/Exports.antt =====
-- Taking a buffer of an object, giving it back, and copying (src/buffer.rs).
use pyo.Base.{
  Option-cases, ℕ, suc, ◌-◌, ◌*◌, ◌≡◌, refl, ◌∙◌, arith, Bool, true, false, not, ◌&&◌, Bool-cases,
  inl, inr, ◌==◌, if◌then◌else◌, Option, none, some, List, length, Result, ok, err,
}
use pyo.Buffers.{
  PyBuffer, Element, item_count, BufferError, buffer_error, python_error, validate, is_compatible,
}

-- CPython's buffer functions; `fortran` is the order, and -1 is `none`.
pub record Exporter (W : Type 0) : Type 0 where
  pub get_buffer : (obj : ℕ) → W → Option PyBuffer × W
  pub release : PyBuffer → W → W
  pub is_contiguous : (fortran : Bool) → PyBuffer → Bool
  pub to_contiguous : (fortran : Bool) → PyBuffer → W → Option (List ℕ)
  pub from_contiguous : (fortran : Bool) → PyBuffer → List ℕ → W → Option W

-- Exports that nobody has released yet: a successful call makes one, `PyBuffer_Release` ends it.
pub record Counts {W : Type 0} (c : Exporter W) : Type 0 where
  pub exports : W → ℕ
  pub get_some :
      (obj : ℕ) (w : W) (b : PyBuffer)
      → (c.get_buffer obj w).0 ≡ some b
      → exports (c.get_buffer obj w).1 ≡ suc (exports w)
  pub get_none :
      (obj : ℕ) (w : W) → (c.get_buffer obj w).0 ≡ none → exports (c.get_buffer obj w).1 ≡ exports w
  pub release_one : (b : PyBuffer) (w : W) → exports (c.release b w) ≡ exports w - 1

module _ {W : Type 0} (c : Exporter W) where
  -- `Drop` releases a buffer that is refused.
  checked : Element → PyBuffer → W → Result PyBuffer BufferError × W
  checked e b w = elim (validate b) [
    | err x ↦ (err x, w)
    | ok u ↦
        if is_compatible e b
        then (ok b, w)
        else (err (buffer_error "Incompatible type as buffer"), c.release b w)
  ]

  unfoldable pub get : Element → (obj : ℕ) → W → Result PyBuffer BufferError × W
  unfolding checked
  get e obj w = elim (c.get_buffer obj w).0 [
    | none ↦ (err python_error, (c.get_buffer obj w).1)
    | some b ↦ checked e b (c.get_buffer obj w).1
  ]

  -- `Drop for PyBuffer`, and `release`, which runs instead of it.
  unfoldable pub drop_buffer : PyBuffer → W → W
  drop_buffer b w = c.release b w

  unfoldable pub release : PyBuffer → W → W
  release b w = c.release b w

  -- The length of a slice that shares the buffer's memory.
  unfoldable pub as_slice : PyBuffer → Option ℕ
  unfolding item_count
  as_slice b = if c.is_contiguous false b then some (item_count b) else none

  unfoldable pub as_mut_slice : PyBuffer → Option ℕ
  unfolding item_count
  as_mut_slice b = if not b.readonly && c.is_contiguous false b then some (item_count b) else none

  unfoldable pub as_fortran_slice : Element → PyBuffer → Option ℕ
  unfolding item_count
  as_fortran_slice e b =
      if e.size == b.itemsize && c.is_contiguous true b then some (item_count b) else none

  unfoldable pub as_fortran_mut_slice : PyBuffer → Option ℕ
  unfolding item_count
  as_fortran_mut_slice b =
      if not b.readonly && c.is_contiguous true b then some (item_count b) else none

  abbrev length_error : BufferError
  length_error = buffer_error "Slice length does not match buffer length."

  -- `copy_to_slice_impl` on a slice with `room` elements gives what these become.
  unfoldable pub copy_to_slice_impl :
      Element → PyBuffer → (room : ℕ) → (fortran : Bool) → W → Result (List ℕ) BufferError
  copy_to_slice_impl e b room fortran w =
      if not (room * e.size == b.len)
      then err length_error
      else elim (c.to_contiguous fortran b w) [ none ↦ err python_error | some xs ↦ ok xs ]

  -- A vector with room for `item_count` elements, which are all set afterwards.
  unfoldable pub to_vec_impl : PyBuffer → (fortran : Bool) → W → Result (List ℕ) BufferError
  to_vec_impl b fortran w = elim (c.to_contiguous fortran b w) [
    | none ↦ err python_error
    | some xs ↦ ok xs
  ]

  unfoldable pub copy_from_slice_impl :
      Element
      → PyBuffer
      → (source : List ℕ) → (fortran : Bool) → W
      → Result (Unit {0}) BufferError × W
  copy_from_slice_impl e b source fortran w =
      if b.readonly
      then (err (buffer_error "Cannot write to read-only buffer."), w)
      else if not (length source * e.size == b.len)
      then (err length_error, w)
      else elim (c.from_contiguous fortran b source w) [
        | none ↦ (err python_error, w)
        | some w' ↦ (ok tt, w')
      ]

module _ {W : Type 0} (c : Exporter W) (counts : Counts c) where
  abbrev is_ok {ℓ κ} : {A : Type ℓ} {E : Type κ} → Result A E → Bool
  is_ok (ok a) = true
  is_ok (err e) = false

  given_buffer :
      (e : Element) (obj : ℕ) (w : W) (b : PyBuffer)
      → (c.get_buffer obj w).0 ≡ some b
      → validate b ≡ ok tt
      → get c e obj w ≡ (
          if is_compatible e b then (ok b, (c.get_buffer obj w).1) else (
            err (buffer_error "Incompatible type as buffer"),
            c.release b (c.get_buffer obj w).1,
          ))
  unfolding get checked
  given_buffer e obj w b given valid = rw (given, get, valid, checked) refl

  no_buffer :
      (e : Element) (obj : ℕ) (w : W)
      → (c.get_buffer obj w).0 ≡ none
      → get c e obj w ≡ (err python_error, (c.get_buffer obj w).1)
  unfolding get
  no_buffer e obj w h = rw (h, get) refl

  -- Whether taking a buffer succeeds or fails, exactly a buffer that is handed out stays exported, if
  -- the object gives a shape and strides with it.
  pub get_exports :
      (e : Element) (obj : ℕ) (w : W)
      → ((b : PyBuffer) → (c.get_buffer obj w).0 ≡ some b → validate b ≡ ok tt)
      → counts.exports (get c e obj w).1
        ≡ (if is_ok (get c e obj w).0 then suc (counts.exports w) else counts.exports w)
  unfolding get
  get_exports e obj w valid = elim (Option-cases (c.get_buffer obj w).0) [
    | inl failed ↦ rw (no_buffer e obj w failed, counts.get_none obj w failed) refl
    | inr (b, given) ↦
        let found = given_buffer e obj w b given (valid b given) in
        elim (Bool-cases (is_compatible e b)) [
          | inl good ↦ rw (found, good, counts.get_some obj w b given) refl
          | inr bad ↦
              rw (found, bad, counts.release_one, counts.get_some obj w b given) (omega arith)
        ]
  ]

  -- A buffer without a shape is refused, and stays exported: it is not released.
  pub get_leaks :
      (e : Element) (obj : ℕ) (w : W) (b : PyBuffer)
      → (c.get_buffer obj w).0 ≡ some b
      → b.shape ≡ none
      → ((get c e obj w).0 ≡ err (buffer_error "Shape is Null"))
        × (counts.exports (get c e obj w).1 ≡ suc (counts.exports w))
  unfolding get checked validate
  get_leaks e obj w b given no_shape =
      rw (given, get, no_shape, checked, validate) (refl, counts.get_some obj w b given)

  -- A buffer that is taken and then dropped leaves no export behind.
  pub drop_buffer-get :
      (e : Element) (obj : ℕ) (w : W) (b : PyBuffer)
      → ((b : PyBuffer) → (c.get_buffer obj w).0 ≡ some b → validate b ≡ ok tt)
      → (get c e obj w).0 ≡ ok b
      → counts.exports (drop_buffer c b (get c e obj w).1) ≡ counts.exports w
  unfolding drop_buffer
  drop_buffer-get e obj w b valid got =
      let taken : counts.exports (get c e obj w).1 ≡ suc (counts.exports w) =
        get_exports e obj w valid ∙ rw got refl in
      rw (counts.release_one, taken) (omega arith)
