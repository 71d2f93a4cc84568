-- ===== src/Sequences.antt =====
-- Iterators, and sequences that are read into vectors and arrays (src/types/iterator.rs,
-- src/types/sequence.rs, and `PyList::get_item` of src/types/list.rs). The functions of C are a
-- parameter, and so are `extract` of an element and the two errors that are made by `py_err`.
pub mod Extract
pub mod Items
mod Examples
use pyo.Base.{
  ℕ, zero, suc, ◌≡◌, Bool, true, false, ◌==◌, ltb, if◌then◌else◌, Option, none, some, List, [], ◌∷◌,
  ◌++◌, length, then_some, Outcome, ret, panic, Result, ok, err, ℤ, pos, negsuc,
}
use pyo.Handles.{Counting, Functions, fetched, pool_from_owned_ptr_or_opt}

-- `get_iter` and `iter_next` return a new reference or null, `list_get_item` a borrowed one or null.
pub record Iteration (W E : Type 0) : Type 0 where
  pub occurred : W → Bool
  pub drop_error : E → W → W
  pub downcast_error : W → E × W
  pub length_error : W → E × W
  pub sequence_check : ℕ → W → Bool
  pub sequence_size : ℕ → W → Option ℕ × W
  pub get_iter : ℕ → W → ℕ × W
  pub iter_check : ℕ → W → Bool
  pub iter_next : ℕ → W → ℕ × W
  pub list_size : ℕ → W → ℕ
  pub list_get_item : ℕ → ℤ → W → ℕ

abbrev pub abs : ℤ → ℕ
abs (pos n) = n
abs (negsuc n) = suc n

-- Code with an access through a pointer: what happens after one through null is not defined.
pub data Execution (A : Type 0) : Type 0 where
  runs : A → Execution A
  null_access : Execution A

-- A call: what it returns, and the state after it.
abbrev pub Call : (W E A : Type 0) → Type 0
Call W E A = Outcome (Result A E) × W

module _ {W E : Type 0} (c : Counting W) (f : Functions W E) (i : Iteration W E) where
  -- `assert!`, then `Py_INCREF` of whatever `PyList_GetItem` returns, which writes to the object. The
  -- null pointer that `from_owned_ptr` would panic for is not there any more.
  unfoldable pub get_item : ℕ → ℤ → W → Execution (Outcome ℕ × W)
  get_item slf index w =
      if ltb (abs index) (i.list_size slf w)
      then (let ptr = i.list_get_item slf index w in
          if ptr == 0 then null_access else runs (ret ptr, c.register_owned ptr (c.incref ptr w)))
      else runs (panic "assertion failed", w)

  -- `PyErr::fetch(py);` drops the error; the second refusal drops nothing.
  fetch_and_drop : Outcome E × W → Outcome (Option ℕ) × W
  fetch_and_drop (ret e, w) = (ret none, i.drop_error e w)
  fetch_and_drop (panic m, w) = (panic m, w)

  unfoldable pub from_object : ℕ → W → Outcome (Option ℕ) × W
  unfolding fetch_and_drop
  from_object obj w =
      let (ptr, w1) = i.get_iter obj w in
      if ptr == 0
      then fetch_and_drop (f.fetch w1)
      else if i.iter_check ptr w1
      then (ret (some ptr), w1)
      else (ret none, w1)

  -- The end of an iterator, or an item or error; no item is `none`.
  unfoldable pub next : ℕ → W → Outcome (Option (Result ℕ E)) × W
  unfolding pool_from_owned_ptr_or_opt
  next slf w =
      let (ptr, w1) = i.iter_next slf w in
      if ptr == 0
      then if i.occurred w1
        then elim (f.fetch w1).0 [
          | ret e ↦ (ret (some (err e)), (f.fetch w1).1)
          | panic m ↦ (panic m, (f.fetch w1).1)
        ]
        else (ret none, w1)
      else (ret (some (ok ptr)), c.register_owned ptr w1)

  module _ {A : Type 0} (extract : ℕ → W → Call W E A) where
    -- The loop of `extract_sequence`, and `none` where the fuel does not last.
    unfoldable pub extract_items : (fuel : ℕ) → ℕ → List A → W → Option (Call W E (List A))
    unfolding next
    extract_items zero slf v w = none
    extract_items (suc fuel) slf v w = elim (next slf w).0 [
      | ret none ↦ some (ret (ok v), (next slf w).1)
      | ret (some (err e)) ↦ some (ret (err e), (next slf w).1)
      | ret (some (ok item)) ↦ elim (extract item (next slf w).1).0 [
        | ret (ok a) ↦ extract_items fuel slf (v ++ a ∷ []) (extract item (next slf w).1).1
        | ret (err e) ↦ some (ret (err e), (extract item (next slf w).1).1)
        | panic m ↦ some (panic m, (extract item (next slf w).1).1)
      ]
      | panic m ↦ some (panic m, (next slf w).1)
    ]

    pushed : A → Call W E (List A) → Call W E (List A)
    pushed a (ret (ok v), w) = (ret (ok (a ∷ v)), w)
    pushed a (ret (err e), w) = (ret (err e), w)
    pushed a (panic m, w) = (panic m, w)

    -- The loop of `extract_sequence_into_slice`: the slice is asked first.
    unfoldable pub fill_slice : List A → ℕ → W → Call W E (List A)
    unfolding next pushed
    fill_slice [] slf w = (ret (ok []), w)
    fill_slice (value ∷ slice) slf w = elim (next slf w).0 [
      | ret none ↦ (ret (ok (value ∷ slice)), (next slf w).1)
      | ret (some (err e)) ↦ (ret (err e), (next slf w).1)
      | ret (some (ok item)) ↦ elim (extract item (next slf w).1).0 [
        | ret (ok a) ↦ pushed a (fill_slice slice slf (extract item (next slf w).1).1)
        | ret (err e) ↦ (ret (err e), (extract item (next slf w).1).1)
        | panic m ↦ (panic m, (extract item (next slf w).1).1)
      ]
      | panic m ↦ (panic m, (next slf w).1)
    ]

    refused : W → Call W E (List A)
    refused w = (ret (err (i.downcast_error w).0), (i.downcast_error w).1)

    -- The drop of the iterator, also where a panic unwinds.
    drop_iterator : ℕ → Call W E (List A) → Call W E (List A)
    drop_iterator slf (r, w) = (r, c.decref slf w)

    looped :
        (ℕ → W → Option (Call W E (List A))) → Outcome (Option ℕ) × W → Option (Call W E (List A))
    unfolding refused drop_iterator
    looped body (ret (some slf), w) = then_some (body slf w) (λ q. some (drop_iterator slf q))
    looped body (ret none, w) = some (refused w)
    looped body (panic m, w) = some (panic m, w)

    -- `unwrap_or(0)` drops an error of the length.
    sized : Option ℕ × W → Outcome ℕ × W
    unfolding fetch_and_drop
    sized (some n, w) = (ret n, w)
    sized (none, w) = elim (fetch_and_drop (f.fetch w)).0 [
      | ret o ↦ (ret 0, (fetch_and_drop (f.fetch w)).1)
      | panic m ↦ (panic m, (fetch_and_drop (f.fetch w)).1)
    ]

    iterated : (fits : ℕ → Bool) → (fuel obj : ℕ) → Outcome ℕ × W → Option (Call W E (List A))
    unfolding looped extract_items from_object
    iterated fits fuel obj (ret n, w) =
        if fits n
        then looped (λ slf. extract_items fuel slf []) (from_object obj w)
        else some (panic "capacity overflow", w)
    iterated fits fuel obj (panic m, w) = some (panic m, w)

    -- `fits` is the test of `Vec::with_capacity`.
    unfoldable pub extract_sequence :
        (fits : ℕ → Bool) → (fuel obj : ℕ) → W → Option (Call W E (List A))
    unfolding refused sized iterated
    extract_sequence fits fuel obj w =
        if i.sequence_check obj w
        then iterated fits fuel obj (sized (i.sequence_size obj w))
        else some (refused w)

    filled_from : List A → Outcome (Option ℕ) × W → Call W E (List A)
    unfolding refused drop_iterator fill_slice
    filled_from slice (ret (some slf), w) = drop_iterator slf (fill_slice slice slf w)
    filled_from slice (ret none, w) = refused w
    filled_from slice (panic m, w) = (panic m, w)

    checked_size : List A → (obj : ℕ) → Option ℕ × W → Call W E (List A)
    unfolding filled_from from_object fetched
    checked_size slice obj (none, w) = fetched c f (f.fetch w)
    checked_size slice obj (some n, w) =
        if n == length slice
        then filled_from slice (from_object obj w)
        else (ret (err (i.length_error w).0), (i.length_error w).1)

    -- The slice that the caller then has, or an error.
    unfoldable pub extract_sequence_into_slice : List A → (obj : ℕ) → W → Call W E (List A)
    unfolding refused checked_size
    extract_sequence_into_slice slice obj w =
        if i.sequence_check obj w then checked_size slice obj (i.sequence_size obj w) else refused w
