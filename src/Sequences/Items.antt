-- ===== src/Sequences/Items.antt =====
-- `PyList::get_item` of src/types/list.rs at any index.
use pyo.Base.{
  ℕ, zero, suc, ◌≡◌, ◌≢◌, refl, arith, true, false, inl, inr, ltb, if◌then◌else◌, Option,
  Option-cases, none, some, List, [], ◌∷◌, length, get_elem?, Outcome, ret, panic, ℤ, pos, negsuc,
  not_null,
}
use pyo.Handles.{Counting, Functions}
use pyo.Sequences.{Iteration, Execution, runs, null_access, get_item}

-- `PyList_GetItem` gives null for an index that is negative or past the end.
pub record IsList {W E : Type 0} (i : Iteration W E) (items : ℕ → W → List ℕ) : Type 0 where
  pub size : (slf : ℕ) (w : W) → i.list_size slf w ≡ length (items slf w)
  pub item :
      (slf k x : ℕ) (w : W)
      → get_elem? (items slf w) k ≡ some x
      → (i.list_get_item slf (pos k) w ≡ x) × (x ≢ 0)
  pub negative : (slf k : ℕ) (w : W) → i.list_get_item slf (negsuc k) w ≡ 0

some_in_range :
    {A : Type 0} (xs : List A) (k : ℕ) (x : A) → get_elem? xs k ≡ some x → ltb k (length xs) ≡ true
some_in_range [] k x h = absurd (ground (arith, h))
some_in_range (y ∷ ys) zero x h = ground arith
some_in_range (y ∷ ys) (suc k) x h = ground (arith, some_in_range ys k x h)

none_out_of_range :
    {A : Type 0} (xs : List A) (k : ℕ) → get_elem? xs k ≡ none → ltb k (length xs) ≡ false
none_out_of_range [] k h = ground arith
none_out_of_range (y ∷ ys) zero h = absurd (ground (arith, h))
none_out_of_range (y ∷ ys) (suc k) h = ground (arith, none_out_of_range ys k h)

module _ {W E : Type 0} (c : Counting W) (f : Functions W E) (i : Iteration W E) where
  -- The pool owns a new reference to an item.
  abbrev found : W → Option ℕ → Execution (Outcome ℕ × W)
  found w (some x) = runs (ret x, c.register_owned x (c.incref x w))
  found w none = runs (panic "assertion failed", w)

  abbrev pub item_result : List ℕ → ℤ → W → Execution (Outcome ℕ × W)
  item_result xs (pos k) w = found w (get_elem? xs k)
  item_result xs (negsuc k) w =
      if ltb (suc k) (length xs) then null_access else runs (panic "assertion failed", w)

  -- `get_item` returns the item at an index that is not negative and less than the length, and the
  -- pool owns it. Where the absolute value of the index is not less than the length, the assertion
  -- fails and nothing has changed; but at a negative index that the assertion lets through, `Py_INCREF`
  -- writes through the null pointer.
  pub get_item_lem :
      (items : ℕ → W → List ℕ) (slf : ℕ) (index : ℤ) (w : W)
      → IsList i items
      → get_item c f i slf index w ≡ item_result (items slf w) index w
  unfolding get_item
  get_item_lem items slf (pos k) w list = elim (Option-cases (get_elem? (items slf w) k)) [
    | inl missing ↦ rw (list.size slf w, none_out_of_range (items slf w) k missing, missing) refl
    | inr (x, h) ↦
        let (e, object) = list.item slf k x w h in
        rw (list.size slf w, some_in_range (items slf w) k x h, h, e, not_null x object) refl
  ]
  get_item_lem items slf (negsuc k) w list = rw (list.size slf w, list.negative slf k w) refl
