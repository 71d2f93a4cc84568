-- ===== src/Sequences/Examples.antt =====
-- Lists and iterators of a small memory.
use pyo.Base.{
  ℕ, zero, suc, ◌≡◌, ◌≢◌, refl, true, false, ◌==◌, if◌then◌else◌, Option, none, some, List, [], ◌∷◌,
  length, get_elem?, ret, Result, ok, err, ℤ, pos, negsuc, arith,
}
use pyo.Handles.{Counting, Functions}
use pyo.Sequences.{
  null_access, Iteration, Call, get_item, extract_sequence, fill_slice, extract_sequence_into_slice,
}
use pyo.Sequences.Extract.{IsFinite, extract_sequence-read_all, into_slice-read_all}
use pyo.Sequences.Items.{IsList, get_item_lem}

-- The state is the items that the one iterator has left; the list has the same, with 1 added.
abbrev Rest : Type 0
Rest = List ℕ

abbrev counting : Counting Rest
counting = record {
  incref = λ o w. w;
  decref = λ o w. w;
  register_incref = λ o w. w;
  register_decref = λ o w. w;
  register_owned = λ o w. w;
}

abbrev functions : Functions Rest ℕ
functions = record {
  fetch = λ w. (ret 3, w);
  print_error = λ w. w;
  get_attr = λ obj name w. (0, w);
  call_object = λ callable args kwargs w. (0, w);
  rich_compare = λ obj other op w. (0, w);
  object_is_true = λ obj w. (none, w);
  set_attr = λ obj name value w. (false, w);
}

abbrev advanced : Rest → ℕ × Rest
advanced [] = (0, [])
advanced (x ∷ xs) = (suc x, xs)

abbrev shifted : Rest → List ℕ
shifted [] = []
shifted (x ∷ xs) = suc x ∷ shifted xs

abbrev element : Option ℕ → ℕ
element none = 0
element (some x) = x

abbrev at_index : ℤ → List ℕ → ℕ
at_index (pos k) xs = element (get_elem? xs k)
at_index (negsuc k) xs = 0

abbrev iteration : Iteration Rest ℕ
iteration = record {
  occurred = λ w. false;
  drop_error = λ e w. w;
  downcast_error = λ w. (1, w);
  length_error = λ w. (2, w);
  sequence_check = λ obj w. true;
  sequence_size = λ obj w. (some (length w), w);
  get_iter = λ obj w. (5, w);
  iter_check = λ slf w. true;
  iter_next = λ slf w. advanced w;
  list_size = λ slf w. length (shifted w);
  list_get_item = λ slf index w. at_index index (shifted w);
}

-- 7 cannot be read.
abbrev read : ℕ → Result ℕ ℕ
read x = if x == 7 then err 9 else ok x

abbrev extract : ℕ → Rest → Call Rest ℕ ℕ
extract x w = (ret (read x), w)

shifted_item :
    (w : Rest) (x : ℕ) (xs : List ℕ)
    → shifted w ≡ x ∷ xs
    → ((advanced w).0 ≡ x) × (x ≢ 0) × (shifted (advanced w).1 ≡ xs)
shifted_item [] x xs h = absurd (ground (arith, h))
shifted_item (y ∷ ys) x xs h = ground (arith, h)

shifted_end : (w : Rest) → shifted w ≡ [] → (advanced w).0 ≡ 0
shifted_end [] h = refl
shifted_end (y ∷ ys) h = absurd (ground (arith, h))

element-shifted :
    (w : Rest) (k x : ℕ)
    → get_elem? (shifted w) k ≡ some x
    → (element (get_elem? (shifted w) k) ≡ x) × (x ≢ 0)
element-shifted [] k x h = absurd (ground (arith, h))
element-shifted (y ∷ ys) zero x h = ground (arith, h)
element-shifted (y ∷ ys) (suc k) x h = element-shifted ys k x h

iteration-IsFinite : IsFinite counting iteration extract read (λ slf w. shifted w)
iteration-IsFinite = record {
  next_item = λ slf w. shifted_item w;
  next_end = λ slf w. (λ h. (shifted_end w h, refl));
  items-register_owned = λ slf x w. refl;
  extracted = λ x w. refl;
  items-extract = λ slf x w. refl;
}

iteration-IsList : IsList iteration (λ slf w. shifted w)
iteration-IsList = record {
  size = λ slf w. refl;
  item = λ slf k x w. element-shifted w k x;
  negative = λ slf k w. refl;
}

extract_sequence-read_all_example :
    (w' : Rest) × (extract_sequence counting functions iteration extract
        (λ n. true)
        3
        4
        (1 ∷ 2 ∷ [])
      ≡ some (ret (ok (2 ∷ 3 ∷ [])), w'))
extract_sequence-read_all_example =
    extract_sequence-read_all counting functions iteration extract read (λ slf w. shifted w)
      iteration-IsFinite (λ n. true) 3 4 2 5 (1 ∷ 2 ∷ []) refl refl refl refl
      (λ e. ground (arith, e)) refl (omega arith)

get_item_lem_example : get_item counting functions iteration 4 (negsuc 0) (1 ∷ 2 ∷ []) ≡ null_access
get_item_lem_example =
    get_item_lem counting functions iteration (λ slf w. shifted w) 4 (negsuc 0) (1 ∷ 2 ∷ [])
      iteration-IsList

-- The second element keeps its default.
short_iterator :
    fill_slice counting functions iteration extract (0 ∷ 0 ∷ []) 5 (1 ∷ [])
    ≡ (ret (ok (2 ∷ 0 ∷ [])), [])
unfolding fill_slice
short_iterator = refl

into_slice-read_all_example :
    (extract_sequence_into_slice counting functions iteration extract (0 ∷ 0 ∷ []) 4 (1 ∷ 2 ∷ [])).0
    ≡ ret (ok (2 ∷ 3 ∷ []))
into_slice-read_all_example =
    into_slice-read_all counting functions iteration extract read (λ slf w. shifted w)
      iteration-IsFinite (0 ∷ 0 ∷ []) 4 5 (1 ∷ 2 ∷ []) refl refl refl (λ e. ground (arith, e)) refl
