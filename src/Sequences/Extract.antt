-- ===== src/Sequences/Extract.antt =====
-- The loops of src/types/sequence.rs end, and what they give.
use pyo.Base.{
  ℕ, zero, suc, ◌≤◌, ◌≡◌, ◌≢◌, refl, sym, ap, ◌∙◌, arith, Bool, true, false, Option, none, some,
  List, [], ◌∷◌, ◌++◌, length, take, drop, ret, panic, Result, ok, err, Result-cases, inl, inr,
  then_ok, not_null, ==-same, ret-injective, some-injective,
}
use mathlib.Core.List.{append-nil, append_assoc}
use pyo.Handles.{Counting, Functions}
use pyo.Sequences.{
  Iteration, Call, next, extract_items, fill_slice, pushed, extract_sequence, iterated, looped,
  sized, from_object, drop_iterator, checked_size, filled_from, extract_sequence_into_slice,
}

-- What each item is read as, up to the first error.
abbrev pub read_all : {A E : Type 0} → (ℕ → Result A E) → List ℕ → Result (List A) E
read_all read [] = ok []
read_all read (x ∷ xs) = then_ok (read x) (λ a. then_ok (read_all read xs) (λ v. ok (a ∷ v)))

-- An iterator over a finite list: `items` are those that it has still to give.
pub record IsFinite {W E A : Type 0} (c : Counting W) (i : Iteration W E)
    (extract : ℕ → W → Call W E A) (read : ℕ → Result A E) (items : ℕ → W → List ℕ) : Type 0 where
  pub next_item :
      (slf : ℕ) (w : W) (x : ℕ) (xs : List ℕ)
      → items slf w ≡ x ∷ xs
      → ((i.iter_next slf w).0 ≡ x) × (x ≢ 0) × (items slf (i.iter_next slf w).1 ≡ xs)
  pub next_end :
      (slf : ℕ) (w : W)
      → items slf w ≡ []
      → ((i.iter_next slf w).0 ≡ 0) × (i.occurred (i.iter_next slf w).1 ≡ false)
  pub items-register_owned : (slf x : ℕ) (w : W) → items slf (c.register_owned x w) ≡ items slf w
  pub extracted : (x : ℕ) (w : W) → (extract x w).0 ≡ ret (read x)
  pub items-extract : (slf x : ℕ) (w : W) → items slf (extract x w).1 ≡ items slf w

then_ok-pushed :
    {A E : Type 0} (v : List A) (a : A) (r : Result (List A) E)
    → then_ok r (λ u. ok (v ++ a ∷ [] ++ u))
      ≡ then_ok (then_ok r (λ u. ok (a ∷ u))) (λ u. ok (v ++ u))
then_ok-pushed v a (ok u) = ap ok (append_assoc v (a ∷ []) u)
then_ok-pushed v a (err e) = refl

then_ok-overwritten :
    {A E : Type 0} (a value : A) (slice : List A) (r : Result (List A) E)
    → then_ok (then_ok r (λ v. ok (v ++ drop (length v) slice))) (λ v. ok (a ∷ v))
      ≡ then_ok (then_ok r (λ v. ok (a ∷ v))) (λ v. ok (v ++ drop (length v) (value ∷ slice)))
then_ok-overwritten a value slice (ok u) = refl
then_ok-overwritten a value slice (err e) = refl

then_ok-ok : {A E : Type 0} (r : Result A E) → then_ok r (λ v. ok v) ≡ r
then_ok-ok (ok v) = refl
then_ok-ok (err e) = refl

module _ {W E A : Type 0} (c : Counting W) (f : Functions W E) (i : Iteration W E)
    (extract : ℕ → W → Call W E A) (read : ℕ → Result A E) (items : ℕ → W → List ℕ)
    (finite : IsFinite c i extract read items) where
  next-item :
      (slf : ℕ) (w : W) (x : ℕ) (xs : List ℕ)
      → items slf w ≡ x ∷ xs
      → ((next c f i slf w).0 ≡ ret (some (ok x))) × (items slf (next c f i slf w).1 ≡ xs)
  unfolding next
  next-item slf w x xs h =
      let (e, object, rest) = finite.next_item slf w x xs h in
      rw (e, not_null x object) (refl, finite.items-register_owned slf x _ ∙ rest)

  next-end : (slf : ℕ) (w : W) → items slf w ≡ [] → (next c f i slf w).0 ≡ ret none
  unfolding next
  next-end slf w h = let (e, quiet) = finite.next_end slf w h in rw (e, quiet) refl

  -- What was there before, then what each item is read as.
  extract_items-read_all :
      (xs : List ℕ) (fuel slf : ℕ) (v : List A) (w : W)
      → items slf w ≡ xs
      → suc (length xs) ≤ fuel
      → (w' : W) × (extract_items c f i extract fuel slf v w
          ≡ some (ret (then_ok (read_all read xs) (λ v'. ok (v ++ v'))), w'))
  unfolding extract_items
  extract_items-read_all xs zero slf v w h l = absurd (omega (arith, l))
  extract_items-read_all [] (suc fuel) slf v w h l =
      ((next c f i slf w).1, rw (next-end slf w h, next, extract_items, append-nil v) refl)
  extract_items-read_all (x ∷ xs) (suc fuel) slf v w h l =
      let (e, rest) = next-item slf w x xs h in
      elim (Result-cases (read x)) [
        | inl (a, good) ↦
            let (w', returned) =
              extract_items-read_all xs fuel slf (v ++ a ∷ []) (extract x (next c f i slf w).1).1
                (finite.items-extract slf x (next c f i slf w).1 ∙ rest) (omega (arith, l)) in
            (
              w',
              rw (e, next, extract_items, finite.extracted x (next c f i slf w).1, good)
                  (returned ∙ ap (λ r. some (ret r, w')) (then_ok-pushed v a (read_all read xs))),
            )
        | inr (bad, failed) ↦ (
          (extract x (next c f i slf w).1).1,
          rw (e, next, extract_items, finite.extracted x (next c f i slf w).1, failed) refl,
        )
      ]

  pushed-result :
      (a : A) (q : Call W E (List A)) (r : Result (List A) E)
      → q.0 ≡ ret r
      → (pushed c f i extract a q).0 ≡ ret (then_ok r (λ v. ok (a ∷ v)))
  unfolding pushed
  pushed-result a (ret (ok u), w) r h = rw (sym (ret-injective _ _ h)) refl
  pushed-result a (ret (err e), w) r h = rw (sym (ret-injective _ _ h)) refl
  pushed-result a (panic m, w) r h = absurd (ground (arith, h))

  fill_slice-read_all :
      (slice : List A) (xs : List ℕ) (slf : ℕ) (w : W)
      → items slf w ≡ xs
      → (fill_slice c f i extract slice slf w).0
        ≡ ret (
            then_ok (read_all read (take (length slice) xs)) (λ v. ok (v ++ drop (length v) slice)))
  unfolding fill_slice
  fill_slice-read_all [] xs slf w h = refl
  fill_slice-read_all (value ∷ slice) [] slf w h = rw (next-end slf w h, next, fill_slice) refl
  fill_slice-read_all (value ∷ slice) (x ∷ xs) slf w h =
      let (e, rest) = next-item slf w x xs h in
      elim (Result-cases (read x)) [
        | inl (a, good) ↦
            rw (e, next, fill_slice, finite.extracted x (next c f i slf w).1, good)
              (pushed-result a
                  (fill_slice c f i extract slice slf (extract x (next c f i slf w).1).1) _
                  (fill_slice-read_all slice xs slf (extract x (next c f i slf w).1).1
                    (finite.items-extract slf x (next c f i slf w).1 ∙ rest))
                ∙ ap ret
                    (then_ok-overwritten a value slice (read_all read (take (length slice) xs))))
        | inr (bad, failed) ↦
            rw (e, next, fill_slice, finite.extracted x (next c f i slf w).1, failed) refl
      ]

  sized-some : (q : Option ℕ × W) (n : ℕ) → q.0 ≡ some n → sized c f i extract q ≡ (ret n, q.1)
  unfolding sized
  sized-some (none, w) n h = absurd (ground (arith, h))
  sized-some (some m, w) n h = rw (some-injective _ _ h) refl

  from_object-some :
      (obj slf : ℕ) (w : W)
      → (i.get_iter obj w).0 ≡ slf
      → slf ≢ 0
      → i.iter_check slf (i.get_iter obj w).1 ≡ true
      → from_object c f i obj w ≡ (ret (some slf), (i.get_iter obj w).1)
  unfolding from_object
  from_object-some obj slf w iter object is_iter = rw (iter, not_null slf object, is_iter) refl

  -- Take an object that passes for a sequence, tells a length that a vector can have, and gives an
  -- iterator with finitely many items, each of which `extract` reads or refuses without a panic. Then
  -- `extract_sequence` returns after at most one round of its loop more than there are items: it gives
  -- what they are read as in their order, or else the first error, and releases the iterator.
  pub extract_sequence-read_all :
      (fits : ℕ → Bool) (fuel obj n slf : ℕ) (w : W)
      → i.sequence_check obj w ≡ true
      → (i.sequence_size obj w).0 ≡ some n
      → fits n ≡ true
      → (i.get_iter obj (i.sequence_size obj w).1).0 ≡ slf
      → slf ≢ 0
      → i.iter_check slf (i.get_iter obj (i.sequence_size obj w).1).1 ≡ true
      → suc (length (items slf (i.get_iter obj (i.sequence_size obj w).1).1)) ≤ fuel
      → (w' : W) × (extract_sequence c f i extract fits fuel obj w
          ≡ some (
            ret (read_all read (items slf (i.get_iter obj (i.sequence_size obj w).1).1)),
            c.decref slf w',
          ))
  unfolding extract_sequence iterated looped sized from_object drop_iterator
  extract_sequence-read_all fits fuel obj n slf w is_sequence size room iter object is_iter l =
      let w1 = (i.sequence_size obj w).1 in
      let w2 = (i.get_iter obj w1).1 in
      let (w', returned) = extract_items-read_all (items slf w2) fuel slf [] w2 refl l in
      (
        w',
        rw
            (
              is_sequence,
              sized-some (i.sequence_size obj w) n size,
              room,
              from_object-some obj slf w1 iter object is_iter,
              returned,
              looped,
              then_ok-ok (read_all read (items slf w2)),
            )
            refl,
      )

  checked_size-some :
      (slice : List A) (obj : ℕ) (q : Option ℕ × W)
      → q.0 ≡ some (length slice)
      → checked_size c f i extract slice obj q
        ≡ filled_from c f i extract slice (from_object c f i obj q.1)
  unfolding checked_size
  checked_size-some slice obj (none, w) h = absurd (ground (arith, h))
  checked_size-some slice obj (some n, w) h = rw (some-injective _ _ h, ==-same (length slice)) refl

  -- For an object that passes for a sequence, tells the length of the slice and gives an iterator
  -- whose items `extract` reads or refuses without a panic, `extract_sequence_into_slice` reads as many
  -- items as there is room for in their order, or gives the first error. Where the iterator has fewer
  -- items, the rest of the slice stays as it is, and no error is given.
  pub into_slice-read_all :
      (slice : List A) (obj slf : ℕ) (w : W)
      → i.sequence_check obj w ≡ true
      → (i.sequence_size obj w).0 ≡ some (length slice)
      → (i.get_iter obj (i.sequence_size obj w).1).0 ≡ slf
      → slf ≢ 0
      → i.iter_check slf (i.get_iter obj (i.sequence_size obj w).1).1 ≡ true
      → (extract_sequence_into_slice c f i extract slice obj w).0
        ≡ ret (
            then_ok
              (read_all read
                (take (length slice) (items slf (i.get_iter obj (i.sequence_size obj w).1).1)))
              (λ v. ok (v ++ drop (length v) slice)))
  unfolding extract_sequence_into_slice filled_from drop_iterator
  into_slice-read_all slice obj slf w is_sequence size iter object is_iter =
      let w1 = (i.sequence_size obj w).1 in
      rw
        (
          is_sequence,
          checked_size-some slice obj (i.sequence_size obj w) size,
          from_object-some obj slf w1 iter object is_iter,
          filled_from,
        )
        (fill_slice-read_all slice (items slf (i.get_iter obj w1).1) slf (i.get_iter obj w1).1 refl)
