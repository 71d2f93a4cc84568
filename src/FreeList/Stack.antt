-- ===== src/FreeList/Stack.antt =====
-- The free list of src/freelist.rs against a bounded stack.
use pyo.Base.{
  ℕ, suc, ◌+◌, ◌-◌, ◌≤◌, ◌<◌, ◌≡◌, refl, false, List, [], ◌∷◌, Option, none, some, arith, ltb,
  if◌then◌else◌, length, get_elem?, set, replicate, isize_max, usize_add, ltb→lt, Outcome, ret,
  Bool-cases, inl, inr,
}
use pyo.FreeList.{Slot, empty, filled, FreeList, with_capacity, pop, insert}

module _ {ℓ} {A : Type ℓ} where
  -- The slots of a stack whose top is the head of the list, in front of `rest`.
  abbrev pub slots : List A → List (Slot A) → List (Slot A)
  slots [] rest = rest
  slots (x ∷ xs) rest = slots xs (filled x ∷ rest)

  get_elem?-slots :
      (xs : List A) (rest : List (Slot A)) (i : ℕ)
      → get_elem? (slots xs rest) (length xs + i) ≡ get_elem? rest i
  get_elem?-slots [] rest i = ground arith
  get_elem?-slots (x ∷ xs) rest i = ground (arith, get_elem?-slots xs (filled x ∷ rest) (suc i))

  set-slots :
      (xs : List A) (rest : List (Slot A)) (i : ℕ) (v : Slot A)
      → set (slots xs rest) (length xs + i) v ≡ slots xs (set rest i v)
  set-slots [] rest i v = ground arith
  set-slots (x ∷ xs) rest i v = ground (arith, set-slots xs (filled x ∷ rest) (suc i) v)

  -- The list holds the stack `xs`, and the rest of its slots are empty.
  pub record Represents (l : FreeList A) (xs : List A) : Type ℓ where
    pub room : ℕ
    pub laid : l.entries ≡ slots xs (replicate room empty)
    pub at_top : l.split ≡ length xs
    pub fits : length xs + room ≡ l.capacity
    pub small : l.capacity ≤ isize_max

  pub with_capacity-Represents : (c : ℕ) → c ≤ isize_max → Represents (with_capacity c) []
  unfolding with_capacity
  with_capacity-Represents c h = record {
    room = c;
    laid = refl;
    at_top = refl;
    fits = omega arith;
    small = h;
  }

  abbrev pub stack_pop : List A → Option A × List A
  stack_pop [] = (none, [])
  stack_pop (x ∷ xs) = (some x, xs)

  -- One slot of the capacity always stays free.
  abbrev pub stack_insert : ℕ → A → List A → Option A × List A
  stack_insert c v xs = if ltb (length xs + 1) c then (none, v ∷ xs) else (some v, xs)

  -- The call returns `out` and leaves a list that holds `xs` and has capacity `c`.
  pub record Yields (r : Outcome (Option A × FreeList A)) (c : ℕ) (p : Option A × List A)
      : Type ℓ where
    pub after : FreeList A
    pub returned : r ≡ ret (p.0, after)
    pub holds : Represents after p.1
    pub same : after.capacity ≡ c

  get_elem?-top :
      (l : FreeList A) (x : A) (xs : List A)
      → Represents l (x ∷ xs)
      → get_elem? l.entries (length xs) ≡ some (filled x)
  get_elem?-top l x xs h =
      rw h.laid (ground (arith, get_elem?-slots xs (filled x ∷ replicate h.room empty) 0))

  set-top :
      (l : FreeList A) (x : A) (xs : List A) (h : Represents l (x ∷ xs))
      → set l.entries (length xs) empty ≡ slots xs (replicate (suc h.room) empty)
  set-top l x xs h =
      rw h.laid (ground (arith, set-slots xs (filled x ∷ replicate h.room empty) 0 empty))

  pub pop-Yields :
      (l : FreeList A) (xs : List A) → Represents l xs → Yields (pop l) l.capacity (stack_pop xs)
  unfolding pop
  pop-Yields l [] h = record { after = l; returned = ground arith; holds = h; same = refl }
  pop-Yields l (x ∷ xs) h = record {
    after = record l { entries = set l.entries (length xs) empty; split = length xs };
    returned = ground (arith, get_elem?-top l x xs h);
    holds = record {
      room = suc h.room;
      laid = set-top l x xs h;
      at_top = refl;
      fits = omega arith;
      small = h.small;
    };
    same = refl;
  }

  module _ (l : FreeList A) (v : A) (xs : List A) (h : Represents l xs) where
    first_empty : length xs + 1 < l.capacity → h.room ≡ suc (h.room - 1)
    first_empty fits = omega arith

    get_elem?-first : length xs + 1 < l.capacity → get_elem? l.entries l.split ≡ some empty
    get_elem?-first fits =
        rw (h.laid, h.at_top)
          (ground (arith, first_empty fits, get_elem?-slots xs (replicate h.room empty) 0))

    set-first :
        length xs + 1 < l.capacity
        → set l.entries l.split (filled v) ≡ slots (v ∷ xs) (replicate (h.room - 1) empty)
    set-first fits =
        rw (h.laid, h.at_top)
          (ground (arith, first_empty fits, set-slots xs (replicate h.room empty) 0 (filled v)))

    insert_fits : length xs + 1 < l.capacity → Yields (insert v l) l.capacity (none, v ∷ xs)
    unfolding insert
    insert_fits fits = record {
      after = record l { entries = set l.entries l.split (filled v); split = usize_add l.split 1 };
      returned = ground (arith, get_elem?-first fits);
      holds = record {
        room = h.room - 1;
        laid = set-first fits;
        at_top = omega arith;
        fits = omega arith;
        small = h.small;
      };
      same = refl;
    }

    insert_full :
        ltb (length xs + 1) l.capacity ≡ false → Yields (insert v l) l.capacity (some v, xs)
    unfolding insert
    insert_full full = record { after = l; returned = ground arith; holds = h; same = refl }

  pub insert-Yields :
      (l : FreeList A) (v : A) (xs : List A)
      → Represents l xs
      → Yields (insert v l) l.capacity (stack_insert l.capacity v xs)
  insert-Yields l v xs h = elim (Bool-cases (ltb (length xs + 1) l.capacity)) [
    | inl fits ↦ rw fits (insert_fits l v xs h (ltb→lt _ _ fits))
    | inr full ↦ rw full (insert_full l v xs h full)
  ]
