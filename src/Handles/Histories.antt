-- ===== src/Handles/Histories.antt =====
-- Any history of the operations on `Py<T>` and `PyObject` (src/instance.rs, src/object.rs): what
-- each makes, copies, gives away or drops.
use pyo.Base.{
  ℕ, zero, suc, ◌+◌, ◌≡◌, refl, sym, ap, arith, List, [], ◌∷◌, Option, none, some, then_some,
  then_some_inv, some-injective,
}
use pyo.Refcount.{one, count}
use pyo.Handles.{
  Counting, SameWord, IsCounted, from_borrowed_ptr, clone_ref, to_object, clone, drop_handle,
}

-- The handles that are alive, and the pointers that own a reference and no handle has.
pub record Held (W : Type 0) : Type 0 where
  pub handles : List ℕ
  pub pointers : List ℕ
  pub world : W

-- An operation names a handle or a pointer by its place in its list.
pub data Operation : Type 0 where
  borrows : ℕ → Operation
  owns : ℕ → Operation
  clones_ref : ℕ → Operation
  converts : ℕ → Operation
  clones : ℕ → Operation
  drops : ℕ → Operation
  gives : ℕ → Operation

-- An element and the others.
unfoldable pub take_at : ℕ → List ℕ → Option (ℕ × List ℕ)
take_at n [] = none
take_at zero (x ∷ xs) = some (x, xs)
take_at (suc n) (x ∷ xs) = then_some (take_at n xs) (λ p. some (p.0, x ∷ p.1))

module _ {W : Type 0} (c : Counting W) where
  -- A new handle from a copying operation.
  copied : (ℕ → W → ℕ × W) → Held W → ℕ × List ℕ → Option (Held W)
  copied copy s (slf, rest) =
      let (new, w) = copy slf s.world in some (record s { handles = new ∷ s.handles; world = w })

  -- `Drop`.
  dropped : Held W → ℕ × List ℕ → Option (Held W)
  unfolding drop_handle
  dropped s (slf, rest) = some (record s { handles = rest; world = drop_handle c slf s.world })

  -- `into_ptr` forgets the handle, and `from_owned_ptr` makes one of a pointer.
  given : Held W → ℕ × List ℕ → Option (Held W)
  given s (slf, rest) = some (record s { handles = rest; pointers = slf ∷ s.pointers })

  taken : Held W → ℕ × List ℕ → Option (Held W)
  taken s (ptr, rest) = some (record s { handles = ptr ∷ s.handles; pointers = rest })

  -- `none` for a handle or pointer that is not there, which Rust code cannot name.
  unfoldable pub perform : Operation → Held W → Option (Held W)
  unfolding copied dropped given taken from_borrowed_ptr clone_ref to_object clone take_at
  perform (borrows ptr) s = copied (from_borrowed_ptr c) s (ptr, [])
  perform (owns n) s = then_some (take_at n s.pointers) (taken s)
  perform (clones_ref n) s = then_some (take_at n s.handles) (copied (clone_ref c) s)
  perform (converts n) s = then_some (take_at n s.handles) (copied (to_object c) s)
  perform (clones n) s = then_some (take_at n s.handles) (copied (clone c) s)
  perform (drops n) s = then_some (take_at n s.handles) (dropped s)
  perform (gives n) s = then_some (take_at n s.handles) (given s)

  unfoldable pub perform_all : List Operation → Held W → Option (Held W)
  unfolding perform
  perform_all [] s = some s
  perform_all (op ∷ ops) s = then_some (perform op s) (perform_all ops)

-- The element that is taken, and the others, are those of the list.
count-take_at :
    (o n : ℕ) (xs : List ℕ) (x : ℕ) (rest : List ℕ)
    → take_at n xs ≡ some (x, rest)
    → count o xs ≡ one o x + count o rest
unfolding take_at
count-take_at o n [] x rest h = absurd (ground (arith, h))
count-take_at o zero (y ∷ ys) x rest h =
    let e = some-injective _ _ h in rw (sym (ap (λ p. p.0) e), sym (ap (λ p. p.1) e)) refl
count-take_at o (suc n) (y ∷ ys) x rest h =
    let (p, found, e) = then_some_inv (take_at n ys) _ _ h in
    let e' = some-injective _ _ e in
    rw (sym (ap (λ q. q.0) e'), sym (ap (λ q. q.1) e'))
      (omega (arith, count-take_at o n ys p.0 p.1 found))

module _ {W : Type 0} (c : Counting W) (owed : ℕ → W → ℕ) (counted : IsCounted c owed) (o : ℕ) where
  -- What the handles and the pointers own.
  abbrev held : Held W → ℕ
  held s = count o s.handles + count o s.pointers

  -- Each reference that an operation makes has a handle, and each that it gives back had one.
  abbrev Balanced : Held W → Held W → Type 0
  Balanced s s' = SameWord (owed o s'.world + held s) (owed o s.world + held s')

  Balanced-found :
      (n : ℕ) (xs : List ℕ) (f : ℕ × List ℕ → Option (Held W)) (s s' : Held W)
      → ((x : ℕ) (rest : List ℕ) (u : Held W)
          → count o xs ≡ one o x + count o rest
          → f (x, rest) ≡ some u
          → Balanced s u)
      → then_some (take_at n xs) f ≡ some s'
      → Balanced s s'
  Balanced-found n xs f s s' each h =
      let (p, found, made) = then_some_inv (take_at n xs) f s' h in
      each p.0 p.1 s' (count-take_at o n xs p.0 p.1 found) made

  Balanced-copies :
      (n : ℕ) (copy : ℕ → W → ℕ × W) (s s' : Held W)
      → ((x : ℕ) (w : W) → (copy x w).0 ≡ x)
      → ((x : ℕ) (w : W) → SameWord (owed o (copy x w).1) (owed o w + one o x))
      → then_some (take_at n s.handles) (copied c copy s) ≡ some s'
      → Balanced s s'
  unfolding copied
  Balanced-copies n copy s s' same_object law h =
      Balanced-found n s.handles (copied c copy s) s s'
        (λ x rest u e made.
          rw (sym (some-injective _ _ made), same_object x s.world) (omega (arith, law x s.world)))
        h

  Balanced-perform : (op : Operation) (s s' : Held W) → perform c op s ≡ some s' → Balanced s s'
  unfolding perform copied dropped given taken from_borrowed_ptr clone_ref to_object clone
      drop_handle
  Balanced-perform (borrows ptr) s s' h =
      rw (sym (some-injective _ _ h)) (omega (arith, counted.owed-incref o ptr s.world))
  Balanced-perform (owns n) s s' h =
      Balanced-found n s.pointers (taken c s) s s'
        (λ x rest u e made. rw (sym (some-injective _ _ made)) (omega (arith, e))) h
  Balanced-perform (clones_ref n) s s' h =
      Balanced-copies n (clone_ref c) s s' (λ x w. refl) (counted.owed-incref o) h
  Balanced-perform (converts n) s s' h =
      Balanced-copies n (to_object c) s s' (λ x w. refl) (counted.owed-incref o) h
  Balanced-perform (clones n) s s' h =
      Balanced-copies n (clone c) s s' (λ x w. refl) (counted.owed-register_incref o) h
  Balanced-perform (drops n) s s' h =
      Balanced-found n s.handles (dropped c s) s s'
        (λ x rest u e made.
          rw (sym (some-injective _ _ made))
            (omega (arith, e, counted.owed-register_decref o x s.world)))
        h
  Balanced-perform (gives n) s s' h =
      Balanced-found n s.handles (given c s) s s'
        (λ x rest u e made. rw (sym (some-injective _ _ made)) (omega (arith, e))) h

  -- After any history, the references to an object have grown by as many as the handles and pointers
  -- to it have.
  pub owed-perform_all :
      (ops : List Operation) (s s' : Held W)
      → perform_all c ops s ≡ some s'
      → SameWord
          (owed o s'.world + count o s.handles + count o s.pointers)
          (owed o s.world + count o s'.handles + count o s'.pointers)
  unfolding perform_all
  owed-perform_all [] s s' h = rw (sym (some-injective _ _ h)) refl
  owed-perform_all (op ∷ ops) s s' h =
      let (u, done, rest) = then_some_inv (perform c op s) (perform_all c ops) s' h in
      omega (arith, Balanced-perform op s u done, owed-perform_all ops u s' rest)
