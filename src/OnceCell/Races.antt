-- ===== src/OnceCell/Races.antt =====
-- Calls of `get_or_init` on one `GILOnceCell` (src/once_cell.rs) by any threads, in any order.
use pyo.Base.{
  ℕ, ◌≡◌, refl, sym, ◌∙◌, arith, ◌⊎◌, inl, inr, Option, none, some, Option-cases, List, [], ◌∷◌,
  ◌++◌, Outcome, ret, panic,
}
use pyo.OnceCell.{OnceCell, get, set, set_inner, finish_init, init_with, get_or_init}

-- One cell, the calls that are inside their closure, and what the others returned.
pub record Shared {ℓ} (A : Type ℓ) : Type ℓ where
  pub cell : OnceCell A
  pub running : List ℕ
  pub returned : List A

module _ {ℓ} {A : Type ℓ} where
  abbrev add_return : Outcome A → List A → List A
  add_return (ret v) vs = v ∷ vs
  add_return (panic s) vs = vs

  -- A call returns at once or enters its closure; a closure ends or panics; and `set` is called.
  pub data Step (s : Shared A) : Shared A → Type ℓ where
    returns : (v : A) → get s.cell ≡ some v → Step s (record s { returned = v ∷ s.returned })
    enters : (id : ℕ) → get s.cell ≡ none → Step s (record s { running = id ∷ s.running })
    finishes :
        (before after : List ℕ) (id : ℕ) (o : Outcome A)
        → s.running ≡ before ++ id ∷ after
        → Step s (record {
          cell = (finish_init o s.cell).1;
          running = before ++ after;
          returned = add_return (finish_init o s.cell).0 s.returned;
        })
    sets : (v : A) → Step s (record s { cell = (set v s.cell).1 })

  pub data Steps (s : Shared A) : Shared A → Type ℓ where
    stays : Steps s s
    then_step : {t u : Shared A} → Steps s t → Step t u → Steps s u

  abbrev pub AllAre : Option A → List A → Type ℓ
  AllAre o [] = Unit
  AllAre o (v ∷ vs) = (o ≡ some v) × AllAre o vs

  AllAre-write :
      (o o' : Option A) (vs : List A)
      → ((v : A) → o ≡ some v → o' ≡ some v)
      → AllAre o vs
      → AllAre o' vs
  AllAre-write o o' [] keep h = tt
  AllAre-write o o' (v ∷ vs) keep (h, hs) = (keep v h, AllAre-write o o' vs keep hs)

  Step-keeps : {s t : Shared A} → Step s t → (v : A) → get s.cell ≡ some v → get t.cell ≡ some v
  unfolding get set set_inner finish_init
  Step-keeps (returns w e) v h = h
  Step-keeps (enters id e) v h = h
  Step-keeps (finishes before after id (ret w) e) v h = rw h refl
  Step-keeps (finishes before after id (panic m) e) v h = h
  Step-keeps (sets w) v h = rw h refl

  -- A value once written stays, whatever any thread does.
  pub written_once :
      {s t : Shared A} → Steps s t → (v : A) → get s.cell ≡ some v → get t.cell ≡ some v
  written_once stays v h = h
  written_once (then_step more st) v h = Step-keeps st v (written_once more v h)

  Step-AllAre :
      {s t : Shared A} → Step s t → AllAre (get s.cell) s.returned → AllAre (get t.cell) t.returned
  unfolding get set set_inner finish_init
  Step-AllAre (returns w e) h = (e, h)
  Step-AllAre (enters id e) h = h
  Step-AllAre {s} (finishes before after id (ret w) e) h = elim (Option-cases s.cell.inner) [
    | inl empty ↦ rw empty (
      refl,
      AllAre-write (get s.cell) (some w) s.returned (λ v k. absurd (ground (arith, sym empty ∙ k)))
          h,
    )
    | inr (v, full) ↦
        rw full (refl, AllAre-write (get s.cell) (some v) s.returned (λ u k. sym full ∙ k) h)
  ]
  Step-AllAre (finishes before after id (panic m) e) h = h
  Step-AllAre {s} (sets w) h = AllAre-write (get s.cell) _ s.returned (λ v k. rw k refl) h

  -- Threads may call `get_or_init` and `set` on one cell in any order, be interrupted inside their
  -- closures and panic there: what the calls of `get_or_init` return is one value for all of them,
  -- the one that the cell holds.
  pub returned_agree :
      {s t : Shared A} → Steps s t → AllAre (get s.cell) s.returned → AllAre (get t.cell) t.returned
  returned_agree stays h = h
  returned_agree (then_step more st) h = Step-AllAre st (returned_agree more h)

  init_with-ends :
      (f : OnceCell A → Outcome A × OnceCell A) (o : Option A) (c c' : OnceCell A) (w : A)
      → o ≡ none
      → f c ≡ (ret w, c')
      → init_with o f c ≡ finish_init (ret w) c'
  unfolding init_with
  init_with-ends f o c c' w empty ends = rw (empty, init_with, ends) refl

  init_with-full :
      (f : OnceCell A → Outcome A × OnceCell A) (v : A)
      → init_with (some v) f (record { inner = some v }) ≡ (ret v, record { inner = some v })
  unfolding init_with
  init_with-full f v = refl

  -- A call on an empty cell whose closure ends returns the value that the closure left in the cell
  -- if it used the cell itself, and else the closure's own; every later call returns the same and
  -- changes nothing, whatever its closure, which is not run.
  pub get_or_init_once :
      (f g : OnceCell A → Outcome A × OnceCell A) (c c' : OnceCell A) (w : A)
      → get c ≡ none
      → f c ≡ (ret w, c')
      → (v : A) × (get c' ≡ some v ⊎ ((get c' ≡ none) × (v ≡ w)))
        × (get_or_init f c ≡ (ret v, record { inner = some v }))
        × (get_or_init g (get_or_init f c).1 ≡ (ret v, record { inner = some v }))
  unfolding get_or_init init_with finish_init get set set_inner
  get_or_init_once f g c c' w empty ends = elim (Option-cases c'.inner) [
    | inl still ↦
        let first : get_or_init f c ≡ (ret w, record { inner = some w }) =
          init_with-ends f c.inner c c' w empty ends ∙ rw still refl in
        (w, inr (still, refl), first, rw first (init_with-full g w))
    | inr (v, full) ↦
        let first : get_or_init f c ≡ (ret v, record { inner = some v }) =
          init_with-ends f c.inner c c' w empty ends ∙ rw full refl in
        (v, inl full, first, rw first (init_with-full g v))
  ]
