-- ===== src/Alloc/Histories.antt =====
-- Any history of the objects of a class with a free list (src/freelist.rs).
use pyo.Base.{
  subst, lt→ltb, ==-same, ℕ, ◌+◌, ◌≤◌, ◌<◌, ◌≡◌, refl, sym, ap, ◌∙◌, false, ◌⊎◌, ◌==◌, none, some,
  List, [], ◌∷◌, length, update, Outcome, ret, panic, isize_max,
}
use pyo.FreeList.{with_capacity, insert}
use pyo.FreeList.Stack.{Yields, pop-Yields, insert-Yields, with_capacity-Represents}
use pyo.Alloc.{
  Object, Memory, Allocators, alloc, popped, inserted, dealloc, drop_value, has_type, with_object,
  new_object,
}
use pyo.Alloc.Blocks.{AllIdle-object, IsAbsent-object}
use pyo.Alloc.Lives.{
  Sound, IsFresh, and_false, lives_allocated, backed_object, alloc-Allocates, dealloc-Sound,
}

module _ {V : Type 0} where
  -- No block is allocated yet.
  abbrev pub empty_memory : ℕ → Memory V
  empty_memory capacity = record {
    allocated = λ p. false;
    made_for = λ p. 0;
    objects = λ p. none;
    free_list = with_capacity capacity;
  }

  -- A call makes an object, or fails; an object gets a value; or it is dropped and not resurrected.
  pub data Step (a : Allocators V) (own : ℕ) (s : Memory V) : Memory V → Type 0 where
    makes : (subtype p : ℕ) {s' : Memory V} → alloc a own subtype s ≡ ret (p, s') → Step a own s s'
    fills :
        (p : ℕ) (o o' : Object V) → s.objects p ≡ some o → Step a own s (with_object p (some o') s)
    drops :
        (p : ℕ) (o : Object V) {s' : Memory V}
        → s.objects p ≡ some o
        → dealloc own false p s ≡ ret s'
        → Step a own s s'

  pub data Steps (a : Allocators V) (own : ℕ) (s : Memory V) : Memory V → Type 0 where
    stays : Steps a own s s
    then_step : {t u : Memory V} → Steps a own s t → Step a own t u → Steps a own s u

  abbrev IsSound : Memory V → Type 0
  IsSound s = (xs : List ℕ) × Sound s xs

  memory_of : Memory V → Outcome (ℕ × Memory V) → Memory V
  memory_of s (ret (p, t)) = t
  memory_of s (panic m) = s

  snd_ret :
      (r : Outcome (ℕ × Memory V)) (p q : ℕ) (s t : Memory V)
      → r ≡ ret (p, s)
      → r ≡ ret (q, t)
      → s ≡ t
  unfolding memory_of
  snd_ret r p q s t h g = sym (ap (memory_of s) h) ∙ ap (memory_of s) g

  ret-injective : (s t : Memory V) → ret s ≡ ret t → s ≡ t
  ret-injective s t h = cc

  Step-IsSound :
      (a : Allocators V) (own : ℕ) (s : Memory V) {t : Memory V}
      → IsFresh a
      → Step a own s t
      → IsSound s
      → IsSound t
  Step-IsSound a own s fresh (makes subtype p e) (xs, sound) =
      let (q, s', ys, returned, sound', what) = alloc-Allocates a own subtype _ xs fresh sound in
      (ys, subst (λ m. Sound m ys) (snd_ret _ q p _ _ returned e) sound')
  Step-IsSound a own s fresh (fills p o o' lives) (xs, sound) =
      let is = lives_allocated s xs p o sound lives in
      (
        xs,
        record {
          holds = sound.holds;
          idle =
              AllIdle-object s.allocated s.objects p (some o') xs
                (IsAbsent-object s.allocated s.objects p o xs sound.idle lives) sound.idle;
          backed = backed_object s p (some o') sound.backed is;
        },
      )
  Step-IsSound a own s fresh (drops p o lives e) (xs, sound) =
      let (s', ys, returned, sound', gone, others) = dealloc-Sound own p o _ xs sound lives in
      (ys, subst (λ m. Sound m ys) (ret-injective _ _ (sym returned ∙ e)) sound')

  Steps-IsSound :
      (a : Allocators V) (own : ℕ) {s t : Memory V}
      → IsFresh a
      → Steps a own s t
      → IsSound s
      → IsSound t
  Steps-IsSound a own fresh stays h = h
  Steps-IsSound a own fresh (then_step before step) h =
      Step-IsSound a own _ fresh step (Steps-IsSound a own fresh before h)

  history-IsSound :
      (a : Allocators V) (own capacity : ℕ) (s : Memory V)
      → capacity ≤ isize_max
      → IsFresh a
      → Steps a own (empty_memory capacity) s
      → IsSound s
  history-IsSound a own capacity s small fresh history = Steps-IsSound a own fresh history (
    [],
    record { holds = with_capacity-Represents capacity small; idle = tt; backed = λ p h. refl },
  )

  -- Whatever objects have been made, filled and dropped: allocating another one does not panic, and
  -- either fails and changes no object, or gives an address where no object is alive. The free list
  -- has at most `isize::MAX` slots, and the allocators give blocks that are not allocated.
  pub alloc_unused :
      (a : Allocators V) (own capacity subtype : ℕ) (s : Memory V)
      → capacity ≤ isize_max
      → IsFresh a
      → Steps a own (empty_memory capacity) s
      → (p : ℕ) × (s' : Memory V) × (alloc a own subtype s ≡ ret (p, s'))
        × (((p ≡ 0) × (s'.objects ≡ s.objects))
            ⊎ ((s.objects p ≡ none) × (s'.objects ≡ update s.objects p (new_object subtype))))
  alloc_unused a own capacity subtype s small fresh history =
      let (xs, sound) = history-IsSound a own capacity s small fresh history in
      let (p, s', ys, returned, sound', what) = alloc-Allocates a own subtype s xs fresh sound in
      (p, s', returned, what)

  -- Dropping an object that is alive, after any such history, does not panic; it takes this object
  -- away and leaves all others as they are.
  pub dealloc_gone :
      (a : Allocators V) (own capacity p : ℕ) (o : Object V) (s : Memory V)
      → capacity ≤ isize_max
      → IsFresh a
      → Steps a own (empty_memory capacity) s
      → s.objects p ≡ some o
      → (s' : Memory V) × (dealloc own false p s ≡ ret s')
        × (s'.objects p ≡ none)
        × ((q : ℕ) → (p == q) ≡ false → s'.objects q ≡ s.objects q)
  dealloc_gone a own capacity p o s small fresh history lives =
      let (xs, sound) = history-IsSound a own capacity s small fresh history in
      let (s', ys, returned, sound', gone, others) = dealloc-Sound own p o s xs sound lives in
      (s', returned, gone, others)

  -- A block that was allocated for a subtype's object goes into the free list of the class, when
  -- there is room, and the next object of the class itself is placed there.
  pub alloc-subtype_block :
      (a : Allocators V) (own subtype p : ℕ) (o : Object V) (s : Memory V) (xs : List ℕ)
      → Sound s xs
      → s.objects p ≡ some o
      → s.made_for p ≡ subtype
      → length xs + 1 < s.free_list.capacity
      → (s' s'' : Memory V) × (dealloc own false p s ≡ ret s')
        × (alloc a own own s' ≡ ret (p, s''))
        × (s''.made_for p ≡ subtype)
        × (s''.objects p ≡ new_object own)
  unfolding dealloc alloc inserted popped
  alloc-subtype_block a own subtype p o s xs sound lives made room =
      let y : Yields (insert p s.free_list) s.free_list.capacity (none, p ∷ xs) =
        rw (lt→ltb _ _ room) at (insert-Yields s.free_list p xs sound.holds) in
      let z = pop-Yields y.after (p ∷ xs) y.holds in
      let s' = inserted p (with_object p (drop_value (s.objects p)) s) (none, y.after) in
      (
        s',
        (popped a own s' (some p, z.after)).1,
        rw (and_false (has_type own (s.objects p)), y.returned) refl,
        rw (==-same own, z.returned) refl,
        made,
        rw (==-same p) refl,
      )
