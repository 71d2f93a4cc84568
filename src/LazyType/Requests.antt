-- ===== src/LazyType/Requests.antt =====
-- What the threads that request a type object (src/type_object.rs) get.
use pyo.Base.{
  ℕ, ◌≤◌, ◌≡◌, refl, ap, subst, arith, true, false, inl, inr, none, some, Option-cases, List, [],
  ◌∷◌, ◌++◌, String, ret, panic,
}
use pyo.OnceCell.{get}
use pyo.LazyType.{
  TypeDict, LazyStaticType, computing, continues, returned, panicked, contains, request_dict,
  with_type_object, enter_with, enter, fill, computed,
}
use pyo.LazyType.Steps.{Frame, calls, System, Reach}
use pyo.LazyType.Frames.{
  AllAre, frame_types, computing_of, entries, AllAre-remove, computing_of-append, entries-append,
}
use pyo.LazyType.Sound.{Reach-IsSound}

contains-entries : (ts : List ℕ) (t : ℕ) → 1 ≤ entries t ts → contains ts t ≡ true
contains-entries [] t h = absurd (omega (arith, h))
contains-entries (u ∷ us) t h = ground (arith, contains-entries us t)

module _ {D V E : Type 0} (ops : TypeDict D V E) (d : D) where
  -- Threads may request the type object of a class in any order, lose the lock while they create it
  -- or compute the class attributes, and panic there: every call that returns, returns the type
  -- object that is stored.
  pub one_type_object : {s : System D E} → Reach ops d s → AllAre (get s.lazy.value) s.types
  one_type_object r = (Reach-IsSound ops d r).returns_same

  -- Until the dictionary is filled, no thread computes the class attributes in two calls at a time.
  pub one_computation :
      {s : System D E}
      → Reach ops d s
      → get s.lazy.tp_dict_filled ≡ none
      → (thread : ℕ) → computing_of thread s.frames ≤ 1
  one_computation r empty thread =
      let (some_left, single) = (Reach-IsSound ops d r).computes_once empty thread in
      omega (arith, some_left, single)

  -- A request by a thread that is computing the class attributes, which these make themselves,
  -- returns the type object at once and changes nothing.
  pub reentrant_request :
      {s : System D E} (before after : List Frame) (thread p : ℕ)
      → Reach ops d s
      → s.frames ≡ before ++ calls thread (computing p) ∷ after
      → enter thread s.lazy ≡ (returned p, s.lazy)
  unfolding enter enter_with with_type_object request_dict
  reentrant_request {s} before after thread p r e =
      let sound = Reach-IsSound ops d r in
      let (others, (same, rest)) =
        AllAre-remove (get s.lazy.value) before after thread (computing p)
          (subst (λ fs. AllAre (get s.lazy.value) (frame_types fs)) e sound.frames_same) in
      rw same (elim (Option-cases (get s.lazy.tp_dict_filled)) [
        | inr (x, full) ↦ rw full refl
        | inl empty ↦
            let counted = sound.computes_once empty thread in
            rw
              (
                empty,
                contains-entries s.lazy.initializing_threads thread (
                    ground (
                      arith,
                      counted,
                      ap (computing_of thread) e,
                      computing_of-append thread before (calls thread (computing p) ∷ after),
                    )),
              )
              refl
      ])

module _ {D V E : Type 0} (ops : TypeDict D V E) where
  -- Once a call has computed the class attributes, every request of any thread returns the type
  -- object at once and changes nothing, also if writing them failed.
  pub computed-enter :
      (s : LazyStaticType D E) (items : List (String × V)) (p thread : ℕ)
      → get s.value ≡ some p
      → enter thread (computed ops p (ret items) s).1
        ≡ (returned p, (computed ops p (ret items) s).1)
  unfolding enter enter_with with_type_object request_dict computed fill get
  computed-enter s items p thread e = elim (Option-cases s.tp_dict_filled.inner) [
    | inl empty ↦ rw (empty, e) refl
    | inr (x, full) ↦ rw (full, e) refl
  ]

  -- If a class attribute panics and no other thread is computing them, the thread's entry in the
  -- list is left behind: its next request returns the type object with nothing in the dictionary,
  -- changes nothing, and so does each later one.
  pub abandoned_request :
      (s : LazyStaticType D E) (p thread : ℕ) (m : String)
      → get s.value ≡ some p
      → get s.tp_dict_filled ≡ none
      → contains s.initializing_threads thread ≡ false
      → (s' : LazyStaticType D E) × (enter thread s ≡ (continues (computing p), s'))
        × (computed ops p (panic m) s' ≡ (panicked m, s'))
        × (enter thread s' ≡ (returned p, s'))
        × (get s'.tp_dict_filled ≡ none)
        × (s'.tp_dict ≡ s.tp_dict)
  unfolding enter enter_with with_type_object request_dict computed
  abandoned_request s p thread m stored empty first = (
    record {
      value = s.value;
      initializing_threads = s.initializing_threads ++ thread ∷ [];
      tp_dict_filled = s.tp_dict_filled;
      tp_dict = s.tp_dict;
    },
    rw (stored, empty, first) refl,
    refl,
    rw (stored, empty, listed) refl,
    empty,
    refl,
  )
    where
      listed : contains (s.initializing_threads ++ thread ∷ []) thread ≡ true
      listed =
          contains-entries (s.initializing_threads ++ thread ∷ []) thread
            (ground (arith, entries-append thread s.initializing_threads (thread ∷ [])))
