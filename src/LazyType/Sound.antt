-- ===== src/LazyType/Sound.antt =====
-- What holds of a class's type object (src/type_object.rs) at every moment.
use pyo.Base.{
  ℕ, ◌≤◌, ◌≡◌, refl, sym, ap, subst, ◌∙◌, arith, Bool-cases, inl, inr, Option, none, some, List, [],
  ◌∷◌, ◌++◌, String, Outcome, ret, panic, Result, ok, err,
}
use pyo.OnceCell.{OnceCell, get, set, finish_init, set_inner, new_once, unwrap}
use pyo.LazyType.{
  TypeDict, Stage, creating, computing, contains, initialize_tp_dict, request_dict,
  with_type_object, enter_with, enter, created, conclude, fill, computed, new_lazy,
}
use pyo.LazyType.Steps.{
  Frame, calls, System, place, Step, enters, creates, computes, Reach, start, later,
}
use pyo.LazyType.Frames.{
  AllAre, stage_types, frame_types, computing_of, entries, AllAre-write, AllAre-remove,
  computing_of-append, entries-append, entries-absent,
}

module _ {D V E : Type 0} (ops : TypeDict D V E) (d : D) where
  -- What holds at every moment.
  pub record IsSound (s : System D E) : Type 0 where
    pub returns_same : AllAre (get s.lazy.value) s.types
    pub frames_same : AllAre (get s.lazy.value) (frame_types s.frames)
    pub computes_once :
        get s.lazy.tp_dict_filled ≡ none
        → (thread : ℕ)
        → (computing_of thread s.frames ≤ entries thread s.lazy.initializing_threads)
          × (entries thread s.lazy.initializing_threads ≤ 1)

  start-IsSound : IsSound (record { lazy = new_lazy d; frames = []; types = [] })
  unfolding new_lazy get new_once
  start-IsSound = record {
    returns_same = tt;
    frames_same = tt;
    computes_once = λ h thread. (omega arith, omega arith);
  }

  returned-IsSound :
      (p : ℕ) (s : System D E)
      → IsSound s
      → get s.lazy.value ≡ some p
      → IsSound (record { lazy = s.lazy; frames = s.frames; types = p ∷ s.types })
  returned-IsSound p s h e = record {
    returns_same = (e, h.returns_same);
    frames_same = h.frames_same;
    computes_once = h.computes_once;
  }

  remove-IsSound :
      (before after : List Frame) (t : ℕ) (stage : Stage) (s : System D E)
      → IsSound s
      → s.frames ≡ before ++ calls t stage ∷ after
      → IsSound (record { lazy = s.lazy; frames = before ++ after; types = s.types })
        × AllAre (get s.lazy.value) (stage_types stage)
  remove-IsSound before after t stage s h e =
      let (others, its) =
        AllAre-remove (get s.lazy.value) before after t stage
          (subst (λ fs. AllAre (get s.lazy.value) (frame_types fs)) e h.frames_same) in
      (
        record {
          returns_same = h.returns_same;
          frames_same = others;
          computes_once = λ empty thread.
              let (fewer, single) = h.computes_once empty thread in
              (
                omega (
                  arith,
                  fewer,
                  ap (computing_of thread) e,
                  computing_of-append thread before after,
                  computing_of-append thread before (calls t stage ∷ after),
                  drops thread stage,
                ),
                single,
              );
        },
        its,
      )
    where
      drops :
          (thread : ℕ) (stage : Stage)
          → computing_of thread after ≤ computing_of thread (calls t stage ∷ after)
      drops thread creating = omega arith
      drops thread (computing p) = ground arith

  value-IsSound :
      (c : OnceCell ℕ) (s : System D E)
      → IsSound s
      → ((p : ℕ) → get s.lazy.value ≡ some p → get c ≡ some p)
      → IsSound (record {
        lazy = record {
          value = c;
          initializing_threads = s.lazy.initializing_threads;
          tp_dict_filled = s.lazy.tp_dict_filled;
          tp_dict = s.lazy.tp_dict;
        };
        frames = s.frames;
        types = s.types;
      })
  value-IsSound c s h keep = record {
    returns_same = AllAre-write _ _ s.types keep h.returns_same;
    frames_same = AllAre-write _ _ (frame_types s.frames) keep h.frames_same;
    computes_once = h.computes_once;
  }

  -- A call that goes on to the dictionary keeps this, for what is stored as the type object.
  request_dict-IsSound :
      (thread p : ℕ) (s : System D E) (o : Option (Result (Unit {0}) E))
      → IsSound s
      → get s.lazy.value ≡ some p
      → get s.lazy.tp_dict_filled ≡ o
      → IsSound (place thread (request_dict thread p o s.lazy) s.frames s.types)
  unfolding request_dict
  request_dict-IsSound thread p s (some r) h e k = returned-IsSound p s h e
  request_dict-IsSound thread p s none h e k =
      elim (Bool-cases (contains s.lazy.initializing_threads thread)) [
        | inl again ↦ rw again (returned-IsSound p s h e)
        | inr first ↦ rw first (record {
          returns_same = h.returns_same;
          frames_same = (e, h.frames_same);
          computes_once = λ empty other. ground (
            arith,
            h.computes_once empty other,
            h.computes_once empty thread,
            entries-append other s.lazy.initializing_threads (thread ∷ []),
            entries-absent thread s.lazy.initializing_threads first,
          );
        })
      ]

  enter_with-IsSound :
      (thread : ℕ) (o : Option ℕ) (s : System D E)
      → IsSound s
      → get s.lazy.value ≡ o
      → IsSound (place thread (enter_with thread o s.lazy) s.frames s.types)
  unfolding enter_with with_type_object
  enter_with-IsSound thread none s h e = record {
    returns_same = h.returns_same;
    frames_same = h.frames_same;
    computes_once = h.computes_once;
  }
  enter_with-IsSound thread (some p) s h e = request_dict-IsSound thread p s _ h e refl

  -- The closure's type object is stored, or dropped for the one that is there.
  stored-IsSound :
      (thread w : ℕ) (o : Option ℕ) (s : System D E)
      → IsSound s
      → get s.lazy.value ≡ o
      → IsSound (
          place thread
            (with_type_object thread (unwrap (get (set_inner w o).1)) (record {
              value = (set_inner w o).1;
              initializing_threads = s.lazy.initializing_threads;
              tp_dict_filled = s.lazy.tp_dict_filled;
              tp_dict = s.lazy.tp_dict;
            }))
            s.frames
            s.types)
  unfolding with_type_object set_inner get
  stored-IsSound thread w none s h e =
      request_dict-IsSound thread w _ _
        (value-IsSound (record { inner = some w }) s h (λ p k. absurd (ground (arith, sym e ∙ k))))
        refl refl
  stored-IsSound thread w (some v) s h e =
      request_dict-IsSound thread v _ _
        (value-IsSound (record { inner = some v }) s h (λ p k. sym e ∙ k)) refl refl

  concluded-IsSound :
      (thread p : ℕ) (r : Result (Unit {0}) E) (s : System D E)
      → IsSound s
      → get s.lazy.value ≡ some p
      → IsSound (place thread (conclude p r, s.lazy) s.frames s.types)
  concluded-IsSound thread p (ok u) s h e = returned-IsSound p s h e
  concluded-IsSound thread p (err x) s h e = h

  fill-IsSound :
      (thread p : ℕ) (items : List (String × V)) (o : Option (Result (Unit {0}) E)) (s : System D E)
      → IsSound s
      → get s.lazy.value ≡ some p
      → get s.lazy.tp_dict_filled ≡ o
      → IsSound (place thread (fill ops o p items s.lazy) s.frames s.types)
  unfolding fill get
  fill-IsSound thread p items (some r) s h e k = concluded-IsSound thread p r s h e
  fill-IsSound thread p items none s h e k =
      concluded-IsSound thread p (initialize_tp_dict ops s.lazy.tp_dict items).0 _
        (record {
          returns_same = h.returns_same;
          frames_same = h.frames_same;
          computes_once = λ empty thread. absurd (ground (arith, empty));
        })
        e

  computed-IsSound :
      (thread p : ℕ) (o : Outcome (List (String × V))) (s : System D E)
      → IsSound s
      → get s.lazy.value ≡ some p
      → IsSound (place thread (computed ops p o s.lazy) s.frames s.types)
  unfolding computed
  computed-IsSound thread p (panic m) s h e = h
  computed-IsSound thread p (ret items) s h e = fill-IsSound thread p items _ s h e refl

  created-IsSound :
      (thread : ℕ) (o : Outcome ℕ) (s : System D E)
      → IsSound s
      → IsSound (place thread (created thread o s.lazy) s.frames s.types)
  unfolding created with_type_object finish_init set get
  created-IsSound thread (panic m) s h = h
  created-IsSound thread (ret w) s h = stored-IsSound thread w _ s h refl

  Step-IsSound : {s t : System D E} → Step ops s t → IsSound s → IsSound t
  unfolding enter
  Step-IsSound {s} (enters thread) h = enter_with-IsSound thread _ s h refl
  Step-IsSound {s} (creates before after thread o e) h =
      created-IsSound thread o _ (remove-IsSound before after thread creating s h e).0
  Step-IsSound {s} (computes before after thread p o e) h =
      let (without, (its, rest)) = remove-IsSound before after thread (computing p) s h e in
      computed-IsSound thread p o _ without its

  pub Reach-IsSound : {s : System D E} → Reach ops d s → IsSound s
  Reach-IsSound start = start-IsSound
  Reach-IsSound (later r st) = Step-IsSound st (Reach-IsSound r)
