-- ===== src/LazyType/Filled.antt =====
-- How often the dictionary of a class's type object (src/type_object.rs) is filled, and with what.
use pyo.Base.{
  ℕ, ◌≡◌, refl, sym, ap, subst, ◌∙◌, arith, Bool-cases, ◌⊎◌, inl, inr, Option, none, some, List, [],
  ◌∷◌, ◌++◌, String, Outcome, ret, panic, Result,
}
use mathlib.Core.List.{append-nil}
use pyo.OnceCell.{OnceCell, get, finish_init, new_once}
use pyo.LazyType.{
  TypeDict, LazyStaticType, Reply, continues, returned, panicked, contains, initialize_tp_dict,
  request_dict, with_type_object, enter_with, enter, created, fill, computed, new_lazy,
}
use pyo.LazyType.Steps.{Frame, System, place, Step, enters, creates, computes, Reach, start, later}

module _ {D V E : Type 0} {ops : TypeDict D V E} where
  -- The class attributes that a step has computed.
  unfoldable pub step_attributes : {s t : System D E} → Step ops s t → List (List (String × V))
  step_attributes (enters thread) = []
  step_attributes (creates before after thread o e) = []
  step_attributes (computes before after thread p (panic m) e) = []
  step_attributes (computes before after thread p (ret items) e) = items ∷ []

  -- What the calls of a history have computed, in the order in which they ended.
  unfoldable pub computations : {d : D} {s : System D E} → Reach ops d s → List (List (String × V))
  unfolding step_attributes
  computations start = []
  computations (later r st) = computations r ++ step_attributes st

module _ {D E : Type 0} where
  abbrev dict_of : LazyStaticType D E → OnceCell (Result (Unit {0}) E) × D
  dict_of s = (s.tp_dict_filled, s.tp_dict)

  lazy-place :
      (thread : ℕ) (x : Reply × LazyStaticType D E) (fs : List Frame) (ps : List ℕ)
      → (place thread x fs ps).lazy ≡ x.1
  lazy-place thread (continues stage, s) fs ps = refl
  lazy-place thread (returned p, s) fs ps = refl
  lazy-place thread (panicked m, s) fs ps = refl

  dict_of-request_dict :
      (thread p : ℕ) (o : Option (Result (Unit {0}) E)) (s : LazyStaticType D E)
      → dict_of (request_dict thread p o s).1 ≡ dict_of s
  unfolding request_dict
  dict_of-request_dict thread p (some r) s = refl
  dict_of-request_dict thread p none s =
      elim (Bool-cases (contains s.initializing_threads thread)) [
        | inl again ↦ rw again refl
        | inr first ↦ rw first refl
      ]

  dict_of-with_type_object :
      (thread : ℕ) (o : Outcome ℕ) (s : LazyStaticType D E)
      → dict_of (with_type_object thread o s).1 ≡ dict_of s
  unfolding with_type_object
  dict_of-with_type_object thread (panic m) s = refl
  dict_of-with_type_object thread (ret p) s = dict_of-request_dict thread p _ s

  dict_of-enter :
      (thread : ℕ) (o : Option ℕ) (s : LazyStaticType D E)
      → dict_of (enter_with thread o s).1 ≡ dict_of s
  unfolding enter_with
  dict_of-enter thread none s = refl
  dict_of-enter thread (some p) s = dict_of-with_type_object thread (ret p) s

  dict_of-created :
      (thread : ℕ) (o : Outcome ℕ) (s : LazyStaticType D E)
      → dict_of (created thread o s).1 ≡ dict_of s
  unfolding created
  dict_of-created thread o s = dict_of-with_type_object thread (finish_init o s.value).0 _

module _ {D V E : Type 0} (ops : TypeDict D V E) (d : D) where
  -- The dictionary is as it was and nothing was computed, or it has the first list that was.
  abbrev IsFilled : OnceCell (Result (Unit {0}) E) × D → List (List (String × V)) → Type 0
  IsFilled (filled, dict) lists =
      ((get filled ≡ none) × (dict ≡ d) × (lists ≡ []))
      ⊎ ((items : List (String × V)) × (rest : List (List (String × V))) × (lists ≡ items ∷ rest)
          × (get filled ≡ some (initialize_tp_dict ops d items).0)
          × (dict ≡ (initialize_tp_dict ops d items).1))

  fill-IsFilled :
      (p : ℕ) (items : List (String × V)) (lists : List (List (String × V)))
      (o : Option (Result (Unit {0}) E)) (s : LazyStaticType D E)
      → IsFilled (dict_of s) lists
      → get s.tp_dict_filled ≡ o
      → IsFilled (dict_of (fill ops o p items s).1) (lists ++ items ∷ [])
  unfolding fill get
  fill-IsFilled p items lists none s (inl (empty, same, none_yet)) e = inr (
    items,
    [],
    ap (λ l. l ++ items ∷ []) none_yet,
    ap (λ t. some (initialize_tp_dict ops t items).0) same,
    ap (λ t. (initialize_tp_dict ops t items).1) same,
  )
  fill-IsFilled p items lists (some r) s (inl (empty, same, none_yet)) e =
      absurd (ground (arith, sym e ∙ empty))
  fill-IsFilled p items lists none s (inr (others, rest, listed, full, same)) e =
      absurd (ground (arith, sym e ∙ full))
  fill-IsFilled p items lists (some r) s (inr (others, rest, listed, full, same)) e =
      inr (others, rest ++ items ∷ [], ap (λ l. l ++ items ∷ []) listed, full, same)

  -- A step that leaves the dictionary alone, and one that has computed no attributes.
  kept-IsFilled :
      (x y : OnceCell (Result (Unit {0}) E) × D) (lists : List (List (String × V)))
      → IsFilled x lists
      → y ≡ x
      → IsFilled y (lists ++ [])
  kept-IsFilled x y lists h same =
      rw (append-nil lists) (subst (λ z. IsFilled z lists) (sym same) h)

  placed-IsFilled :
      (thread : ℕ) (x : Reply × LazyStaticType D E) (fs : List Frame) (ps : List ℕ)
      (lists : List (List (String × V)))
      → IsFilled (dict_of x.1) lists
      → IsFilled (dict_of (place thread x fs ps).lazy) lists
  placed-IsFilled thread x fs ps lists h =
      subst (λ s. IsFilled (dict_of s) lists) (sym (lazy-place thread x fs ps)) h

  Step-IsFilled :
      {s t : System D E} (st : Step ops s t) (lists : List (List (String × V)))
      → IsFilled (dict_of s.lazy) lists
      → IsFilled (dict_of t.lazy) (lists ++ step_attributes st)
  unfolding step_attributes enter computed
  Step-IsFilled {s} (enters thread) lists h =
      placed-IsFilled thread (enter thread s.lazy) s.frames s.types _
        (kept-IsFilled _ _ lists h (dict_of-enter thread _ s.lazy))
  Step-IsFilled {s} (creates before after thread o e) lists h =
      placed-IsFilled thread (created thread o s.lazy) (before ++ after) s.types _
        (kept-IsFilled _ _ lists h (dict_of-created thread o s.lazy))
  Step-IsFilled {s} (computes before after thread p (panic m) e) lists h =
      placed-IsFilled thread (computed ops p (panic m) s.lazy) (before ++ after) s.types _
        (kept-IsFilled _ _ lists h refl)
  Step-IsFilled {s} (computes before after thread p (ret items) e) lists h =
      placed-IsFilled thread (computed ops p (ret items) s.lazy) (before ++ after) s.types _
        (fill-IsFilled p items lists _ s.lazy h refl)

  -- Threads may request the type object of a class in any order and lose the lock in between. At every
  -- moment, either no call has computed the class attributes to the end, and the dictionary is as it
  -- was created and not marked as filled; or the attributes that the first of these calls computed,
  -- and no others, have been written to it, once, in their order and up to the first that cannot be
  -- written, and how that ended is kept.
  pub dict_filled_once :
      {s : System D E} (r : Reach ops d s)
      → ((get s.lazy.tp_dict_filled ≡ none) × (s.lazy.tp_dict ≡ d) × (computations r ≡ []))
        ⊎ ((items : List (String × V)) × (rest : List (List (String × V))) × (computations r
              ≡ items ∷ rest)
            × (get s.lazy.tp_dict_filled ≡ some (initialize_tp_dict ops d items).0)
            × (s.lazy.tp_dict ≡ (initialize_tp_dict ops d items).1))
  unfolding computations new_lazy new_once get
  dict_filled_once start = inl (refl, refl, refl)
  dict_filled_once (later r st) = Step-IsFilled st (computations r) (dict_filled_once r)
