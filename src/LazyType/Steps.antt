-- ===== src/LazyType/Steps.antt =====
-- Threads that request the type object of one class (src/type_object.rs), in any order.
use pyo.Base.{ℕ, ◌≡◌, List, [], ◌∷◌, ◌++◌, String, Outcome}
use pyo.LazyType.{
  TypeDict, LazyStaticType, Stage, creating, computing, Reply, continues, returned, panicked, enter,
  created, computed, new_lazy,
}

-- A call of `get_or_init` that has lost the lock.
pub data Frame : Type 0 where
  calls : (thread : ℕ) → Stage → Frame

-- The shared struct, the calls under way and the type objects that the others returned.
pub record System (D E : Type 0) : Type 0 where
  pub lazy : LazyStaticType D E
  pub frames : List Frame
  pub types : List ℕ

abbrev pub place :
    {D E : Type 0} → ℕ → Reply × LazyStaticType D E → List Frame → List ℕ → System D E
place thread (continues stage, s) fs ps = record {
  lazy = s;
  frames = calls thread stage ∷ fs;
  types = ps;
}
place thread (returned p, s) fs ps = record { lazy = s; frames = fs; types = p ∷ ps }
place thread (panicked m, s) fs ps = record { lazy = s; frames = fs; types = ps }

module _ {D V E : Type 0} (ops : TypeDict D V E) where
  -- Any thread calls `get_or_init`, also inside a class attribute; the type object of a call is
  -- created, or its creation panics; the class attributes of a call are computed, or one panics.
  pub data Step (s : System D E) : System D E → Type 0 where
    enters : (thread : ℕ) → Step s (place thread (enter thread s.lazy) s.frames s.types)
    creates :
        (before after : List Frame) (thread : ℕ) (o : Outcome ℕ)
        → s.frames ≡ before ++ calls thread creating ∷ after
        → Step s (place thread (created thread o s.lazy) (before ++ after) s.types)
    computes :
        (before after : List Frame) (thread p : ℕ) (o : Outcome (List (String × V)))
        → s.frames ≡ before ++ calls thread (computing p) ∷ after
        → Step s (place thread (computed ops p o s.lazy) (before ++ after) s.types)

  pub data Reach (d : D) : System D E → Type 0 where
    start : Reach d (record { lazy = new_lazy d; frames = []; types = [] })
    later : {s t : System D E} → Reach d s → Step s t → Reach d t
