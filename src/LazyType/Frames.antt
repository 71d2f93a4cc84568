-- ===== src/LazyType/Frames.antt =====
-- Counting the calls under way on one class's type object (src/type_object.rs).
use pyo.Base.{
  ℕ, suc, ◌+◌, ◌≡◌, refl, arith, false, ◌==◌, if◌then◌else◌, Option, some, List, [], ◌∷◌, ◌++◌,
}
use pyo.LazyType.{Stage, creating, computing, contains}
use pyo.LazyType.Steps.{Frame, calls}

-- Every type object named is the one stored.
abbrev pub AllAre : Option ℕ → List ℕ → Type 0
AllAre o [] = Unit
AllAre o (p ∷ ps) = (o ≡ some p) × AllAre o ps

abbrev pub stage_types : Stage → List ℕ
stage_types creating = []
stage_types (computing p) = p ∷ []

abbrev pub frame_types : List Frame → List ℕ
frame_types [] = []
frame_types (calls t stage ∷ fs) = stage_types stage ++ frame_types fs

-- How many calls of a thread are computing class attributes.
abbrev pub computing_of : ℕ → List Frame → ℕ
computing_of thread [] = 0
computing_of thread (calls t creating ∷ fs) = computing_of thread fs
computing_of thread (calls t (computing p) ∷ fs) =
    if t == thread then suc (computing_of thread fs) else computing_of thread fs

abbrev pub entries : ℕ → List ℕ → ℕ
entries thread [] = 0
entries thread (t ∷ ts) = if t == thread then suc (entries thread ts) else entries thread ts

pub AllAre-append :
    (o : Option ℕ) (ps qs : List ℕ) → AllAre o ps → AllAre o qs → AllAre o (ps ++ qs)
AllAre-append o [] qs h k = k
AllAre-append o (p ∷ ps) qs (e, h) k = (e, AllAre-append o ps qs h k)

pub AllAre-write :
    (o o' : Option ℕ) (ps : List ℕ)
    → ((p : ℕ) → o ≡ some p → o' ≡ some p)
    → AllAre o ps
    → AllAre o' ps
AllAre-write o o' [] keep h = tt
AllAre-write o o' (p ∷ ps) keep (e, h) = (keep p e, AllAre-write o o' ps keep h)

-- Without one of the frames.
pub AllAre-remove :
    (o : Option ℕ) (fs gs : List Frame) (t : ℕ) (stage : Stage)
    → AllAre o (frame_types (fs ++ calls t stage ∷ gs))
    → AllAre o (frame_types (fs ++ gs)) × AllAre o (stage_types stage)
AllAre-remove o [] gs t creating h = (h, tt)
AllAre-remove o [] gs t (computing p) (e, h) = (h, (e, tt))
AllAre-remove o (calls u creating ∷ fs) gs t stage h = AllAre-remove o fs gs t stage h
AllAre-remove o (calls u (computing p) ∷ fs) gs t stage (e, h) =
    let (others, its) = AllAre-remove o fs gs t stage h in ((e, others), its)

pub computing_of-append :
    (thread : ℕ) (fs gs : List Frame)
    → computing_of thread (fs ++ gs) ≡ computing_of thread fs + computing_of thread gs
computing_of-append thread [] gs = omega arith
computing_of-append thread (calls t creating ∷ fs) gs = computing_of-append thread fs gs
computing_of-append thread (calls t (computing p) ∷ fs) gs =
    ground (arith, computing_of-append thread fs gs)

pub entries-append :
    (thread : ℕ) (ts us : List ℕ)
    → entries thread (ts ++ us) ≡ entries thread ts + entries thread us
entries-append thread [] us = omega arith
entries-append thread (t ∷ ts) us = ground (arith, entries-append thread ts us)

pub entries-absent : (thread : ℕ) (ts : List ℕ) → contains ts thread ≡ false → entries thread ts ≡ 0
entries-absent thread [] h = refl
entries-absent thread (t ∷ ts) h = ground (arith, entries-absent thread ts)
