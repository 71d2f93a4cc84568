-- ===== src/LazyType/Examples.antt =====
-- A class with two attributes, requested by two threads.
use pyo.Base.{ℕ, ◌≡◌, refl, ◌⊎◌, none, some, List, [], ◌∷◌, String, ret, panic, ok}
use pyo.OnceCell.{get, set, finish_init, set_inner, new_once}
use pyo.LazyType.{
  TypeDict, LazyStaticType, computing, continues, returned, panicked, initialize_tp_dict,
  request_dict, with_type_object, enter_with, enter, created, computed, new_lazy, set_entry, fill,
}
use pyo.LazyType.Steps.{calls, System, enters, creates, computes, Reach, start, later}
use pyo.LazyType.Filled.{computations, dict_filled_once}
use pyo.LazyType.Requests.{reentrant_request, abandoned_request}

abbrev Entries : Type 0
Entries = List (String × ℕ)

abbrev ops : TypeDict Entries ℕ String
ops = record { c_string = λ key. ok key; set_item = λ key val d. (none, (key, val) ∷ d) }

abbrev attributes : Entries
attributes = ("X", 1) ∷ ("Y", 2) ∷ []

written : initialize_tp_dict ops [] attributes ≡ (ok tt, ("Y", 2) ∷ ("X", 1) ∷ [])
unfolding initialize_tp_dict set_entry
written = refl

abbrev busy_type : LazyStaticType Entries String
busy_type = record {
  value = record { inner = some 100 };
  initializing_threads = 1 ∷ 2 ∷ [];
  tp_dict_filled = record { inner = none };
  tp_dict = [];
}

-- Both threads are computing the attributes, and thread 1 has asked again.
abbrev busy : System Entries String
busy = record {
  lazy = busy_type;
  frames = calls 2 (computing 100) ∷ calls 1 (computing 100) ∷ [];
  types = 100 ∷ [];
}

busy-Reach : Reach ops [] busy
unfolding enter enter_with created with_type_object request_dict new_lazy new_once get set set_inner
    finish_init
busy-Reach =
    later (later (later (later start (enters 1)) (creates [] [] 1 (ret 100) refl)) (enters 2))
      (enters 1)

-- Thread 2 computes the attributes to the end first, and what thread 1 computes is dropped.
abbrev filled_type : LazyStaticType Entries String
filled_type = record {
  value = record { inner = some 100 };
  initializing_threads = [];
  tp_dict_filled = record { inner = some (ok tt) };
  tp_dict = ("Y", 2) ∷ ("X", 1) ∷ [];
}

abbrev idle : System Entries String
idle = record { lazy = filled_type; frames = []; types = 100 ∷ 100 ∷ 100 ∷ [] }

abbrev others : Entries
others = ("Z", 3) ∷ []

idle-Reach : Reach ops [] idle
unfolding computed fill initialize_tp_dict set_entry get
idle-Reach =
    later
      (later busy-Reach (computes [] (calls 1 (computing 100) ∷ []) 2 100 (ret attributes) refl))
      (computes [] [] 1 100 (ret others) refl)

dict_filled_once_example :
    ((get filled_type.tp_dict_filled ≡ none)
      × (filled_type.tp_dict ≡ [])
      × (computations idle-Reach ≡ []))
    ⊎ ((items : Entries) × (rest : List Entries) × (computations idle-Reach ≡ items ∷ rest)
        × (get filled_type.tp_dict_filled ≡ some (initialize_tp_dict ops [] items).0)
        × (filled_type.tp_dict ≡ (initialize_tp_dict ops [] items).1))
unfolding get
dict_filled_once_example = dict_filled_once ops [] idle-Reach

reentrant_request_example : enter 1 busy_type ≡ (returned 100, busy_type)
reentrant_request_example =
    reentrant_request ops [] (calls 2 (computing 100) ∷ []) [] 1 100 busy-Reach refl

abandoned_request_example :
    (s' : LazyStaticType Entries String) × (enter 3 busy_type ≡ (continues (computing 100), s'))
    × (computed ops 100 (panic "no attribute") s' ≡ (panicked "no attribute", s'))
    × (enter 3 s' ≡ (returned 100, s'))
    × (get s'.tp_dict_filled ≡ none)
    × (s'.tp_dict ≡ [])
unfolding get
abandoned_request_example = abandoned_request ops busy_type 100 3 "no attribute" refl refl refl
