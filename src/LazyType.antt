-- ===== src/LazyType.antt =====
-- src/type_object.rs: `LazyStaticType`, the type object of a Rust class. A call of `get_or_init` can
-- lose the lock while it creates the type object and while it computes the class attributes, so the
-- call is given in the parts between these.
pub mod Steps
pub mod Frames
pub mod Sound
pub mod Requests
pub mod Filled
mod Examples
use pyo.Base.{
  ℕ, ◌≡◌, Bool, true, false, ◌||◌, ◌==◌, if◌then◌else◌, Option, none, some, List, [], ◌∷◌, ◌++◌,
  String, Outcome, ret, panic, Result, ok, err, then_ok,
}
use pyo.OnceCell.{OnceCell, new_once, get, set, finish_init}

-- `CString::new` and `PyDict_SetItemString`; a failed write of an entry can change the dictionary.
pub record TypeDict (D V E : Type 0) : Type 0 where
  pub c_string : String → Result String E
  pub set_item : String → V → D → Option E × D

-- The dictionary of the type object stands beside the three fields of the struct.
pub record LazyStaticType (D E : Type 0) : Type 0 where
  pub value : OnceCell ℕ
  pub initializing_threads : List ℕ
  pub tp_dict_filled : OnceCell (Result (Unit {0}) E)
  pub tp_dict : D

-- Where a call has lost the lock: in `initialize_type_object`, or in a class attribute.
pub data Stage : Type 0 where
  creating : Stage
  computing : (type_object : ℕ) → Stage

pub data Reply : Type 0 where
  continues : Stage → Reply
  returned : (type_object : ℕ) → Reply
  panicked : String → Reply

abbrev pub contains : List ℕ → ℕ → Bool
contains [] t = false
contains (u ∷ us) t = (u == t) || contains us t

module _ {D V E : Type 0} (ops : TypeDict D V E) where
  set_entry : V → D → Result String E → Option E × D
  set_entry val d (ok key) = ops.set_item key val d
  set_entry val d (err e) = (some e, d)

  unfoldable pub initialize_tp_dict : D → List (String × V) → Result (Unit {0}) E × D
  unfolding set_entry
  initialize_tp_dict d [] = (ok tt, d)
  initialize_tp_dict d ((key, val) ∷ items) =
      let (failed, d') = set_entry val d (ops.c_string key) in
      elim failed [ none ↦ initialize_tp_dict d' items | some e ↦ (err e, d') ]

module _ {D E : Type 0} where
  unfoldable pub new_lazy : D → LazyStaticType D E
  unfolding new_once
  new_lazy d = record {
    value = new_once;
    initializing_threads = [];
    tp_dict_filled = new_once;
    tp_dict = d;
  }

  -- From the check of `tp_dict_filled` to the thread's entry in the list.
  pub request_dict :
      ℕ → ℕ → Option (Result (Unit {0}) E) → LazyStaticType D E → Reply × LazyStaticType D E
  request_dict thread type_object (some r) s = (returned type_object, s)
  request_dict thread type_object none s =
      if contains s.initializing_threads thread then (returned type_object, s) else (
        continues (computing type_object),
        record s { initializing_threads = s.initializing_threads ++ thread ∷ [] },
      )

  pub with_type_object : ℕ → Outcome ℕ → LazyStaticType D E → Reply × LazyStaticType D E
  unfolding request_dict get
  with_type_object thread (panic m) s = (panicked m, s)
  with_type_object thread (ret type_object) s =
      request_dict thread type_object (get s.tp_dict_filled) s

  pub enter_with : ℕ → Option ℕ → LazyStaticType D E → Reply × LazyStaticType D E
  unfolding with_type_object
  enter_with thread none s = (continues creating, s)
  enter_with thread (some type_object) s = with_type_object thread (ret type_object) s

  -- The start of `get_or_init`.
  unfoldable pub enter : ℕ → LazyStaticType D E → Reply × LazyStaticType D E
  unfolding enter_with get
  enter thread s = enter_with thread (get s.value) s

  -- After the closure that creates the type object.
  unfoldable pub created : ℕ → Outcome ℕ → LazyStaticType D E → Reply × LazyStaticType D E
  unfolding finish_init with_type_object
  created thread o s =
      let (p, c) = finish_init o s.value in with_type_object thread p (record s { value = c })

-- The end of `get_or_init`, by what stands in `tp_dict_filled`.
abbrev pub conclude : {E : Type 0} → ℕ → Result (Unit {0}) E → Reply
conclude type_object (ok u) = returned type_object
conclude type_object (err e) = panicked "An error occured while initializing `__dict__`"

module _ {D V E : Type 0} (ops : TypeDict D V E) where
  pub fill :
      Option (Result (Unit {0}) E)
      → ℕ
      → List (String × V)
      → LazyStaticType D E
      → Reply × LazyStaticType D E
  unfolding initialize_tp_dict
  fill (some r) type_object items s = (conclude type_object r, s)
  fill none type_object items s =
      let (r, d) = initialize_tp_dict ops s.tp_dict items in
      (
        conclude type_object r,
        record s {
          initializing_threads = [];
          tp_dict_filled = record { inner = some r };
          tp_dict = d;
        },
      )

  -- After the class attributes; one of them may have panicked.
  unfoldable pub computed :
      ℕ → Outcome (List (String × V)) → LazyStaticType D E → Reply × LazyStaticType D E
  unfolding fill get
  computed type_object (panic m) s = (panicked m, s)
  computed type_object (ret items) s = fill (get s.tp_dict_filled) type_object items s
