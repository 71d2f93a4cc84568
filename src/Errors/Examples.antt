-- ===== src/Errors/Examples.antt =====
-- Exceptions that are set and retrieved in an interpreter whose exception classes are below 100,
-- whose instances are their class plus 100, and whose strings are those at 7.
use pyo.Base.{
  ==-same, ℕ, suc, zero, ◌+◌, ◌-◌, ◌≡◌, ◌≢◌, refl, sym, arith, true, ◌&&◌, Bool-cases, inl, inr,
  leb, ◌==◌, if◌then◌else◌, none, some, List, [], ◌∷◌, ret,
}
use pyo.Errors.{
  Triple, Exception, panic_exception, system_error, type_error, Python, value, to_object, PyErr,
  value_pointer, restore, fetch,
}
use pyo.Errors.Laws.{no_error, IsLawful}
use pyo.Errors.Exchange.{fetch-restore}
use pyo.Errors.Clones.{one_if}

-- A class is not null.
data Indicator : Type 0 where
  clear : Indicator
  raised : (class_minus_one pvalue ptraceback : ℕ) → Indicator

record Simulated : Type 0 where
  indicator : Indicator
  taken : List ℕ

abbrev occurred_class : Indicator → ℕ
occurred_class clear = 0
occurred_class (raised t v b) = suc t

abbrev triple_in : Indicator → Triple
triple_in clear = no_error
triple_in (raised t v b) = record { ptype = suc t; pvalue = v; ptraceback = b }

abbrev indicator_of : Triple → Indicator
indicator_of t = elim t.ptype [ zero ↦ clear | suc n ↦ raised n t.pvalue t.ptraceback ]

abbrev class_of : Exception → ℕ
class_of panic_exception = 1
class_of system_error = 2
class_of type_error = 3
class_of e = 4

abbrev normalized_triple : Triple → Triple
normalized_triple t =
    if leb 100 t.pvalue && (t.pvalue - 100 == t.ptype)
    then t
    else record t { pvalue = t.ptype + 100 }

abbrev count : ℕ → List ℕ → ℕ
count q [] = 1
count q (p ∷ ps) = count q ps + one_if (p == q)

abbrev python : Python Simulated
python = record {
  err_occurred = λ w. occurred_class w.indicator;
  err_fetch = λ w. (triple_in w.indicator, record w { indicator = clear });
  err_restore = λ t w. record w { indicator = indicator_of t };
  err_normalize = λ t w. (normalized_triple t, w);
  err_print = λ b w. record w { indicator = clear };
  incref = λ p w. record w { taken = p ∷ w.taken };
  is_exception_class = λ p w. leb 1 p && leb p 99;
  is_exception_instance = λ p w. leb 100 p;
  exception_class = λ p w. p - 100;
  type_object = class_of;
  none_object = 5;
  string_object = λ s w. (7, w);
  string_text = λ p w. if p == 7 then some "seven" else none;
}

fetch_unset_lem : (i : Indicator) → occurred_class i ≡ 0 → (triple_in i ≡ no_error) × (i ≡ clear)
fetch_unset_lem clear h = (refl, refl)
fetch_unset_lem (raised t v b) h = absurd (ground (arith, h))

fetch_type_lem : (i : Indicator) → (triple_in i).ptype ≡ occurred_class i
fetch_type_lem clear = refl
fetch_type_lem (raised t v b) = refl

triple_in-indicator_of :
    (p v b : ℕ)
    → p ≢ 0
    → let t : Triple = record { ptype = p; pvalue = v; ptraceback = b } in
      triple_in (indicator_of t) ≡ t
triple_in-indicator_of zero v b h = absurd (h refl)
triple_in-indicator_of (suc n) v b h = refl

indicator_of-triple_in : (i : Indicator) → occurred_class i ≢ 0 → indicator_of (triple_in i) ≡ i
indicator_of-triple_in clear h = absurd (h refl)
indicator_of-triple_in (raised t v b) h = refl

normalized_triple_lem :
    (t : Triple)
    → ((normalized_triple t).ptype ≡ t.ptype)
      × (leb 100 (normalized_triple t).pvalue ≡ true)
      × ((normalized_triple t).pvalue - 100 ≡ (normalized_triple t).ptype)
normalized_triple_lem t = elim (Bool-cases (leb 100 t.pvalue && (t.pvalue - 100 == t.ptype))) [
  | inl h ↦ rw h ground (arith, h)
  | inr h ↦ rw h (refl, ground arith, omega arith)
]

class_of_lem : (e : Exception) → class_of e ≢ 0
class_of_lem panic_exception h = absurd (ground (arith, h))
class_of_lem system_error h = absurd (ground (arith, h))
class_of_lem type_error h = absurd (ground (arith, h))
class_of_lem _ h = absurd (ground (arith, h))

python-IsLawful : IsLawful python
python-IsLawful = record {
  fetch_unset = λ w h. let (a, b) = fetch_unset_lem w.indicator h in rw (a, sym b) refl;
  fetch_type = λ w. fetch_type_lem w.indicator;
  fetch_clears = λ w. refl;
  fetch_restore = λ t w h g.
      rw (triple_in-indicator_of t.ptype t.pvalue t.ptraceback h, (fetch_unset_lem w.indicator g).1)
        refl;
  restore_fetch = λ w h. rw (indicator_of-triple_in w.indicator h) refl;
  print_clears = λ b w. refl;
  normalize_instance = λ t w h. let (a, b, c) = normalized_triple_lem t in (b, c);
  normalize_type = λ t w h. rw ((normalized_triple_lem t).0) h;
  normalize_same = λ t w h. let (a, b) = h in rw (a, b, ==-same) refl;
  incref_occurred = λ p w. refl;
  incref_instance = λ p q w. refl;
  incref_class = λ p q w. refl;
  null_instance = λ w. refl;
  type_object_some = class_of_lem;
}

abbrev quiet : Simulated
quiet = record { indicator = clear; taken = [] }

-- A TypeError with a lazy message and a traceback.
abbrev lazy_error : PyErr Simulated
lazy_error = record { ptype = 3; pvalue = to_object (λ w. (7, w)); ptraceback = some 9 }

fetch-restore_example :
    fetch python (restore python lazy_error quiet)
    ≡ (ret (record lazy_error { pvalue = value 7 }), quiet)
unfolding value_pointer
fetch-restore_example =
    fetch-restore python python-IsLawful lazy_error quiet
      (λ h. ground (arith, h), λ h. ground (arith, h)) refl refl
