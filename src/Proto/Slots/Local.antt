-- ===== src/Proto/Slots/Local.antt =====
-- One slot after the setters of a `#[pyproto]` block (src/class/), apart from the other slots.
use text.Mathlib.Text.{◌==◌}
use text.Mathlib.TextEquality.{eq_iff}
use pyo.Base.{
  ◌≡◌, refl, ap, sym, ◌∙◌, inl, inr, arith, Bool, true, false, not, ◌&&◌, ◌||◌, if◌then◌else◌,
  Bool-cases, Option, none, some, String, List, [], ◌∷◌, ◌++◌,
}
use pyo.Proto.Defs.{SlotSetter}
use pyo.Proto.{contains, is_called, select_setters}
use pyo.Proto.Slots.Table.{SetterEffect, Table, find_effect, run_effect, run_setters}

module _ (es : List SetterEffect) (slot : String) where
  abbrev effect_on : Option SetterEffect → Bool
  effect_on none = false
  effect_on (some e) = e.slot == slot

  -- Whether a setter is one of the slot.
  abbrev pub on : String → Bool
  unfolding find_effect
  on f = effect_on (find_effect f es)

  abbrev pub none_on : List String → Bool
  unfolding find_effect
  none_on [] = true
  none_on (f ∷ fs) = not (on f) && none_on fs

  -- A setter of another slot skips no setter of this one.
  abbrev pub is_separate : List SlotSetter → Bool
  unfolding find_effect
  is_separate [] = true
  is_separate (m ∷ ms) = (on m.set_function || none_on m.skipped_setters) && is_separate ms

  abbrev pub only_on : List SlotSetter → List SlotSetter
  unfolding find_effect
  only_on [] = []
  only_on (m ∷ ms) = if on m.set_function then m ∷ only_on ms else only_on ms

  -- Two lists of skipped setters with the same setters of the slot.
  abbrev pub Agree : List String → List String → Type 0
  unfolding find_effect
  Agree xs ys = (f : String) → on f ≡ true → contains xs f ≡ contains ys f

contains-append :
    (xs ys : List String) (f : String) → contains (xs ++ ys) f ≡ (contains xs f || contains ys f)
contains-append [] ys f = refl
contains-append (x ∷ xs) ys f = ground (arith, contains-append xs ys f)

module _ (es : List SetterEffect) (slot : String) where
  run_effect-same :
      (e : Option SetterEffect) (t t' : Table)
      → t slot ≡ t' slot
      → run_effect e t slot ≡ run_effect e t' slot
  run_effect-same none t t' h = h
  run_effect-same (some e) t t' h = ground arith

  run_effect-other :
      (e : Option SetterEffect) (t : Table)
      → effect_on es slot e ≡ false
      → run_effect e t slot ≡ t slot
  run_effect-other none t h = refl
  run_effect-other (some e) t h = ground arith

  contains-none_on :
      (fs : List String) (f : String)
      → none_on es slot fs ≡ true
      → on es slot f ≡ true
      → contains fs f ≡ false
  unfolding find_effect
  contains-none_on [] f h k = refl
  contains-none_on (g ∷ fs) f h k = elim (Bool-cases (g == f)) [
    | inl same ↦ absurd (ground (arith, ap (on es slot) ((eq_iff g f).0 same)))
    | inr other ↦ ground (arith, contains-none_on fs f)
  ]

  -- The restriction to one slot.
  pub run_setters-only_on :
      (method_names : List String) (ms : List SlotSetter) (xs ys : List String) (t t' : Table)
      → is_separate es slot ms ≡ true
      → Agree es slot xs ys
      → t slot ≡ t' slot
      → run_setters es (select_setters method_names xs ms) t slot
        ≡ run_setters es (select_setters method_names ys (only_on es slot ms)) t' slot
  unfolding select_setters run_setters find_effect
  run_setters-only_on method_names [] xs ys t t' h a e = e
  run_setters-only_on method_names (m ∷ ms) xs ys t t' h a e =
      elim (Bool-cases (on es slot m.set_function)) [
        | inl here ↦
            let same : is_called method_names xs m ≡ is_called method_names ys m =
              rw (a m.set_function here) refl in
            rw here (elim (Bool-cases (is_called method_names xs m)) [
              | inl called ↦
                  rw (called, select_setters)
                    (rw (sym same ∙ called, select_setters)
                      (run_setters-only_on method_names ms (xs ++ m.skipped_setters)
                        (ys ++ m.skipped_setters) _ _ (ground arith) (more a)
                        (run_effect-same (find_effect m.set_function es) t t' e)))
              | inr skipped ↦
                  rw (skipped, select_setters)
                    (rw (sym same ∙ skipped, select_setters)
                      (run_setters-only_on method_names ms xs ys t t' (ground arith) a e))
            ])
        | inr other ↦ rw other (elim (Bool-cases (is_called method_names xs m)) [
          | inl called ↦
              rw (called, select_setters)
                (run_setters-only_on method_names ms (xs ++ m.skipped_setters) ys _ t'
                  (ground arith) (fewer (ground arith) a)
                  (run_effect-other (find_effect m.set_function es) t other ∙ e))
          | inr skipped ↦
              rw (skipped, select_setters)
                (run_setters-only_on method_names ms xs ys t t' (ground arith) a e)
        ])
      ]
    where
      more : Agree es slot xs ys → Agree es slot (xs ++ m.skipped_setters) (ys ++ m.skipped_setters)
      more a f k = ground (
        arith,
        a f k,
        contains-append xs m.skipped_setters f,
        contains-append ys m.skipped_setters f,
      )

      fewer :
          none_on es slot m.skipped_setters ≡ true
          → Agree es slot xs ys
          → Agree es slot (xs ++ m.skipped_setters) ys
      fewer apart a f k = ground (
        arith,
        a f k,
        contains-append xs m.skipped_setters f,
        contains-none_on m.skipped_setters f apart k,
      )
