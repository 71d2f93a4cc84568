-- ===== src/Handles/Leaves.antt =====
-- What is left of references after a function that returns, as rules for its parts.
use pyo.Base.{
  ℕ, ◌+◌, ◌≡◌, refl, sym, arith, Bool, true, false, ◌==◌, if◌then◌else◌, Outcome, ret, panic,
  Result, ok, err, ret-injective,
}
use pyo.Refcount.{one}
use pyo.Handles.{Counting, SameWord, Functions, fetched, finally}

-- Null owns nothing.
abbrev pub owned : ℕ → ℕ → ℕ
owned o ptr = if ptr == 0 then 0 else one o ptr

-- What CPython documents: a function returns a new reference or null, and leaves the references that
-- Rust code owns as they are, since what it stores Python's objects hold. An error that `fetch`
-- returns owns its objects.
pub record IsFair {W E : Type 0} (f : Functions W E) (owed : ℕ → W → ℕ) (error_refs : ℕ → E → ℕ)
    : Type 0 where
  pub owed-fetch :
      (o : ℕ) (w : W) (e : E)
      → (f.fetch w).0 ≡ ret e
      → SameWord (owed o (f.fetch w).1) (owed o w + error_refs o e)
  pub owed-get_attr :
      (o obj name : ℕ) (w : W)
      → SameWord (owed o (f.get_attr obj name w).1) (owed o w + owned o (f.get_attr obj name w).0)
  pub owed-call_object :
      (o callable args kwargs : ℕ) (w : W)
      → SameWord
          (owed o (f.call_object callable args kwargs w).1)
          (owed o w + owned o (f.call_object callable args kwargs w).0)
  pub owed-rich_compare :
      (o obj other op : ℕ) (w : W)
      → SameWord
          (owed o (f.rich_compare obj other op w).1)
          (owed o w + owned o (f.rich_compare obj other op w).0)
  pub owed-object_is_true :
      (o obj : ℕ) (w : W) → SameWord (owed o (f.object_is_true obj w).1) (owed o w)

-- A conversion that makes a new reference.
abbrev pub IsNew : {W : Type 0} → (ℕ → W → ℕ) → (W → ℕ × W) → Type 0
IsNew {W} owed value =
    (o : ℕ) (w : W) → SameWord (owed o (value w).1) (owed o w + owned o (value w).0)

abbrev pub result_refs : {A E : Type 0} → (A → ℕ) → (ℕ → E → ℕ) → ℕ → Result A E → ℕ
result_refs value_refs error_refs o (ok a) = value_refs a
result_refs value_refs error_refs o (err e) = error_refs o e

-- What `fetched` makes of an outcome.
fetched_inv :
    {W E A : Type 0} (c : Counting W) (f : Functions W E) (q : Outcome E × W) (r : Result A E)
    → (fetched c f {A = A} q).0 ≡ ret r
    → (e : E) × (q.0 ≡ ret e) × (r ≡ err e)
unfolding fetched
fetched_inv c f (ret e, w) r h = (e, refl, sym (ret-injective _ _ h))
fetched_inv c f (panic m, w) r h = absurd (ground (arith, h))

fetched-world :
    {W E : Type 0} (A : Type 0) (c : Counting W) (f : Functions W E) (q : Outcome E × W)
    → (fetched c f {A = A} q).1 ≡ q.1
unfolding fetched
fetched-world A c f (ret e, w) = refl
fetched-world A c f (panic m, w) = refl

module _ {W E A : Type 0} (owed : ℕ → W → ℕ) (error_refs : ℕ → E → ℕ) (o : ℕ)
    (value_refs : A → ℕ) where
  -- A function that returns leaves the references that there were, and those of its result.
  abbrev pub Leaves : ℕ → Outcome (Result A E) × W → Type 0
  Leaves base q =
      (r : Result A E)
      → q.0 ≡ ret r
      → SameWord (owed o q.1) (base + result_refs value_refs error_refs o r)

  pub Leaves-if :
      (base : ℕ) (b : Bool) (p q : Outcome (Result A E) × W)
      → (b ≡ true → Leaves base p)
      → (b ≡ false → Leaves base q)
      → Leaves base (if b then p else q)
  Leaves-if base true p q l m = l refl
  Leaves-if base false p q l m = m refl

  pub Leaves-result :
      (base : ℕ) (r : Result A E) (w : W)
      → SameWord (owed o w) (base + result_refs value_refs error_refs o r)
      → Leaves base (ret r, w)
  Leaves-result base r w b r' h = rw (sym (ret-injective _ _ h)) b

  module _ (c : Counting W) (f : Functions W E) where
    pub Leaves-finally :
        (after : W → W) (n base : ℕ) (q : Outcome (Result A E) × W)
        → ((v : W) → SameWord (owed o (after v) + n) (owed o v))
        → Leaves (base + n) q
        → Leaves base (finally c f after q)
    unfolding finally
    Leaves-finally after n base (ret a, v) undo l r h = omega (arith, undo v, l r h)
    Leaves-finally after n base (panic m, v) undo l r h = absurd (ground (arith, h))

    pub Leaves-fetched :
        (base : ℕ) (w : W)
        → IsFair f owed error_refs
        → SameWord (owed o w) base
        → Leaves base (fetched c f (f.fetch w))
    Leaves-fetched base w fair b r h =
        let (e, returned, is_err) = fetched_inv c f (f.fetch w) r h in
        rw (is_err, fetched-world A c f (f.fetch w)) (omega (arith, fair.owed-fetch o w e returned))
