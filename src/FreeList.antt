-- ===== src/FreeList.antt =====
-- src/freelist.rs: the `FreeList` of deallocated objects, a stack in a vector of slots.
pub mod Stack
pub mod Runs
mod Examples
use pyo.Base.{
  ℕ, zero, suc, ◌≡◌, Bool, List, Option, none, some, ltb, if◌then◌else◌, get_elem?, set, replicate,
  usize_add, Outcome, ret, panic,
}

pub data Slot {ℓ} (A : Type ℓ) : Type ℓ where
  empty : Slot A
  filled : A → Slot A

pub record FreeList {ℓ} (A : Type ℓ) : Type ℓ where
  pub entries : List (Slot A)
  pub split : ℕ
  pub capacity : ℕ

module _ {ℓ} {A : Type ℓ} where
  unfoldable pub with_capacity : ℕ → FreeList A
  with_capacity capacity = record {
    entries = replicate capacity empty;
    split = 0;
    capacity = capacity;
  }

  -- The arms of the `match` on the slot that is taken out.
  pop_slot : FreeList A → ℕ → Option (Slot A) → Outcome (Option A × FreeList A)
  pop_slot l i none = panic "index out of bounds"
  pop_slot l i (some empty) = panic "FreeList is corrupt"
  pop_slot l i (some (filled v)) =
      ret (some v, record l { entries = set l.entries i empty; split = i })

  -- The index is `idx - 1`, so the test `idx == 0` is a match.
  pop_at : FreeList A → ℕ → Outcome (Option A × FreeList A)
  unfolding pop_slot
  pop_at l zero = ret (none, l)
  pop_at l (suc i) = pop_slot l i (get_elem? l.entries i)

  unfoldable pub pop : FreeList A → Outcome (Option A × FreeList A)
  unfolding pop_at
  pop l = pop_at l l.split

  -- `entries[split] = Filled(val)`, with its bounds check.
  store : FreeList A → A → Option (Slot A) → Outcome (Option A × FreeList A)
  store l val none = panic "index out of bounds"
  store l val (some _) =
      ret (
        none,
        record l { entries = set l.entries l.split (filled val); split = usize_add l.split 1 },
      )

  unfoldable pub insert : A → FreeList A → Outcome (Option A × FreeList A)
  unfolding store
  insert val l =
      if ltb (usize_add l.split 1) l.capacity
      then store l val (get_elem? l.entries l.split)
      else ret (some val, l)
