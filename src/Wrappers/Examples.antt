-- ===== src/Wrappers/Examples.antt =====
-- A class whose `__setitem__` asks for the length of its own object.
use pyo.Base.{ℕ, ◌+◌, refl, arith, Bool, false, ◌==◌, if◌then◌else◌, List, [], Result, ok, err}
use pyo.Callback.{CValue, integer, pos, finished}
use pyo.Wrappers.{Objects, CallMut}
use pyo.Wrappers.Flags.{AreWords, SameFlags, IsBalanced}
use pyo.Wrappers.Slots.{SlotCall, unary, assigns, call_slot, call_slot-IsBalanced}

-- Object 9 is no argument that the method takes.
abbrev extract : ℕ → Result ℕ Bool
extract arg = if arg == 9 then err false else ok arg

abbrev length_call : SlotCall ℕ ℕ Bool
length_call = unary (λ a s. (finished (ok (integer (pos a))), s)) 1

abbrev set_item : ℕ → List ℕ → CallMut ℕ CValue Bool
set_item a vs s = let (ended, t) = call_slot extract length_call s in ((a + 1, ended), t)

set_item-IsBalanced : (a : ℕ) (vs : List ℕ) → IsBalanced (set_item a vs)
set_item-IsBalanced a vs s words o =
    call_slot-IsBalanced extract length_call (λ a t small p. refl) s words o

abbrev idle : Objects ℕ
idle = record {
  cells = λ o. record { value = 5; borrow_flag = 0 };
  heap = record { refcnt = λ o. 1; freed = [] };
}

idle-AreWords : AreWords idle
idle-AreWords o = omega arith

call_slot-IsBalanced_example : SameFlags idle (call_slot extract (assigns set_item 1 2 3) idle).1
call_slot-IsBalanced_example =
    call_slot-IsBalanced extract (assigns set_item 1 2 3) set_item-IsBalanced idle idle-AreWords
