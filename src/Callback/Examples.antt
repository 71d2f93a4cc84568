-- ===== src/Callback/Examples.antt =====
-- Methods of a class that Python calls.
use pyo.Base.{arith, ◌≡◌, ◌≢◌, ◌↔◌, refl, Bool, true, none, String, [], ◌∷◌, ok, usize_max}
use pyo.Callback.{
  negsuc, integer, length_ssize, ValueOf, err_value, convert, Ended, finished, Caller,
  callback_body,
}
use pyo.Callback.Signals.{callback_body_lem}

abbrev caller : Caller Bool String
caller = record {
  gil = record {
    thread = true;
    started = true;
    gil_count = 1;
    owned_objects = 3 ∷ [];
    owned_anys = [];
    pointers_to_incref = [];
    pointers_to_decref = 3 ∷ [];
    heap = record { refcnt = λ o. 2; freed = [] };
  };
  indicator = none;
}

-- A `__len__` whose result is no Py_ssize_t.
abbrev too_long : Caller Bool String → Ended (ValueOf length_ssize) String × Caller Bool String
too_long s = (finished (ok usize_max), s)

overflows : (callback_body length_ssize too_long caller).0 ≡ integer (negsuc 0)
unfolding callback_body convert err_value
overflows = refl

callback_body_lem_example :
    ((callback_body length_ssize too_long caller).0 ≡ err_value length_ssize)
    ↔ ((callback_body length_ssize too_long caller).1.indicator ≢ none)
callback_body_lem_example =
    callback_body_lem length_ssize too_long caller (λ same. ground (arith, same)) (tt, refl)
