-- ===== src/FnArgs/Dict.antt =====
-- What src/derive_utils.rs uses of a Python dictionary.
use text.Mathlib.Text.{◌==◌}
use pyo.Base.{◌≡◌, Bool, true, false, if◌then◌else◌, Option, none, some, String, Result, ok}

-- `D` is the type of dictionaries with string keys, `V` that of values, and `E` that of exceptions.
pub record DictOps (D V E : Type 0) : Type 0 where
  pub copy : D → Result D E
  pub get_item : String → D → Option V
  pub del_item : String → D → Result D E
  pub is_empty : D → Bool
  pub first_key : D → Option String

-- What Python documents: a copy is equal, a key that is there can be deleted and then is not there,
-- and an iteration starts unless the dictionary is empty.
pub record IsDict {D V E : Type 0} (ops : DictOps D V E) : Type 0 where
  pub copy_ok : (d : D) → ops.copy d ≡ ok d
  pub del_ok :
      (k : String) (d : D) {v : V}
      → ops.get_item k d ≡ some v
      → (d' : D) × (ops.del_item k d ≡ ok d')
  pub get-del :
      (j k : String) (d : D) {d' : D}
      → ops.del_item k d ≡ ok d'
      → ops.get_item j d' ≡ (if k == j then none else ops.get_item j d)
  pub empty_get : (k : String) (d : D) → ops.is_empty d ≡ true → ops.get_item k d ≡ none
  pub nonempty_key :
      (d : D)
      → ops.is_empty d ≡ false
      → (k : String) × (v : V) × (ops.first_key d ≡ some k) × (ops.get_item k d ≡ some v)
