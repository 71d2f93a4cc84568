-- ===== src/Classes/Names.antt =====
-- The texts that `initialize_type_object` of src/pyclass.rs makes C strings of.
use Prim.Native.String.{String, ◌++◌}
use pyo.Base.{if◌then◌else◌, Option, none, some, Result, ok, err, then_ok}
use pyo.Classes.{has_nul}
use pyo.Classes.TypeObject.{Description, nul_only, terminated, unterminated}

-- `NulError` of `CString::new`, or what `PyType_Ready` raised.
pub data TypeError : Type 0 where
  nul_error not_ready : TypeError

unfoldable pub c_string_or_nul : String → Result String TypeError
c_string_or_nul s = if has_nul s then err nul_error else ok s

unfoldable pub description_doc : Description → Result (Option String) TypeError
unfolding c_string_or_nul
description_doc nul_only = ok none
description_doc (terminated text) = ok (some text)
description_doc (unterminated text) = then_ok (c_string_or_nul text) λ s. ok (some s)

unfoldable pub qualified_name : Option String → String → Result String TypeError
unfolding c_string_or_nul
qualified_name none name = c_string_or_nul name
qualified_name (some module_name) name = c_string_or_nul (module_name ++ ("." ++ name))
