-- ===== src/FnAttr/Accepts.antt =====
-- `PyFunctionAttr::from_meta` (pyo3-derive-backend/src/pyfunction.rs): reading a signature as it is written.
use mathlib.Core.List.{append_assoc}
use pyo.Base.{
  ◌≡◌, refl, ap, ◌∙◌, Bool, true, false, Option, none, some, String, List, [], ◌∷◌, ◌++◌, map,
  Result, ok,
}
use pyo.FnAttr.{
  Lit, str, int, boolean, other_literal, NestedMeta, path, name_value, Argument, var_args_separator,
  var_args, keyword_args, arg, kwarg, PyFunctionAttr, AttrError, vararg_is_ok, kw_arg_is_ok,
  add_star, add_literal, add_work, add_nv_common, add_kwargs, add_name_value, add_item, add_items,
  from_meta,
}
use pyo.FnAttr.Signature.{
  Star, no_star, star, Signature, IsDefault, AreDefaults, IsSignature, keyword_only_of, star_item,
  default_item, stars_items, kwargs_items, write_signature, printed, star_argument,
  default_argument, keyword_only_argument, stars_arguments, positional_argument, is_cons, is_star,
  attr_of,
}

abbrev pub sig : List String → List (String × Lit) → Star → Option String → Signature
sig ps ds st k = record { positional = ps; defaults = ds; stars = st; kwargs = k }

pub append_nil {ℓ} : {A : Type ℓ} (xs : List A) → xs ++ [] ≡ xs
append_nil [] = refl
append_nil (x ∷ xs) = rw (append_nil xs) refl

pub map-snoc {ℓ κ} :
    {A : Type ℓ} {B : Type κ} (f : A → B) (xs : List A) (x : A)
    → map f (xs ++ x ∷ []) ≡ map f xs ++ f x ∷ []
map-snoc f [] x = refl
map-snoc f (y ∷ xs) x = rw (map-snoc f xs x) refl

-- One more argument at the end of the last part there is.
pub push-positional {ℓ} :
    {A : Type ℓ} (P : List A) (a : A) → (P ++ []) ++ a ∷ [] ≡ (P ++ a ∷ []) ++ []
push-positional P a = rw (append_nil P, append_nil (P ++ a ∷ [])) refl

pub push-default {ℓ} :
    {A : Type ℓ} (P D : List A) (a : A) → (P ++ (D ++ [])) ++ a ∷ [] ≡ P ++ ((D ++ a ∷ []) ++ [])
push-default P D a = rw (append_nil D, append_nil (D ++ a ∷ [])) (append_assoc P D (a ∷ []))

pub push-star {ℓ} :
    {A : Type ℓ} (P D : List A) (a : A) → (P ++ (D ++ [])) ++ a ∷ [] ≡ P ++ (D ++ a ∷ [])
push-star P D a = rw (append_nil D) (append_assoc P D (a ∷ []))

pub push-last {ℓ} :
    {A : Type ℓ} (P D S : List A) (a : A)
    → (P ++ (D ++ (S ++ []))) ++ a ∷ [] ≡ P ++ (D ++ (S ++ a ∷ []))
push-last P D S a =
    rw (append_nil S, append_assoc P (D ++ S) (a ∷ []), append_assoc D S (a ∷ [])) refl

abbrev accepted : Bool → Bool → Bool → List Argument → Result PyFunctionAttr AttrError
accepted kw varargs kwargs all =
    ok (record { arguments = all; has_kw = kw; has_varargs = varargs; has_kwargs = kwargs })

pub accept-positional :
    (ps : List String) (n : String)
    → add_item (path n) (attr_of (sig ps [] no_star none))
      ≡ ok (attr_of (sig (ps ++ n ∷ []) [] no_star none))
unfolding add_item add_work attr_of
accept-positional ps n = ap (accepted false false false) (
    push-positional (map positional_argument ps) (arg n none)
    ∙ rw (map-snoc positional_argument ps n) refl)

-- What `add_name_value` does with a default.
default-name_value :
    (n : String) (lit : Lit) (slf : PyFunctionAttr)
    → IsDefault lit
    → add_item (name_value n lit) slf ≡ add_nv_common n (printed lit) slf
unfolding add_item add_name_value
default-name_value n (str value) slf (one, two) = rw (one, two) refl
default-name_value n (int text) slf h = refl
default-name_value n (boolean value) slf h = refl
default-name_value n other_literal slf h = absurd h

is_cons-snoc : (ds : List (String × Lit)) (d : String × Lit) → is_cons (ds ++ d ∷ []) ≡ true
is_cons-snoc [] d = refl
is_cons-snoc (x ∷ ds) d = refl

pub accept-default :
    (ps : List String) (ds : List (String × Lit)) (n : String) (lit : Lit)
    → IsDefault lit
    → add_item (name_value n lit) (attr_of (sig ps ds no_star none))
      ≡ ok (attr_of (sig ps (ds ++ (n, lit) ∷ []) no_star none))
unfolding attr_of add_nv_common kw_arg_is_ok
accept-default ps ds n lit h =
    default-name_value n lit (attr_of (sig ps ds no_star none)) h
    ∙ rw (map-snoc default_argument ds (n, lit), is_cons-snoc ds (n, lit))
        (ap (accepted true false false) (
          push-default (map positional_argument ps) (map default_argument ds)
            (arg n (some (printed lit)))))

pub accept-star :
    (ps : List String) (ds : List (String × Lit)) (name : Option String)
    → add_item (star_item name) (attr_of (sig ps ds no_star none))
      ≡ ok (attr_of (sig ps ds (star name []) none))
unfolding attr_of add_item add_literal add_name_value add_star vararg_is_ok
accept-star ps ds none =
    ap (accepted (is_cons ds) true false)
      (push-star (map positional_argument ps) (map default_argument ds) var_args_separator)
accept-star ps ds (some name) =
    ap (accepted (is_cons ds) true false)
      (push-star (map positional_argument ps) (map default_argument ds) (var_args name))

pub accept-keyword_only :
    (ps : List String) (ds ks : List (String × Lit)) (name : Option String) (n : String) (lit : Lit)
    → IsDefault lit
    → add_item (name_value n lit) (attr_of (sig ps ds (star name ks) none))
      ≡ ok (attr_of (sig ps ds (star name (ks ++ (n, lit) ∷ [])) none))
unfolding attr_of add_nv_common kw_arg_is_ok
accept-keyword_only ps ds ks name n lit h =
    default-name_value n lit (attr_of (sig ps ds (star name ks) none)) h
    ∙ rw
        (
          map-snoc keyword_only_argument ks (n, lit),
          append_nil (map keyword_only_argument ks ++ kwarg n (printed lit) ∷ []),
        )
        (ap (accepted (is_cons ds) true false) (
          push-last (map positional_argument ps) (map default_argument ds)
            (star_argument name ∷ map keyword_only_argument ks) (kwarg n (printed lit))))

pub accept-kwargs :
    (ps : List String) (ds : List (String × Lit)) (st : Star) (n : String)
    → add_item (name_value n (str "**")) (attr_of (sig ps ds st none))
      ≡ ok (attr_of (sig ps ds st (some n)))
unfolding attr_of add_item add_name_value add_kwargs kw_arg_is_ok
accept-kwargs ps ds st n = ap (accepted (is_cons ds) (is_star st) true) (
    push-last (map positional_argument ps) (map default_argument ds) (stars_arguments st)
      (keyword_args n))

-- Reading on from a signature.
abbrev pub reading : List NestedMeta → Signature → Result PyFunctionAttr AttrError
unfolding add_items attr_of
reading items s = add_items items (attr_of s)

read_on :
    (item : NestedMeta) (rest : List NestedMeta) (s s' : Signature)
    → add_item item (attr_of s) ≡ ok (attr_of s')
    → reading (item ∷ rest) s ≡ reading rest s'
unfolding reading add_items
read_on item rest s s' h = rw h refl

read_positional :
    (ps qs : List String) (rest : List NestedMeta)
    → reading (map path qs ++ rest) (sig ps [] no_star none)
      ≡ reading rest (sig (ps ++ qs) [] no_star none)
read_positional ps [] rest = rw (append_nil ps) refl
read_positional ps (n ∷ qs) rest =
    read_on (path n) (map path qs ++ rest) _ _ (accept-positional ps n)
    ∙ read_positional (ps ++ n ∷ []) qs rest
    ∙ rw (append_assoc ps (n ∷ []) qs) refl

read_defaults :
    (ps : List String) (ds es : List (String × Lit)) (rest : List NestedMeta)
    → AreDefaults es
    → reading (map default_item es ++ rest) (sig ps ds no_star none)
      ≡ reading rest (sig ps (ds ++ es) no_star none)
read_defaults ps ds [] rest h = rw (append_nil ds) refl
read_defaults ps ds ((n, lit) ∷ es) rest (h, hs) =
    read_on (name_value n lit) (map default_item es ++ rest) _ _ (accept-default ps ds n lit h)
    ∙ read_defaults ps (ds ++ (n, lit) ∷ []) es rest hs
    ∙ rw (append_assoc ds ((n, lit) ∷ []) es) refl

read_keyword_only :
    (ps : List String) (ds ks es : List (String × Lit)) (name : Option String)
    (rest : List NestedMeta)
    → AreDefaults es
    → reading (map default_item es ++ rest) (sig ps ds (star name ks) none)
      ≡ reading rest (sig ps ds (star name (ks ++ es)) none)
read_keyword_only ps ds ks [] name rest h = rw (append_nil ks) refl
read_keyword_only ps ds ks ((n, lit) ∷ es) name rest (h, hs) =
    read_on (name_value n lit) (map default_item es ++ rest) _ _
      (accept-keyword_only ps ds ks name n lit h)
    ∙ read_keyword_only ps ds (ks ++ (n, lit) ∷ []) es name rest hs
    ∙ rw (append_assoc ks ((n, lit) ∷ []) es) refl

read_stars :
    (ps : List String) (ds : List (String × Lit)) (st : Star) (rest : List NestedMeta)
    → AreDefaults (keyword_only_of st)
    → reading (stars_items st ++ rest) (sig ps ds no_star none) ≡ reading rest (sig ps ds st none)
read_stars ps ds no_star rest h = refl
read_stars ps ds (star name ks) rest h =
    read_on (star_item name) (map default_item ks ++ rest) _ _ (accept-star ps ds name)
    ∙ read_keyword_only ps ds [] ks name rest h

read_kwargs :
    (ps : List String) (ds : List (String × Lit)) (st : Star) (k : Option String)
    → reading (kwargs_items k) (sig ps ds st none) ≡ ok (attr_of (sig ps ds st k))
unfolding reading add_items
read_kwargs ps ds st none = refl
read_kwargs ps ds st (some n) = rw (accept-kwargs ps ds st n) refl

-- Whatever positional parameters, parameters with defaults, star with keyword-only parameters and
-- name for further keywords there are, written in this order they are accepted and read back.
pub from_meta-write_signature :
    (s : Signature) → IsSignature s → from_meta (write_signature s) ≡ ok (attr_of s)
unfolding from_meta write_signature reading attr_of
from_meta-write_signature s (ds, ks) =
    read_positional [] s.positional _
    ∙ read_defaults s.positional [] s.defaults _ ds
    ∙ read_stars s.positional s.defaults s.stars _ ks
    ∙ read_kwargs s.positional s.defaults s.stars s.kwargs
