-- ===== src/Proto/Select.antt =====
-- `build_py_proto` in pyo3-derive-backend/src/pyproto.rs, and which setters are called for a block.
use text.Mathlib.Text.{◌==◌}
use text.Mathlib.TextEquality.{eq_iff}
use pyo.Base.{
  ◌≡◌, refl, ap, ◌∙◌, inl, inr, arith, Bool, true, false, ◌&&◌, ◌||◌, if◌then◌else◌, Bool-cases,
  Option, none, some, String, List, [], ◌∷◌, ◌++◌, Result, ok, err,
}
use pyo.Proto.Defs.{
  MethodProto, PyMethod, SlotSetter, Proto, get_proto, get_method, find_proto, find_method,
  proto_name,
}
use pyo.Proto.{
  contains, all_in, is_called, select_setters, Block, add_proto, add_method, collect, ProtoImpl,
  impl_proto_impl,
}
use pyo.Proto.Tables.Basic.{object, async, buffer, context, gc, descr, iter}
use pyo.Proto.Tables.Containers.{mapping, seq}
use pyo.Proto.Tables.Number.{num}

-- The descriptor of a trait, by the last segment of its path.
unfoldable pub proto_for : String → Option Proto
proto_for name =
    if name == "PyObjectProtocol"
    then some object
    else if name == "PyAsyncProtocol"
    then some async
    else if name == "PyMappingProtocol"
    then some mapping
    else if name == "PyIterProtocol"
    then some iter
    else if name == "PyContextProtocol"
    then some context
    else if name == "PySequenceProtocol"
    then some seq
    else if name == "PyNumberProtocol"
    then some num
    else if name == "PyDescrProtocol"
    then some descr
    else if name == "PyBufferProtocol"
    then some buffer
    else if name == "PyGCProtocol"
    then some gc
    else none

pub data ProtoError : Type 0 where
  cannot_be_used_with_this_block only_with_trait_implementations : ProtoError

last_segment : List String → Option String
last_segment [] = none
last_segment (segment ∷ []) = some segment
last_segment (segment ∷ segments) = last_segment segments

-- The path of the trait that the block implements, if it implements one, and the block's methods.
unfoldable pub build_py_proto : Option (List String) → List String → Result ProtoImpl ProtoError
unfolding last_segment proto_for
build_py_proto none names = err only_with_trait_implementations
build_py_proto (some path) names = elim (last_segment path) [
  | none ↦ err only_with_trait_implementations
  | some segment ↦ elim (proto_for segment) [
    | none ↦ err cannot_be_used_with_this_block
    | some proto ↦ ok (impl_proto_impl proto names)
  ]
]

abbrev known : Option MethodProto → Bool
known none = false
known (some m) = true

abbrev any_setter : (SlotSetter → Bool) → List SlotSetter → Bool
any_setter test [] = false
any_setter test (m ∷ ms) = test m || any_setter test ms

method_names-add_method :
    (name : String) (m : Option PyMethod) (b : Block)
    → (add_method name m b).method_names ≡ b.method_names
unfolding add_method
method_names-add_method name none b = refl
method_names-add_method name (some m) b = refl

contains-add_proto :
    (name x : String) (m : Option MethodProto) (b : Block)
    → contains (add_proto name m b).method_names x
      ≡ (((name == x) && known m) || contains b.method_names x)
unfolding add_proto
contains-add_proto name x none b = ground arith
contains-add_proto name x (some m) b = ground arith

known-same :
    (p : Proto) (name x : String)
    → ((name == x) && known (get_proto p name)) ≡ ((name == x) && known (get_proto p x))
known-same p name x = elim (Bool-cases (name == x)) [
  | inl same ↦ rw same (ap (λ n. known (get_proto p n)) ((eq_iff name x).0 same))
  | inr other ↦ rw other refl
]

-- The methods that the trait knows are collected.
contains-collect :
    (p : Proto) (names : List String) (b : Block) (x : String)
    → contains (collect p names b).method_names x
      ≡ ((contains names x && known (get_proto p x)) || contains b.method_names x)
unfolding collect
contains-collect p [] b x = refl
contains-collect p (name ∷ names) b x =
    let b' = add_proto name (get_proto p name) b in
    ground (
      arith,
      contains-collect p names (add_method name (get_method p name) b') x,
      ap (λ ns. contains ns x) (method_names-add_method name (get_method p name) b'),
      contains-add_proto name x (get_proto p name) b,
      known-same p name x,
    )

contains-append :
    (xs ys : List String) (f : String) → contains (xs ++ ys) f ≡ (contains xs f || contains ys f)
contains-append [] ys f = refl
contains-append (x ∷ xs) ys f = ground (arith, contains-append xs ys f)

-- For a setter that is not skipped, the loop calls it if it finds all its methods.
select_setters_lem :
    (names skipped : List String) (ms : List SlotSetter) (f : String)
    → contains skipped f ≡ false
    → any_setter (λ m. all_in names m.proto_names && contains m.skipped_setters f) ms ≡ false
    → contains (select_setters names skipped ms) f
      ≡ any_setter (λ m. (m.set_function == f) && all_in names m.proto_names) ms
unfolding select_setters
select_setters_lem names skipped [] f h k = refl
select_setters_lem names skipped (m ∷ ms) f h k = elim (Bool-cases (is_called names skipped m)) [
  | inl called ↦ ground (
    arith,
    contains-append skipped m.skipped_setters f,
    select_setters_lem names (skipped ++ m.skipped_setters) ms f,
  )
  | inr passed ↦ elim (Bool-cases (m.set_function == f)) [
    | inl same ↦ ground (
      arith,
      ap (contains skipped) ((eq_iff m.set_function f).0 same),
      select_setters_lem names skipped ms f,
    )
    | inr other ↦ ground (arith, select_setters_lem names skipped ms f)
  ]
]

abbrev all_known : Proto → List String → Bool
all_known p [] = true
all_known p (n ∷ ns) = known (get_proto p n) && all_known p ns

-- The block has all the methods of the setter, and its trait knows them.
abbrev provided : Proto → List String → SlotSetter → Bool
provided p names m = all_in names m.proto_names && all_known p m.proto_names

abbrev empty_block : Block
empty_block = record { trait_impls = []; method_names = []; py_methods = [] }

all_in-collect :
    (p : Proto) (names ns : List String)
    → all_in (collect p names empty_block).method_names ns ≡ (all_in names ns && all_known p ns)
all_in-collect p names [] = refl
all_in-collect p names (n ∷ ns) =
    ground (arith, contains-collect p names empty_block n, all_in-collect p names ns)

any_setter-same :
    (t t' : SlotSetter → Bool) (ms : List SlotSetter)
    → ((m : SlotSetter) → t m ≡ t' m)
    → any_setter t ms ≡ any_setter t' ms
any_setter-same t t' [] same = refl
any_setter-same t t' (m ∷ ms) same = rw (same m, any_setter-same t t' ms same) refl

-- For every trait and every block: a setter that no setter with all its methods skips is called
-- exactly if the trait has a setter of this name whose methods are all in the block and all known
-- to the trait.
pub impl_proto_impl_lem :
    (p : Proto) (names : List String) (f : String)
    → any_setter (λ m. provided p names m && contains m.skipped_setters f) p.slot_setters ≡ false
    → contains (impl_proto_impl p names).initializers f
      ≡ any_setter (λ m. (m.set_function == f) && provided p names m) p.slot_setters
unfolding impl_proto_impl
impl_proto_impl_lem p names f free =
    select_setters_lem _ [] p.slot_setters f refl (
      any_setter-same _ _ p.slot_setters (λ m. rw (all_in-collect p names m.proto_names) refl)
      ∙ free)
    ∙ any_setter-same _ _ p.slot_setters (λ m. rw (all_in-collect p names m.proto_names) refl)

-- `__delete__` of `PyDescrProtocol` is not known to `DESCR`: a block with the method gives what the
-- block without it gives.
pub impl_proto_impl-delete :
    (before after : List String)
    → impl_proto_impl descr (before ++ "__delete__" ∷ after)
      ≡ impl_proto_impl descr (before ++ after)
unfolding impl_proto_impl collect add_proto add_method get_proto get_method find_proto find_method
    proto_name
impl_proto_impl-delete before after = rw (go before after _) refl
  where
    go :
        (before after : List String) (b : Block)
        → collect descr (before ++ "__delete__" ∷ after) b ≡ collect descr (before ++ after) b
    go [] after b = refl
    go (n ∷ ns) after b = go ns after _
