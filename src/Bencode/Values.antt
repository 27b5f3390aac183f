-- ===== src/Bencode/Values.antt =====
-- The values that bencode_codec.py encodes and returns, and its errors.
use lif.Common.{
  ℕ, zero, suc, Result, err, Bool, List, Bytes, bytes_eq, ℤ, Option, none, some, if◌then◌else◌,
}

-- What leaves a call: ValueError, TypeError, AssertionError, UnicodeEncodeError, RecursionError.
-- `out_of_fuel` has no counterpart in the program.
pub data Error : Type 0 where
  value_error type_error assertion_error unicode_error recursion_error out_of_fuel : Error

-- What the interpreter refuses with a ValueError to print or to read as an `int` (sys.int_info): a
-- number of more digits.
abbrev pub max_str_digits : ℕ
max_str_digits = 4300

-- sys.getrecursionlimit(): the frames of a stack. The components that call the codec here call it with
-- all of them: how many their own callers have taken is not modelled.
abbrev pub recursion_limit : ℕ
recursion_limit = 1000

-- A call with a stack of so many frames left: it takes one, and the calls in it have the others.
unfoldable pub in_call : {A : Type 0} → ℕ → (ℕ → Result Error A) → Result Error A
in_call zero body = err recursion_error
in_call (suc frames) body = body frames

-- A `str` is the list of its code points.
abbrev pub Text : Type 0
Text = List ℕ

pub data Key : Type 0 where
  bytes_key : Bytes → Key
  text_key : Text → Key
  other_key : Key

-- A Python object. `null` is None, `other` an object of any further type.
mutual
  pub data Value : Type 0 where
    null : Value
    bool : Bool → Value
    int : ℤ → Value
    bytes : Bytes → Value
    text : Text → Value
    list : Items → Value
    dict : Entries → Value
    other : Value

  -- A list, and a dict in its order of insertion.
  pub data Items : Type 0 where
    no_items : Items
    item : Value → Items → Items

  pub data Entries : Type 0 where
    no_entries : Entries
    entry : Key → Value → Entries → Entries

-- d.get(key): a `bytes` key equals no `str` key.
unfoldable pub get : Bytes → Entries → Option Value
get k no_entries = none
get k (entry (bytes_key j) v es) = if bytes_eq j k then some v else get k es
get k (entry (text_key t) v es) = get k es
get k (entry other_key v es) = get k es

-- d[key] = value: a key that is there keeps its place.
unfoldable pub put : Bytes → Value → Entries → Entries
put k v no_entries = entry (bytes_key k) v no_entries
put k v (entry (bytes_key j) w es) =
    if bytes_eq j k then entry (bytes_key j) v es else entry (bytes_key j) w (put k v es)
put k v (entry (text_key t) w es) = entry (text_key t) w (put k v es)
put k v (entry other_key w es) = entry other_key w (put k v es)
