-- ===== src/Bencode/Decode.antt =====
-- The decoder of dht_scraper/bencode_codec.py. A position in the `input` is the input from there on:
-- each function takes `input[index:]` and returns `input[next_index:]` behind the value.
use lif.Common.{
  ℕ, zero, suc, ◌+◌, ◌*◌, [], ◌∷◌, Bool, false, ◌&&◌, ◌||◌, not, Option, none, some, Bytes,
  bytes_eq, ascii, split_at, ltb, ◌==◌, length, take, drop, ℤ, pos, negate, is_digit, isdigit,
  parse_nat, Result, ok, err, ◌>>=◌, ◌>>◌, guard, if◌then◌else◌,
}
use lif.Bencode.Values.{
  Error, value_error, assertion_error, out_of_fuel, max_str_digits, in_call, Value, int, bytes,
  list, dict, Items, no_items, item, Entries, no_entries, put,
}

abbrev pub Decoder {ℓ} : Type ℓ → Type ℓ
Decoder A = Bytes → Result Error (A × Bytes)

abbrev pub first : Bytes → Bytes → Bool
first c [] = false
first c (b ∷ bs) = bytes_eq (b ∷ []) c

-- text[1:] if text[:1] == b"-" else text
unfoldable pub strip_sign : Bytes → Bytes
strip_sign [] = []
strip_sign (c ∷ cs) = if c == b'-' then cs else c ∷ cs

-- int(text), on digits behind an optional sign
unfoldable pub parse_int : Bytes → ℤ
parse_int [] = pos 0
parse_int (c ∷ cs) = if c == b'-' then negate (parse_nat cs) else pos (parse_nat (c ∷ cs))

unfoldable pub bad_int : Bytes → Bool
unfolding strip_sign
bad_int text =
    let digits = strip_sign text in
    not (isdigit digits)
    || (ltb 1 (length digits) && first (ascii "0") digits)
    || bytes_eq text (ascii "-0")

unfoldable pub read_int : Option (Bytes × Bytes) → Result Error (Value × Bytes)
unfolding bad_int parse_int strip_sign
read_int none = err value_error
read_int (some (text, rest)) =
    if bad_int text || ltb max_str_digits (length (strip_sign text))
    then err value_error
    else ok (int (parse_int text), rest)

-- `input` is the input behind the `i`.
unfoldable pub decode_int_at : Decoder Value
unfolding read_int
decode_int_at input = read_int (split_at b'e' input)

-- `int` refuses more than `max_str_digits` digits. Without a leading zero they are a length that no input
-- has, which is the next error of `decode_bytes_at`.
abbrev pub int_refused : Bytes → Bool
int_refused length_text = ltb max_str_digits (length length_text) && first (ascii "0") length_text

unfoldable pub read_bytes : Option (Bytes × Bytes) → Result Error (Bytes × Bytes)
read_bytes none = err value_error
read_bytes (some (length_text, start)) =
    let n = parse_nat length_text in
    if not (isdigit length_text) || int_refused length_text
    then err value_error
    else if ltb (length start) n
    then err value_error
    else ok (take n start, drop n start)

unfoldable pub decode_bytes_at : Decoder Bytes
unfolding read_bytes
decode_bytes_at input = read_bytes (split_at b':' input)

-- `frames` are those left of the interpreter's stack; where they end, the call raises RecursionError.
-- Every call costs a unit of fuel. `decode_list_at` and `decode_dict_at` are the `while` loops of
-- the source, behind the `l` or `d`, whose frame is taken.
unfoldable mutual
  pub decode_value_at : ℕ → ℕ → Decoder Value
  decode_value_at frames zero input = err out_of_fuel
  decode_value_at frames (suc fuel) [] = in_call frames (λ f. err assertion_error)
  decode_value_at frames (suc fuel) (c ∷ input) = in_call frames (λ f.
      let as_list =
        in_call f (λ g. do (xs, rest) ← decode_list_at g fuel input; ok (list xs, rest)) in
      let as_dict =
        in_call f
          (λ g. do (es, rest) ← decode_dict_at g fuel no_entries input; ok (dict es, rest)) in
      let as_bytes =
        in_call f (λ g. do (b, rest) ← decode_bytes_at (c ∷ input); ok (bytes b, rest)) in
      if c == b'i'
      then in_call f (λ g. decode_int_at input)
      else if c == b'l'
      then as_list
      else if c == b'd'
      then as_dict
      else if is_digit c
      then as_bytes
      else err value_error)

  pub decode_list_at : ℕ → ℕ → Decoder Items
  decode_list_at frames zero input = err out_of_fuel
  decode_list_at frames (suc fuel) [] = err value_error
  decode_list_at frames (suc fuel) (c ∷ input) =
      let more = (do
        (v, rest) ← decode_value_at frames fuel (c ∷ input)
        (xs, rest') ← decode_list_at frames fuel rest
        ok (item v xs, rest')) in
      if c == b'e' then ok (no_items, input) else more

  pub decode_dict_at : ℕ → ℕ → Entries → Decoder Entries
  decode_dict_at frames zero items input = err out_of_fuel
  decode_dict_at frames (suc fuel) items [] = err value_error
  decode_dict_at frames (suc fuel) items (c ∷ input) =
      let more = (do
        (key, rest) ← in_call frames (λ f. decode_bytes_at (c ∷ input))
        guard (ltb 0 (length rest)) value_error
        (v, rest') ← decode_value_at frames fuel rest
        decode_dict_at frames fuel (put key v items) rest') in
      if c == b'e' then ok (items, input) else if is_digit c then more else err value_error

-- `decode_value_at` with the fuel that is enough for any input.
abbrev pub decode_value : ℕ → Decoder Value
decode_value frames input = decode_value_at frames (2 * length input + 1) input

unfoldable pub decode_bencode : ℕ → Bytes → Result Error Value
decode_bencode frames input = in_call frames (λ f. do
  guard (ltb 0 (length input)) value_error
  (v, rest) ← decode_value f input
  guard (length rest == 0) value_error
  ok v)
