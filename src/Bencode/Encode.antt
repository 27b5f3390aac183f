-- ===== src/Bencode/Encode.antt =====
-- The encoder of dht_scraper/bencode_codec.py.
use lif.Common.{
  ℕ, suc, ◌+◌, ◌/◌, ◌%◌, List, [], ◌∷◌, ◌++◌, Bool, true, false, ◌&&◌, Bytes, bytes_eq, bytes_lt,
  ltb, leb, length, ℤ, pos, negsuc, print_nat, Result, ok, err, ◌>>=◌, ◌>>◌, guard, if◌then◌else◌,
}
use lif.Bencode.Values.{
  Error, value_error, max_str_digits, in_call, type_error, assertion_error, unicode_error, Text,
  Key, bytes_key, text_key, other_key, Value, null, bool, int, bytes, text, list, dict, other,
  Items, no_items, item, Entries, no_entries, entry,
}

-- One character in UTF-8; a surrogate has no encoding.
unfoldable pub utf8_char : ℕ → Result Error Bytes
utf8_char c =
    if ltb c 0x80
    then ok (c ∷ [])
    else if ltb c 0x800
    then ok ((0xc0 + c / 0x40) ∷ (0x80 + c % 0x40) ∷ [])
    else if leb 0xd800 c && leb c 0xdfff
    then err unicode_error
    else if ltb c 0x10000
    then ok ((0xe0 + c / 0x1000) ∷ (0x80 + c / 0x40 % 0x40) ∷ (0x80 + c % 0x40) ∷ [])
    else ok (
        (0xf0 + c / 0x40000)
        ∷ (0x80 + c / 0x1000 % 0x40)
        ∷ (0x80 + c / 0x40 % 0x40)
        ∷ (0x80 + c % 0x40)
        ∷ [])

-- value.encode("utf-8")
unfoldable pub utf8 : Text → Result Error Bytes
unfolding utf8_char
utf8 [] = ok []
utf8 (c ∷ cs) = do b ← utf8_char c; bs ← utf8 cs; ok (b ++ bs)

-- str(value).encode("ascii")
unfoldable pub print_int : ℤ → Bytes
print_int (pos n) = print_nat n
print_int (negsuc n) = b'-' ∷ print_nat (suc n)

-- The digits of the number, without its sign.
unfoldable pub digits : ℤ → Bytes
digits (pos n) = print_nat n
digits (negsuc n) = print_nat (suc n)

unfoldable pub int_wire : ℤ → Bytes
unfolding print_int
int_wire n = b'i' ∷ (print_int n ++ b'e' ∷ [])

-- `str` refuses a number of more than `max_str_digits` digits.
unfoldable pub encode_int : ℤ → Result Error Bytes
unfolding digits int_wire
encode_int n = do guard (leb (length (digits n)) max_str_digits) value_error; ok (int_wire n)

unfoldable pub encode_bytes : Bytes → Bytes
encode_bytes b = print_nat (length b) ++ b':' ∷ b

-- A dict under construction: pairs in the order of insertion, each value its encoding or the error
-- that encoding it raises.
abbrev pub Pairs : Type 0
Pairs = List (Bytes × Result Error Bytes)

unfoldable pub key_bytes : Key → Result Error Bytes
unfolding utf8
key_bytes (bytes_key b) = ok b
key_bytes (text_key t) = utf8 t
key_bytes other_key = err assertion_error

unfoldable pub put_pair : Bytes → Result Error Bytes → Pairs → Pairs
put_pair k v [] = (k, v) ∷ []
put_pair k v ((j, w) ∷ ps) = if bytes_eq j k then (j, v) ∷ ps else (j, w) ∷ put_pair k v ps

unfoldable pub insert_pair : Bytes → Result Error Bytes → Pairs → Pairs
insert_pair k v [] = (k, v) ∷ []
insert_pair k v ((j, w) ∷ ps) =
    if bytes_lt k j then (k, v) ∷ (j, w) ∷ ps else (j, w) ∷ insert_pair k v ps

-- sorted(normalized), with the values that the keys stand for
unfoldable pub sort_pairs : Pairs → Pairs
unfolding insert_pair
sort_pairs [] = []
sort_pairs ((k, v) ∷ ps) = insert_pair k v (sort_pairs ps)

unfoldable pub keys_allowed : List (Key × Result Error Bytes) → Bool
keys_allowed [] = true
keys_allowed ((other_key, v) ∷ ps) = false
keys_allowed ((bytes_key b, v) ∷ ps) = keys_allowed ps
keys_allowed ((text_key t, v) ∷ ps) = keys_allowed ps

unfoldable pub normalize_keys : List (Key × Result Error Bytes) → Pairs → Result Error Pairs
unfolding key_bytes put_pair
normalize_keys [] done = ok done
normalize_keys ((k, v) ∷ ps) done = do b ← key_bytes k; normalize_keys ps (put_pair b v done)

-- b"".join(parts), the parts computed in order
unfoldable pub join_pairs : Pairs → Result Error Bytes
join_pairs [] = ok []
join_pairs ((k, v) ∷ ps) = do b ← v; rest ← join_pairs ps; ok (encode_bytes k ++ (b ++ rest))

unfoldable pub encode_dict : List (Key × Result Error Bytes) → Result Error Bytes
unfolding keys_allowed normalize_keys sort_pairs join_pairs
encode_dict entries = do
  guard (keys_allowed entries) assertion_error
  normalized ← normalize_keys entries []
  parts ← join_pairs (sort_pairs normalized)
  ok (b'd' ∷ (parts ++ b'e' ∷ []))

-- `frames` are those left of the interpreter's stack. Besides the functions, the generators of
-- `encode_list` and of the assertion in `encode_dict` take a frame.
-- `encode_pairs` only prepares the values of a dict: `encode_dict` decides which of them are read.
unfoldable mutual
  unfolding encode_int

  pub encode_bencode : ℕ → Value → Result Error Bytes
  encode_bencode frames null = in_call frames (λ f. err assertion_error)
  encode_bencode frames (bool b) = in_call frames (λ f. err type_error)
  encode_bencode frames (int n) = in_call frames (λ f. in_call f (λ g. encode_int n))
  encode_bencode frames (bytes b) = in_call frames (λ f. in_call f (λ g. ok (encode_bytes b)))
  encode_bencode frames (text t) =
      in_call frames (λ f. do b ← utf8 t; in_call f (λ g. ok (encode_bytes b)))
  encode_bencode frames (list xs) = in_call frames (λ f.
      in_call f
        (λ g. in_call g (λ h. do parts ← encode_items h xs; ok (b'l' ∷ (parts ++ b'e' ∷ [])))))
  encode_bencode frames (dict es) =
      in_call frames (λ f. in_call f (λ g. in_call g (λ h. encode_dict (encode_pairs g es))))
  encode_bencode frames other = in_call frames (λ f. err type_error)

  pub encode_items : ℕ → Items → Result Error Bytes
  encode_items frames no_items = ok []
  encode_items frames (item v xs) = do
    b ← encode_bencode frames v
    bs ← encode_items frames xs
    ok (b ++ bs)

  pub encode_pairs : ℕ → Entries → List (Key × Result Error Bytes)
  encode_pairs frames no_entries = []
  encode_pairs frames (entry k v es) = (k, encode_bencode frames v) ∷ encode_pairs frames es
