-- ===== src/Bencode/Tests.antt =====
-- Runs of the codec (tests/codec/test_bencode_codec.py among them), and the theorems at inputs.
use lif.Common.{
  ◌⊎◌, ◌≤◌, ◌+◌, ◌*◌, split_at, parse_nat, bytes_lt, bytes_eq, print_nat, [], ◌∷◌, ◌++◌, Bytes,
  ascii, replicate, pos, negsuc, ok, err, ◌≡◌, refl, arith, true,
}
use lif.Bencode.Values.{
  in_call, recursion_error, put, value_error, type_error, assertion_error, Value, int, bytes, list,
  dict, text, bool, null, item, no_items, entry, no_entries, bytes_key, text_key,
}
use lif.Bencode.Encode.{
  digits, int_wire, utf8, encode_bencode, encode_dict, encode_bytes, encode_int,
}
use lif.Bencode.Decode.{decode_bencode, decode_value_at, decode_bytes_at, decode_int_at}
use lif.Bencode.Wire.{
  IsCanonical, number, string, items, entries, none_left, next_item, empty, next_entry, above,
}
use lif.Bencode.RoundTrip.{decode_bencode-encode_bencode, encode_bencode-injective}
use lif.Bencode.Safety.{Reads, decode_value_at-Reads, decode_bencode_error}

-- {b"a": [-7, 0], b"t": b"xy"}
abbrev sample : Value
sample = dict (
    entry (bytes_key (ascii "a")) (list (item (int (negsuc 6)) (item (int (pos 0)) no_items)))
      (entry (bytes_key (ascii "t")) (bytes (ascii "xy")) no_entries))

sample-IsCanonical : IsCanonical 8 sample
unfolding above bytes_lt digits print_nat
sample-IsCanonical = entries (
    next_entry (items (next_item (number _ refl) (next_item (number _ refl) none_left))) refl
      (next_entry (string _) refl empty))

abbrev sample_wire : Bytes
sample_wire = ascii "d1:ali-7ei0ee1:t2:xye"

encode_sample : encode_bencode 8 sample ≡ ok sample_wire
unfolding in_call int_wire digits encode_bencode encode_dict bytes_eq bytes_lt encode_bytes
    print_nat encode_int
encode_sample = refl

decode_sample : decode_bencode 9 sample_wire ≡ ok sample
unfolding in_call decode_bencode decode_value_at decode_bytes_at decode_int_at split_at bytes_eq
    parse_nat put
decode_sample = refl

-- Keys come sorted, a `str` is encoded in UTF-8, and a key twice is one entry.
encode_mixed_keys :
    encode_bencode 50 (
      dict (
        entry (text_key (0xe9 ∷ [])) (int (pos 1)) (
          entry
            (bytes_key (ascii "b"))
            (text (0x20ac ∷ []))
            (entry (bytes_key (0xc3 ∷ 0xa9 ∷ [])) (int (pos 2)) no_entries))))
    ≡ ok (ascii "d1:b3:" ++ (0xe2 ∷ 0x82 ∷ 0xac ∷ ascii "2:" ++ (0xc3 ∷ 0xa9 ∷ ascii "i2ee")))
unfolding in_call int_wire digits encode_bencode encode_dict bytes_eq bytes_lt encode_bytes
    print_nat encode_int utf8
encode_mixed_keys = refl

encode_refused :
    (encode_bencode 50 (list (item (bool true) no_items)) ≡ err type_error)
    × (encode_bencode 50 null ≡ err assertion_error)
unfolding in_call encode_bencode
encode_refused = (refl, refl)

decode_refused :
    (decode_bencode 50 (ascii "i03e") ≡ err value_error)
    × (decode_bencode 50 (ascii "i-0e") ≡ err value_error)
    × (decode_bencode 50 (ascii "5:abc") ≡ err value_error)
    × (decode_bencode 50 (ascii "li1e") ≡ err value_error)
    × (decode_bencode 50 (ascii "i1e2") ≡ err value_error)
unfolding in_call decode_bencode decode_value_at decode_bytes_at decode_int_at split_at bytes_eq
    parse_nat
decode_refused = (refl, refl, refl, refl, refl)

-- Lists in lists, deeper than the stack (test_deep_nesting_does_not_crash_with_value_error).
decode_nested : decode_bencode 50 (replicate 30 b'l') ≡ err recursion_error
unfolding in_call decode_bencode decode_value_at
decode_nested = refl

decode_bencode-encode_bencode_example :
    (b : Bytes) × (encode_bencode 50 sample ≡ ok b) × (decode_bencode 60 b ≡ ok sample)
decode_bencode-encode_bencode_example =
    decode_bencode-encode_bencode 8 50 60 sample sample-IsCanonical (omega arith) (omega arith)

encode_bencode-injective_example : sample ≡ sample
encode_bencode-injective_example =
    encode_bencode-injective 8 8 50 sample sample sample-IsCanonical sample-IsCanonical
      (omega arith) (omega arith) refl

decode_value_at-Reads_example :
    Reads 50 (ascii "i1e:rest") (decode_value_at 50 17 (ascii "i1e:rest"))
decode_value_at-Reads_example =
    decode_value_at-Reads 50 17 (ascii "i1e:rest") (omega arith) (omega arith)

decode_bencode_error_example :
    (value_error ≡ value_error) ⊎ ((value_error ≡ recursion_error) × (50 ≤ 2 * 4 + 1))
decode_bencode_error_example = decode_bencode_error 50 (ascii "i1e2") value_error decode_refused.4
