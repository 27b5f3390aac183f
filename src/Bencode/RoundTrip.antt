-- ===== src/Bencode/RoundTrip.antt =====
-- The encoder and the decoder of dht_scraper/bencode_codec.py, one after the other.
use lif.Common.{
  ℕ, zero, suc, ◌+◌, ◌*◌, ◌<◌, ◌≤◌, ◌-◌, [], ◌∷◌, ◌++◌, Bool, true, false, Bytes, ltb, length,
  length-append, is_digit, lt→ltb, ok, ◌>>=◌, ◌>>◌, guard, ◌≡◌, refl, arith, append_assoc,
  append-nil,
}
use lif.Bencode.Values.{
  in_call, value_error, Value, bytes, Items, item, Entries, no_entries, entry, bytes_key, put,
}
use lif.Bencode.Encode.{int_wire, encode_bytes, encode_bencode}
use lif.Bencode.Decode.{
  decode_bytes_at, decode_value_at, decode_list_at, decode_dict_at, decode_bencode,
}
use lif.Bencode.Scalars.{
  opens, opens-wire, length-wire_pos, print_nat-split, decode_bytes_at-encode, decode_int_at-print,
  length-encode_bytes_pos,
}
use lif.Bencode.Dicts.{
  put-absent, AllAbsent, AllAbsent-append, AllAbsent-nil, append_entries, append_entries_assoc,
  append_entries-nil,
}
use lif.Bencode.Wire.{
  IsCanonical, number, string, items, entries, AreCanonical, none_left, next_item, AreSorted, empty,
  next_entry, wire, wire_items, wire_entries, encode_bencode-wire,
}

abbrev starts_digit : Bytes → Bool
starts_digit [] = false
starts_digit (c ∷ cs) = is_digit c

starts_digit-encode_bytes : (b rest : Bytes) → starts_digit (encode_bytes b ++ rest) ≡ true
unfolding encode_bytes
starts_digit-encode_bytes b rest = let (c, cs, e, d) = print_nat-split (length b) in rw e d

value_step :
    (l f : ℕ) (input : Bytes)
    → starts_digit input ≡ true
    → decode_value_at (suc (suc l)) (suc f) input
      ≡ (do (b, rest) ← decode_bytes_at input; ok (bytes b, rest))
unfolding decode_value_at in_call
value_step l f [] h = cc
value_step l f (c ∷ input) h = ground arith

list_step :
    (m f : ℕ) (input : Bytes)
    → opens input ≡ true
    → decode_list_at m (suc f) input ≡ (do
      (v, rest) ← decode_value_at m f input
      (xs, rest') ← decode_list_at m f rest
      ok (item v xs, rest'))
unfolding decode_value_at opens
list_step m f [] h = cc
list_step m f (c ∷ input) h = ground arith

dict_step :
    (l f : ℕ) (done : Entries) (input : Bytes)
    → starts_digit input ≡ true
    → decode_dict_at (suc l) (suc f) done input ≡ (do
      (key, rest) ← decode_bytes_at input
      guard (ltb 0 (length rest)) value_error
      (v, rest') ← decode_value_at (suc l) f rest
      decode_dict_at (suc l) f (put key v done) rest')
unfolding decode_value_at in_call
dict_step l f done [] h = cc
dict_step l f done (c ∷ input) h = ground arith

lt_length : (a b : Bytes) → 0 < length a → ltb 0 (length (a ++ b)) ≡ true
lt_length a b h = ground (arith, length-append a b)

-- for `omega`, on byte strings
length-append_bytes : (a b : Bytes) → length (a ++ b) ≡ length a + length b
length-append_bytes = length-append

-- A value takes two frames at least, so what a stack has room for leaves one for a key.
frames_pos : {n : ℕ} {v : Value} → IsCanonical n v → 2 ≤ n
frames_pos (number n fits) = omega arith
frames_pos (string b) = omega arith
frames_pos (items cs) = omega arith
frames_pos (entries s) = omega arith

two_left : (m n : ℕ) → 2 ≤ n → n ≤ m → (l : ℕ) × (m ≡ suc (suc l))
two_left m n p q = (m - 2, omega arith)

mutual
  unfolding decode_value_at wire int_wire in_call

  read_value :
      (l f : ℕ) (rest : Bytes) {n : ℕ} {v : Value} (c : IsCanonical n v)
      → n ≤ suc (suc l)
      → 2 * length (wire v) < f
      → decode_value_at (suc (suc l)) f (wire v ++ rest) ≡ ok (v, rest)
  read_value l zero rest c q h = absurd (omega arith)
  read_value l (suc f) rest (number n fits) q h = rw append_assoc (decode_int_at-print n rest fits)
  read_value l (suc f) rest (string b) q h =
      rw (value_step l f (encode_bytes b ++ rest) (starts_digit-encode_bytes b rest))
        (rw (decode_bytes_at-encode b rest))
  read_value l (suc f) rest (items {xs} cs) q h = rw append_assoc (
      rw (
        read_list l f rest cs (omega arith)
          (omega (arith, length-append_bytes (wire_items xs) (b'e' ∷ [])))))
  read_value l (suc f) rest (entries {es} s) q h = rw append_assoc (
      rw (
        read_dict l f no_entries rest s (AllAbsent-nil es) (omega arith)
          (omega (arith, length-append_bytes (wire_entries es) (b'e' ∷ [])))))

  read_list :
      (m f : ℕ) (rest : Bytes) {n : ℕ} {xs : Items} (c : AreCanonical n xs)
      → n ≤ m
      → 2 * length (wire_items xs) + 3 < f
      → decode_list_at m f (wire_items xs ++ (b'e' ∷ rest)) ≡ ok (xs, rest)
  read_list m zero rest c q h = absurd (omega arith)
  read_list m (suc f) rest none_left q h = refl
  read_list m (suc f) rest (next_item {v} {xs} c cs) q h =
      let sizes = length-append_bytes (wire v) (wire_items xs) in
      let (l, deep) = two_left m _ (frames_pos c) q in
      let value =
        read_value l f (wire_items xs ++ (b'e' ∷ rest)) c (omega (arith, deep)) (omega arith) in
      rw append_assoc (
        rw (list_step m f (wire v ++ (wire_items xs ++ (b'e' ∷ rest))) (opens-wire _ c)) (
          rw (rw (← deep) at value)
            (rw (read_list m f rest cs q (omega (arith, length-wire_pos c))))))

  read_dict :
      (m f : ℕ) (done : Entries) (rest : Bytes) {n : ℕ} {es : Entries} (s : AreSorted n es)
      → AllAbsent done es
      → n ≤ m
      → 2 * length (wire_entries es) + 3 < f
      → decode_dict_at m f done (wire_entries es ++ (b'e' ∷ rest))
        ≡ ok (append_entries done es, rest)
  read_dict m zero done rest s a q h = absurd (omega arith)
  read_dict m (suc f) done rest empty a q h = rw (append_entries-nil done)
  read_dict m (suc f) done rest (next_entry {k} {v} {es} c o s) a q h =
      let after = wire_entries es ++ (b'e' ∷ rest) in
      let sizes = length-append_bytes (encode_bytes k) (wire v ++ wire_entries es) in
      let sizes' = length-append_bytes (wire v) (wire_entries es) in
      let (l, deep) = two_left m _ (frames_pos c) q in
      rw deep (
        simp append_assoc (
          rw
            (dict_step (suc l) f done (encode_bytes k ++ (wire v ++ after))
              (starts_digit-encode_bytes k (wire v ++ after)))
            (rw (
              decode_bytes_at-encode k (wire v ++ after),
              lt_length (wire v) after (length-wire_pos c),
              read_value l f after c (omega (arith, deep)) (omega arith),
              put-absent k v done a.0,
              read_dict (suc (suc l)) f (append_entries done (entry (bytes_key k) v no_entries))
                  rest s (AllAbsent-append k v done es o a.1) (omega (arith, deep))
                  (omega (arith, length-encode_bytes_pos k, length-wire_pos c)),
              append_entries_assoc done (entry (bytes_key k) v no_entries) es,
            ))))

pub decode_value_at-wire :
    (m f : ℕ) {n : ℕ} {v : Value} (rest : Bytes)
    → IsCanonical n v
    → n ≤ m
    → 2 * length (wire v) < f
    → decode_value_at m f (wire v ++ rest) ≡ ok (v, rest)
decode_value_at-wire m f rest c q h =
    let (l, deep) = two_left m _ (frames_pos c) q in
    rw deep (read_value l f rest c (omega (arith, deep)) h)

pub decode_bencode-wire :
    (l : ℕ) {n : ℕ} {v : Value} → IsCanonical n v → n < l → decode_bencode l (wire v) ≡ ok v
unfolding decode_bencode in_call
decode_bencode-wire zero c p = absurd (omega arith)
decode_bencode-wire (suc l) {n} {v} c p =
    let whole = decode_value_at-wire l (2 * length (wire v) + 1) [] c (omega arith) (omega arith) in
    rw (lt→ltb 0 (length (wire v)) (length-wire_pos c)) (rw (rw append-nil at whole))

-- A canonical value that `n` frames have room for is encoded without an error with any stack of at least
-- so many, and decoding the result with any stack of more returns that value.
pub decode_bencode-encode_bencode :
    (n m l : ℕ) (v : Value)
    → IsCanonical n v
    → n ≤ m
    → n < l
    → (b : Bytes) × (encode_bencode m v ≡ ok b) × (decode_bencode l b ≡ ok v)
decode_bencode-encode_bencode n m l v c q p =
    (wire v, encode_bencode-wire m c q, decode_bencode-wire l c p)

-- Two canonical values with one encoding, on any stacks with room for them, are the same value.
pub encode_bencode-injective :
    (n m l : ℕ) (v w : Value)
    → IsCanonical n v
    → IsCanonical m w
    → n ≤ l
    → m ≤ l
    → encode_bencode l v ≡ encode_bencode l w
    → v ≡ w
encode_bencode-injective n m l v w c d p q e =
    let (a, encoded, decoded) = decode_bencode-encode_bencode n l (suc l) v c p (omega arith) in
    let (b, encoded', decoded') = decode_bencode-encode_bencode m l (suc l) w d q (omega arith) in
    cc
