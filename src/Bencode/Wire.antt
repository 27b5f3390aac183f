-- ===== src/Bencode/Wire.antt =====
-- The wire format (BEP 3) of the values that it can carry, and the encoder against it.
use lif.Common.{
  ℕ, suc, ◌-◌, ◌≤◌, leb, length, [], ◌∷◌, ◌++◌, Bool, true, false, ◌&&◌, Bytes, bytes_eq,
  bytes_eq→eq, bytes_lt, bytes_lt_irrefl, ℤ, Result, ok, if◌then◌else◌, ◌≡◌, refl, arith,
  append_assoc, Bool-cases, inl, inr, append-nil,
}
use lif.Bencode.Values.{
  Error, max_str_digits, in_call, bytes_key, text_key, other_key, Value, int, bytes, list, dict,
  Items, no_items, item, Entries, no_entries, entry,
}
use lif.Bencode.Encode.{
  encode_int, int_wire, digits, encode_bytes, Pairs, put_pair, insert_pair, sort_pairs,
  keys_allowed, normalize_keys, join_pairs, encode_dict, encode_bencode, encode_items, encode_pairs,
}

-- Every key is a `bytes` key above `k`.
unfoldable pub above : Bytes → Entries → Bool
above k no_entries = true
above k (entry (bytes_key j) v es) = bytes_lt k j && above k es
above k (entry (text_key t) v es) = false
above k (entry other_key v es) = false

-- The values that bencode carries unchanged, and that a stack with `frames` left has room for: integers
-- of at most `max_str_digits` digits, byte strings, lists of such, and dicts from byte strings to such,
-- in the order of their keys.
mutual
  pub data IsCanonical : ℕ → Value → Type 0 where
    number :
        {frames : ℕ} (n : ℤ)
        → leb (length (digits n)) max_str_digits ≡ true
        → IsCanonical (suc (suc frames)) (int n)
    string : {frames : ℕ} (b : Bytes) → IsCanonical (suc (suc frames)) (bytes b)
    items :
        {frames : ℕ} {xs : Items}
        → AreCanonical frames xs
        → IsCanonical (suc (suc (suc frames))) (list xs)
    entries :
        {frames : ℕ} {es : Entries}
        → AreSorted frames es
        → IsCanonical (suc (suc (suc frames))) (dict es)

  pub data AreCanonical : ℕ → Items → Type 0 where
    none_left : {frames : ℕ} → AreCanonical frames no_items
    next_item :
        {frames : ℕ} {v : Value} {xs : Items}
        → IsCanonical frames v
        → AreCanonical frames xs
        → AreCanonical frames (item v xs)

  pub data AreSorted : ℕ → Entries → Type 0 where
    empty : {frames : ℕ} → AreSorted frames no_entries
    next_entry :
        {frames : ℕ} {k : Bytes} {v : Value} {es : Entries}
        → IsCanonical frames v
        → above k es ≡ true
        → AreSorted frames es
        → AreSorted frames (entry (bytes_key k) v es)

-- `i<number>e`, `<length>:<bytes>`, `l<values>e`, `d<keys and values>e`
unfoldable mutual
  pub wire : Value → Bytes
  wire (int n) = int_wire n
  wire (bytes b) = encode_bytes b
  wire (list xs) = b'l' ∷ (wire_items xs ++ b'e' ∷ [])
  wire (dict es) = b'd' ∷ (wire_entries es ++ b'e' ∷ [])
  wire v = []

  pub wire_items : Items → Bytes
  wire_items no_items = []
  wire_items (item v xs) = wire v ++ wire_items xs

  pub wire_entries : Entries → Bytes
  wire_entries no_entries = []
  wire_entries (entry (bytes_key k) v es) = encode_bytes k ++ (wire v ++ wire_entries es)
  wire_entries (entry k v es) = []

lacks : Bytes → Pairs → Bool
lacks k [] = true
lacks k ((j, w) ∷ ps) = if bytes_eq j k then false else lacks k ps

put_pair-lacks :
    (k : Bytes) (v : Result Error Bytes) (ps : Pairs)
    → lacks k ps ≡ true
    → put_pair k v ps ≡ ps ++ (k, v) ∷ []
unfolding lacks put_pair
put_pair-lacks k v [] h = refl
put_pair-lacks k v ((j, w) ∷ ps) h = ground (arith, put_pair-lacks k v ps)

-- No key of `es` is in `ps`.
abbrev AllLack : Pairs → Entries → Type 0
AllLack ps no_entries = Unit
AllLack ps (entry (bytes_key k) v es) = (lacks k ps ≡ true) × AllLack ps es
AllLack ps (entry (text_key t) v es) = Unit
AllLack ps (entry other_key v es) = Unit

pub lt→ne : (j k : Bytes) → bytes_lt j k ≡ true → bytes_eq j k ≡ false
lt→ne j k h = elim (Bool-cases (bytes_eq j k)) [
  | inl e ↦ cc (bytes_lt_irrefl k, rw (bytes_eq→eq j k e) at h)
  | inr e ↦ e
]

lacks-append :
    (k j : Bytes) (w : Result Error Bytes) (ps : Pairs)
    → lacks k ps ≡ true
    → bytes_eq j k ≡ false
    → lacks k (ps ++ (j, w) ∷ []) ≡ true
unfolding lacks
lacks-append k j w [] h d = rw d
lacks-append k j w ((i, u) ∷ ps) h d = ground (arith, lacks-append k j w ps)

pub and-left : (a b : Bool) → (a && b) ≡ true → a ≡ true
and-left a b h = ground arith

pub and-right : (a b : Bool) → (a && b) ≡ true → b ≡ true
and-right a b h = ground arith

AllLack-append :
    (k : Bytes) (w : Result Error Bytes) (ps : Pairs) (es : Entries)
    → above k es ≡ true
    → AllLack ps es
    → AllLack (ps ++ (k, w) ∷ []) es
unfolding above
AllLack-append k w ps no_entries a h = tt
AllLack-append k w ps (entry (bytes_key j) v es) a h = (
  lacks-append j k w ps h.0 (lt→ne k j (and-left _ _ a)),
  AllLack-append k w ps es (and-right _ _ a) h.1,
)
AllLack-append k w ps (entry (text_key t) v es) a h = tt
AllLack-append k w ps (entry other_key v es) a h = tt

-- The pairs of a dict whose keys are bytes.
plain : ℕ → Entries → Pairs
plain f no_entries = []
plain f (entry (bytes_key k) v es) = (k, encode_bencode f v) ∷ plain f es
plain f (entry k v es) = []

normalize_keys-plain :
    {n : ℕ} (f : ℕ) {es : Entries} (ps : Pairs)
    → AreSorted n es
    → AllLack ps es
    → normalize_keys (encode_pairs f es) ps ≡ ok (ps ++ plain f es)
unfolding normalize_keys encode_bencode plain
normalize_keys-plain f ps empty h = rw append-nil
normalize_keys-plain f ps (next_entry {k} {v} {es} c a s) h =
    rw (put_pair-lacks k (encode_bencode f v) ps h.0) (
      rw
        (normalize_keys-plain f (ps ++ (k, encode_bencode f v) ∷ []) s
          (AllLack-append k (encode_bencode f v) ps es a h.1))
        (rw append_assoc))

AllLack-nil : (es : Entries) → AllLack [] es
unfolding lacks
AllLack-nil no_entries = tt
AllLack-nil (entry (bytes_key k) v es) = (refl, AllLack-nil es)
AllLack-nil (entry (text_key t) v es) = tt
AllLack-nil (entry other_key v es) = tt

keys_allowed-sorted :
    {n : ℕ} (f : ℕ) {es : Entries} → AreSorted n es → keys_allowed (encode_pairs f es) ≡ true
unfolding keys_allowed encode_bencode
keys_allowed-sorted f empty = refl
keys_allowed-sorted f (next_entry c a s) = keys_allowed-sorted f s

insert_pair-above :
    {n : ℕ} (f : ℕ) {es : Entries} (k : Bytes) (v : Result Error Bytes)
    → AreSorted n es
    → above k es ≡ true
    → insert_pair k v (plain f es) ≡ (k, v) ∷ plain f es
unfolding insert_pair plain above
insert_pair-above f k v empty h = refl
insert_pair-above f k v (next_entry c a s) h = ground arith

sort_pairs-plain :
    {n : ℕ} (f : ℕ) {es : Entries} → AreSorted n es → sort_pairs (plain f es) ≡ plain f es
unfolding sort_pairs plain
sort_pairs-plain f empty = refl
sort_pairs-plain f (next_entry {k} {v} c a s) =
    rw (sort_pairs-plain f s) (insert_pair-above f k (encode_bencode f v) s a)

calls :
    {A : Type 0} (frames f : ℕ) (body : ℕ → Result Error A) (r : Result Error A)
    → frames ≡ suc f
    → body f ≡ r
    → in_call frames body ≡ r
unfolding in_call
calls frames f body r p h = rw p h

mutual
  unfolding encode_bencode wire join_pairs plain encode_dict encode_int

  encode_value :
      {n : ℕ} {v : Value} (f : ℕ) → IsCanonical n v → n ≤ f → encode_bencode f v ≡ ok (wire v)
  encode_value f (number n fits) p =
      calls f (f - 1) _ _ (omega arith) (calls (f - 1) (f - 2) _ _ (omega arith) (rw fits))
  encode_value f (string b) p =
      calls f (f - 1) _ _ (omega arith) (calls (f - 1) (f - 2) _ _ (omega arith) refl)
  encode_value f (items cs) p = calls f (f - 1) _ _ (omega arith) (
      calls (f - 1) (f - 2) _ _ (omega arith)
        (calls (f - 2) (f - 3) _ _ (omega arith) (rw (encode_list (f - 3) cs (omega arith)))))
  encode_value f (entries {es} s) p = calls f (f - 1) _ _ (omega arith) (
      calls (f - 1) (f - 2) _ _ (omega arith) (
        calls (f - 2) (f - 3) _ _ (omega arith) (
          rw (
            keys_allowed-sorted (f - 2) s,
            normalize_keys-plain (f - 2) [] s (AllLack-nil es),
            sort_pairs-plain (f - 2) s,
            join_plain (f - 2) s (omega arith),
          ))))

  encode_list :
      {n : ℕ} {xs : Items} (f : ℕ)
      → AreCanonical n xs
      → n ≤ f
      → encode_items f xs ≡ ok (wire_items xs)
  encode_list f none_left p = refl
  encode_list f (next_item c cs) p = rw (encode_value f c p, encode_list f cs p)

  join_plain :
      {n : ℕ} {es : Entries} (f : ℕ)
      → AreSorted n es
      → n ≤ f
      → join_pairs (plain f es) ≡ ok (wire_entries es)
  join_plain f empty p = refl
  join_plain f (next_entry c a s) p = rw (encode_value f c p, join_plain f s p)

-- A canonical value is encoded, without an error, as the wire format says.
pub encode_bencode-wire :
    {n : ℕ} {v : Value} (f : ℕ) → IsCanonical n v → n ≤ f → encode_bencode f v ≡ ok (wire v)
encode_bencode-wire f c p = encode_value f c p
