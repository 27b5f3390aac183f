-- ===== src/Bencode/Scalars.antt =====
-- Integers and byte strings: the text that the encoder writes, and what the decoder makes of it.
use lif.Common.{
  ℕ, zero, suc, ◌<◌, [], ◌∷◌, ◌++◌, Bool, true, false, Bytes, bytes_eq, ascii, split_at-append,
  Lacks, ltb, ◌==◌, length, length-append, take_left, drop_left, ℤ, pos, negsuc, is_digit,
  all_digits, parse_nat-print_nat, print_nat, print_nat-zero, leading, leading-print_nat,
  all_digits-print_nat, length-print_nat_pos, isdigit-print_nat, leb, leb→le, le→leb,
  length-print_nat, ok, ◌≡◌, refl, arith, append_assoc, ◌&&◌, not, ◌≤◌,
}
use lif.Bencode.Values.{Value, int, max_str_digits}
use lif.Bencode.Encode.{print_int, digits, int_wire, encode_bytes}
use lif.Bencode.Decode.{
  strip_sign, parse_int, bad_int, read_int, decode_int_at, read_bytes, decode_bytes_at, first,
  int_refused,
}
use lif.Bencode.Wire.{IsCanonical, number, string, items, entries, wire, and-left, and-right}

Lacks-digits : (c : ℕ) (cs : Bytes) → is_digit c ≡ false → all_digits cs ≡ true → Lacks c cs
Lacks-digits c [] n h = tt
Lacks-digits c (d ∷ ds) n h =
    (ground arith, Lacks-digits c ds n (and-right (is_digit d) (all_digits ds) h))

pub print_nat-split :
    (n : ℕ) → (c : ℕ) × (cs : Bytes) × (print_nat n ≡ c ∷ cs) × (is_digit c ≡ true)
print_nat-split n = go (print_nat n) refl (length-print_nat_pos n) (all_digits-print_nat n)
  where
    go :
        (ds : Bytes)
        → print_nat n ≡ ds
        → 0 < length ds
        → all_digits ds ≡ true
        → (c : ℕ) × (cs : Bytes) × (print_nat n ≡ c ∷ cs) × (is_digit c ≡ true)
    go [] e p h = absurd (omega arith)
    go (c ∷ cs) e p h = (c, cs, e, and-left (is_digit c) (all_digits cs) h)

no_less : (a b : ℕ) → b ≤ a → ltb a b ≡ false
no_less a b h = ground arith

Lacks-print_int : (n : ℤ) → Lacks b'e' (print_int n)
unfolding print_int
Lacks-print_int (pos n) = Lacks-digits b'e' (print_nat n) refl (all_digits-print_nat n)
Lacks-print_int (negsuc n) =
    (refl, Lacks-digits b'e' (print_nat (suc n)) refl (all_digits-print_nat (suc n)))

not_minus : (c : ℕ) → is_digit c ≡ true → (c == b'-') ≡ false
not_minus c h = ground arith

parse_int-print_int : (n : ℤ) → parse_int (print_int n) ≡ n
unfolding parse_int print_int
parse_int-print_int (negsuc n) = rw (parse_nat-print_nat (suc n))
parse_int-print_int (pos n) =
    let (c, cs, e, d) = print_nat-split n in
    rw e (rw (← e) (rw (not_minus c d, parse_nat-print_nat n)))

first-leading : (ds : Bytes) → b'0' < leading ds → first (ascii "0") ds ≡ false
unfolding bytes_eq
first-leading [] h = refl
first-leading (c ∷ cs) h = ground arith

no_leading_zero :
    (n : ℕ) → (ltb 1 (length (print_nat n)) && first (ascii "0") (print_nat n)) ≡ false
no_leading_zero zero = rw print_nat-zero
no_leading_zero (suc n) =
    rw (first-leading (print_nat (suc n)) (leading-print_nat (suc n) (omega arith))) (and_false _)
  where
    and_false : (b : Bool) → (b && false) ≡ false
    and_false b = ground arith

int_refused-print_nat : (n : ℕ) → int_refused (print_nat n) ≡ false
int_refused-print_nat n = ground (arith, no_leading_zero n)

-- A byte string in front of any input.
pub decode_bytes_at-encode :
    (b rest : Bytes) → decode_bytes_at (encode_bytes b ++ rest) ≡ ok (b, rest)
unfolding decode_bytes_at encode_bytes read_bytes
decode_bytes_at-encode b rest =
    let n = length b in
    rw append_assoc (
      rw
        (split_at-append b':' (print_nat n) (b ++ rest)
          (Lacks-digits b':' (print_nat n) refl (all_digits-print_nat n)))
        (rw (isdigit-print_nat n, int_refused-print_nat n, parse_nat-print_nat n)
          (rw (no_less (length (b ++ rest)) n (omega (arith, length-append b rest)))
            (rw (take_left n b rest refl, drop_left n b rest refl)))))

not_minus_zero : (cs : Bytes) → b'0' < leading cs → bytes_eq (b'-' ∷ cs) (ascii "-0") ≡ false
unfolding bytes_eq
not_minus_zero [] h = refl
not_minus_zero (c ∷ cs) h = ground arith

not_signed : (c : ℕ) (cs : Bytes) → is_digit c ≡ true → bytes_eq (c ∷ cs) (ascii "-0") ≡ false
unfolding bytes_eq
not_signed c cs h = ground arith

strip_sign-print_nat : (n : ℕ) → strip_sign (print_nat n) ≡ print_nat n
unfolding strip_sign
strip_sign-print_nat n = let (c, cs, e, d) = print_nat-split n in rw e (rw (not_minus c d))

strip_sign-minus : (cs : Bytes) → strip_sign (b'-' ∷ cs) ≡ cs
unfolding strip_sign
strip_sign-minus cs = refl

strip_sign-print_int : (n : ℤ) → strip_sign (print_int n) ≡ digits n
unfolding digits print_int
strip_sign-print_int (pos n) = strip_sign-print_nat n
strip_sign-print_int (negsuc n) = strip_sign-minus (print_nat (suc n))

not_signed-print_nat : (n : ℕ) → bytes_eq (print_nat n) (ascii "-0") ≡ false
not_signed-print_nat n = let (c, cs, e, d) = print_nat-split n in rw e (not_signed c cs d)

bad_int-print_int : (n : ℤ) → bad_int (print_int n) ≡ false
unfolding bad_int print_int
bad_int-print_int (negsuc n) =
    rw (isdigit-print_nat (suc n), no_leading_zero (suc n))
      (not_minus_zero (print_nat (suc n)) (leading-print_nat (suc n) (omega arith)))
bad_int-print_int (pos n) =
    rw (strip_sign-print_nat n)
      (rw (isdigit-print_nat n, no_leading_zero n) (not_signed-print_nat n))

pub decode_int_at-print :
    (n : ℤ) (rest : Bytes)
    → leb (length (digits n)) max_str_digits ≡ true
    → decode_int_at (print_int n ++ b'e' ∷ rest) ≡ ok (int n, rest)
unfolding decode_int_at read_int
decode_int_at-print n rest h = rw (split_at-append b'e' (print_int n) rest (Lacks-print_int n)) (
    rw (
      bad_int-print_int n,
      strip_sign-print_int n,
      no_less max_str_digits (length (digits n)) (leb→le _ _ h),
      parse_int-print_int n,
    ))

-- The integers below `max_str_digits` among others.
pub small_int : (n : ℕ) → n < max_str_digits → leb (length (digits (pos n))) max_str_digits ≡ true
unfolding digits
small_int n h = le→leb _ _ (omega (arith, length-print_nat n))

-- The first byte of a printed value tells its kind; none begins with the `e` that ends a list.
unfoldable pub opens : Bytes → Bool
opens [] = false
opens (c ∷ cs) = not (c == b'e')

pub length-encode_bytes_pos : (b : Bytes) → 0 < length (encode_bytes b)
unfolding encode_bytes
length-encode_bytes_pos b = omega (arith, length-append (print_nat (length b)) (b':' ∷ b))

pub length-wire_pos : {n : ℕ} {v : Value} → IsCanonical n v → 0 < length (wire v)
unfolding wire int_wire
length-wire_pos (number n fits) = omega arith
length-wire_pos (string b) = length-encode_bytes_pos b
length-wire_pos (items cs) = omega arith
length-wire_pos (entries s) = omega arith

opens-digit : (n : ℕ) (tail : Bytes) → opens (print_nat n ++ tail) ≡ true
unfolding opens
opens-digit n tail = let (c, cs, e, d) = print_nat-split n in rw e (ground arith)

pub opens-encode_bytes : (b rest : Bytes) → opens (encode_bytes b ++ rest) ≡ true
unfolding encode_bytes
opens-encode_bytes b rest = rw append_assoc (opens-digit (length b) _)

pub opens-wire :
    {n : ℕ} {v : Value} (rest : Bytes) → IsCanonical n v → opens (wire v ++ rest) ≡ true
unfolding wire int_wire opens
opens-wire rest (number n fits) = refl
opens-wire rest (string b) = opens-encode_bytes b rest
opens-wire rest (items cs) = refl
opens-wire rest (entries s) = refl
