-- ===== src/Common/Decimal.antt =====
-- Python's `int` and its decimal text: `str(n).encode("ascii")`, `int(text)`, `text.isdigit()`.
use Prim.Native.Nat.{ℕ, zero, suc, ◌+◌, ◌-◌, ◌*◌, ◌/◌, ◌%◌, ◌<◌, ◌≤◌}
use mathlib.Core.Path.{◌≡◌, refl}
use mathlib.Core.Bool.{Bool, true, false, ◌&&◌}
use mathlib.Core.List.{[], ◌∷◌}
use native.Mathlib.Omega.{arith}
use lif.Common.Tests.{ltb, leb, if◌then◌else◌}
use lif.Common.Lists.{length}
use lif.Common.ByteStrings.{Bytes}

-- `negsuc n` is -(n + 1).
pub data ℤ : Type 0 where
  pos : ℕ → ℤ
  negsuc : ℕ → ℤ

abbrev pub negate : ℕ → ℤ
negate zero = pos 0
negate (suc n) = negsuc n

abbrev pub is_digit : ℕ → Bool
is_digit c = leb b'0' c && leb c b'9'

abbrev pub all_digits : Bytes → Bool
all_digits [] = true
all_digits (c ∷ cs) = is_digit c && all_digits cs

-- text.isdigit()
abbrev pub isdigit : Bytes → Bool
isdigit [] = false
isdigit (c ∷ cs) = all_digits (c ∷ cs)

abbrev pub value : ℕ → Bytes → ℕ
value n [] = n
value n (c ∷ cs) = value (n * 10 + (c - b'0')) cs

-- int(text), on a text of digits
unfoldable pub parse_nat : Bytes → ℕ
parse_nat cs = value 0 cs

-- The digits of `n` in front of `out`; each round drops the last digit of `n`.
unfoldable pub push_digits : ℕ → ℕ → Bytes → Bytes
push_digits zero n out = out
push_digits (suc fuel) n out =
    let c = b'0' + n % 10 in
    let more = push_digits fuel (n / 10) (c ∷ out) in if ltb n 10 then c ∷ out else more

-- str(n).encode("ascii")
unfoldable pub print_nat : ℕ → Bytes
unfolding push_digits
print_nat n = push_digits (suc n) n []

value-push_digits :
    (fuel n : ℕ) (out : Bytes) → n < fuel → value 0 (push_digits fuel n out) ≡ value n out
unfolding push_digits
value-push_digits zero n out h = absurd (omega arith)
value-push_digits (suc fuel) n out h =
    ground (arith, value-push_digits fuel (n / 10) ((b'0' + n % 10) ∷ out))

pub parse_nat-print_nat : (n : ℕ) → parse_nat (print_nat n) ≡ n
unfolding parse_nat print_nat
parse_nat-print_nat n = value-push_digits (suc n) n [] (omega arith)

all_digits-push_digits :
    (fuel n : ℕ) (out : Bytes) → all_digits out ≡ true → all_digits (push_digits fuel n out) ≡ true
unfolding push_digits
all_digits-push_digits zero n out h = h
all_digits-push_digits (suc fuel) n out h =
    ground (arith, all_digits-push_digits fuel (n / 10) ((b'0' + n % 10) ∷ out))

-- The print of a positive number begins with a digit that is not 0, and is not empty.
abbrev pub leading : Bytes → ℕ
leading [] = b'0'
leading (c ∷ cs) = c

leading-push_digits :
    (fuel n : ℕ) (out : Bytes) → n < fuel → 0 < n → b'0' < leading (push_digits fuel n out)
unfolding push_digits
leading-push_digits zero n out h p = absurd (omega arith)
leading-push_digits (suc fuel) n out h p =
    ground (arith, leading-push_digits fuel (n / 10) ((b'0' + n % 10) ∷ out))

length-push_digits :
    (fuel n : ℕ) (out : Bytes) → 0 < fuel → length out < length (push_digits fuel n out)
unfolding push_digits
length-push_digits zero n out h = absurd (omega arith)
length-push_digits (suc zero) n out h = ground arith
length-push_digits (suc (suc fuel)) n out h =
    ground (arith, length-push_digits (suc fuel) (n / 10) ((b'0' + n % 10) ∷ out))

length-push_digits_le :
    (fuel n : ℕ) (out : Bytes) → length (push_digits fuel n out) ≤ fuel + length out
unfolding push_digits
length-push_digits_le zero n out = omega arith
length-push_digits_le (suc fuel) n out =
    ground (arith, length-push_digits_le fuel (n / 10) ((b'0' + n % 10) ∷ out))

pub length-print_nat : (n : ℕ) → length (print_nat n) ≤ suc n
unfolding print_nat
length-print_nat n = omega (arith, length-push_digits_le (suc n) n [])

pub all_digits-print_nat : (n : ℕ) → all_digits (print_nat n) ≡ true
unfolding print_nat
all_digits-print_nat n = all_digits-push_digits (suc n) n [] refl

pub length-print_nat_pos : (n : ℕ) → 0 < length (print_nat n)
unfolding print_nat
length-print_nat_pos n = omega (arith, length-push_digits (suc n) n [] (omega arith))

pub leading-print_nat : (n : ℕ) → 0 < n → b'0' < leading (print_nat n)
unfolding print_nat
leading-print_nat n h = leading-push_digits (suc n) n [] (omega arith) h

pub print_nat-zero : print_nat 0 ≡ b'0' ∷ []
unfolding print_nat
print_nat-zero = refl

pub isdigit-print_nat : (n : ℕ) → isdigit (print_nat n) ≡ true
isdigit-print_nat n = go (print_nat n) (length-print_nat_pos n) (all_digits-print_nat n)
  where
    go : (cs : Bytes) → 0 < length cs → all_digits cs ≡ true → isdigit cs ≡ true
    go [] p h = absurd (omega arith)
    go (c ∷ cs) p h = h
