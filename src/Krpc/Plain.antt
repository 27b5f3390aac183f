-- ===== src/Krpc/Plain.antt =====
-- Texts of addresses for the tests: they are not those of the library, but they keep the laws of `Inet`.
use lif.Common.{◌+◌, ◌-◌, [], ◌∷◌, true, false, some, Bytes, map, drop, ◌≡◌, refl, arith}
use lif.Krpc.Addresses.{Inet, has_colon}

-- An IPv4 text is the octets raised by 256, an IPv6 text a colon and the octets.
pub raised : (b : Bytes) → map (λ n. n - 256) (map (λ n. n + 256) b) ≡ b
raised [] = refl
raised (n ∷ b) = rw (raised b) (ground arith)

pub raised-has_colon : (b : Bytes) → has_colon (map (λ n. n + 256) b) ≡ false
unfolding has_colon
raised-has_colon [] = refl
raised-has_colon (n ∷ b) = ground (arith, raised-has_colon b)

pub colon-has_colon : (b : Bytes) → has_colon (58 ∷ b) ≡ true
unfolding has_colon
colon-has_colon b = refl

abbrev pub plain : Inet
plain = record {
  inet_aton = λ text. some (map (λ n. n - 256) text);
  inet_ntoa = λ b. map (λ n. n + 256) b;
  inet_pton6 = λ text. some (drop 1 text);
  inet_ntop6 = λ b. 58 ∷ b;
  aton-ntoa = λ b h. rw (raised b) refl;
  pton6-ntop6 = λ b h. refl;
  colon-ntoa = λ b h. raised-has_colon b;
  colon-ntop6 = λ b h. colon-has_colon b;
}
