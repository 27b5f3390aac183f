-- ===== src/Krpc/Special.antt =====
-- The IPv4 blocks of RFC 6890 that are not globally reachable, and multicast, against is_global_ipv4.
use lif.Common.{
  ℕ, ◌+◌, ◌*◌, ◌/◌, ◌^◌, ◌-◌, ◌<◌, List, [], ◌∷◌, Bool, true, false, not, ◌&&◌, ◌||◌, leb, ◌==◌,
  ◌≡◌, refl, sym, ap, ◌∙◌, arith,
}
use lif.Krpc.Addresses.{is_global_ipv4}

-- An address as a number of 32 bits.
abbrev pub address : ℕ → ℕ → ℕ → ℕ → ℕ
address a b c d = ((a * 256 + b) * 256 + c) * 256 + d

-- base/size: the addresses with the block's first `size` bits.
abbrev pub in_block : ℕ → ℕ × ℕ → Bool
in_block n (base, size) = n / 2 ^ (32 - size) == base / 2 ^ (32 - size)

unfoldable pub in_any : ℕ → List (ℕ × ℕ) → Bool
in_any n [] = false
in_any n (block ∷ blocks) = in_block n block || in_any n blocks

abbrev pub special_blocks : List (ℕ × ℕ)
special_blocks =
    (address 0 0 0 0, 8)
    ∷ (address 10 0 0 0, 8)
    ∷ (address 127 0 0 0, 8)
    ∷ (address 224 0 0 0, 4)
    ∷ (address 240 0 0 0, 4)
    ∷ (address 100 64 0 0, 10)
    ∷ (address 169 254 0 0, 16)
    ∷ (address 172 16 0 0, 12)
    ∷ (address 192 168 0 0, 16)
    ∷ (address 192 0 0 0, 24)
    ∷ (address 192 0 2 0, 24)
    ∷ (address 192 88 99 0, 24)
    ∷ (address 198 18 0 0, 15)
    ∷ (address 198 51 100 0, 24)
    ∷ (address 203 0 113 0, 24)
    ∷ []

or_assoc : (p q r : Bool) → (p || (q || r)) ≡ ((p || q) || r)
or_assoc true q r = refl
or_assoc false q r = refl

-- The tests of the source, regrouped.
regroup_192 :
    (p q r s t u v rest z : Bool)
    → ((((z || (p && ((q || (r && (s || t))) || (u && v)))) || rest)))
      ≡ (z || ((p && q) || (((p && r) && s) || (((p && r) && t) || (((p && u) && v) || rest)))))
regroup_192 p q r s t u v rest true = refl
regroup_192 false q r s t u v rest false = refl
regroup_192 true true r s t u v rest false = refl
regroup_192 true false false s t true v rest false = refl
regroup_192 true false false s t false v rest false = refl
regroup_192 true false true true t u v rest false = refl
regroup_192 true false true false true u v rest false = refl
regroup_192 true false true false false true v rest false = refl
regroup_192 true false true false false false v rest false = refl

regroup_198 :
    (w e f g h rest z : Bool)
    → ((z || (w && ((e || f) || (g && h)))) || rest)
      ≡ (z || ((w && (e || f)) || (((w && g) && h) || rest)))
regroup_198 w e f g h rest true = refl
regroup_198 false e f g h rest false = refl
regroup_198 true true f g h rest false = refl
regroup_198 true false true g h rest false = refl
regroup_198 true false false true h rest false = refl
regroup_198 true false false false h rest false = refl

or_false : (p : Bool) → (p || false) ≡ p
or_false true = refl
or_false false = refl

regroup :
    (s1 s2 s3 s4 s5 s6 s7 rest : Bool)
    → (((((((s1 || s2) || s3) || s4) || s5) || s6) || s7) || rest)
      ≡ (s1 || (s2 || (s3 || (s4 || (s5 || (s6 || (s7 || rest)))))))
regroup true s2 s3 s4 s5 s6 s7 rest = refl
regroup false true s3 s4 s5 s6 s7 rest = refl
regroup false false true s4 s5 s6 s7 rest = refl
regroup false false false true s5 s6 s7 rest = refl
regroup false false false false true s6 s7 rest = refl
regroup false false false false false true s7 rest = refl
regroup false false false false false false s7 rest = refl

same_test : (p q : Bool) → (p ≡ true → q ≡ true) → (q ≡ true → p ≡ true) → p ≡ q
same_test true true f g = refl
same_test true false f g = sym (f refl)
same_test false true f g = g refl
same_test false false f g = refl

module _ (a b c d : ℕ) (ha : a < 256) (hb : b < 256) (hc : c < 256) (hd : d < 256) where
  block_8 : (x : ℕ) → x < 256 → in_block (address a b c d) (address x 0 0 0, 8) ≡ (a == x)
  block_8 x h = same_test _ _ (λ e. ground arith) (λ e. ground arith)

  block_16 :
      (x y : ℕ)
      → x < 256
      → y < 256
      → in_block (address a b c d) (address x y 0 0, 16) ≡ ((a == x) && (b == y))
  block_16 x y h k = same_test _ _ (λ e. ground arith) (λ e. ground arith)

  block_24 :
      (x y z : ℕ)
      → x < 256
      → y < 256
      → z < 256
      → in_block (address a b c d) (address x y z 0, 24) ≡ ((a == x) && (b == y) && (c == z))
  block_24 x y z h k l = same_test _ _ (λ e. ground arith) (λ e. ground arith)

  block_100 :
      in_block (address a b c d) (address 100 64 0 0, 10) ≡ ((a == 100) && leb 64 b && leb b 127)
  block_100 = same_test _ _ (λ e. ground arith) (λ e. ground arith)

  block_172 :
      in_block (address a b c d) (address 172 16 0 0, 12) ≡ ((a == 172) && leb 16 b && leb b 31)
  block_172 = same_test _ _ (λ e. ground arith) (λ e. ground arith)

  block_198 :
      in_block (address a b c d) (address 198 18 0 0, 15) ≡ ((a == 198) && ((b == 18) || (b == 19)))
  block_198 = same_test _ _ (λ e. ground arith) (λ e. ground arith)

  block_high :
      (in_block (address a b c d) (address 224 0 0 0, 4)
        || in_block (address a b c d) (address 240 0 0 0, 4))
      ≡ leb 224 a
  block_high = same_test _ _ (λ e. ground arith) (λ e. ground arith)

-- An address of four octets is global exactly when it lies in no special-purpose block.
pub is_global_ipv4-in_any :
    (a b c d : ℕ)
    → a < 256
    → b < 256
    → c < 256
    → d < 256
    → is_global_ipv4 a b c ≡ not (in_any (address a b c d) special_blocks)
unfolding is_global_ipv4 in_any
is_global_ipv4-in_any a b c d ha hb hc hd =
    let zero_8 = block_8 a b c d ha hb hc hd 0 (omega arith) in
    let ten_8 = block_8 a b c d ha hb hc hd 10 (omega arith) in
    let loopback_8 = block_8 a b c d ha hb hc hd 127 (omega arith) in
    let shared_10 = block_100 a b c d ha hb hc hd in
    let local_16 = block_16 a b c d ha hb hc hd 169 254 (omega arith) (omega arith) in
    let private_12 = block_172 a b c d ha hb hc hd in
    let protocol_24 =
      block_24 a b c d ha hb hc hd 192 0 0 (omega arith) (omega arith) (omega arith) in
    let test_24 = block_24 a b c d ha hb hc hd 192 0 2 (omega arith) (omega arith) (omega arith) in
    let relay_24 =
      block_24 a b c d ha hb hc hd 192 88 99 (omega arith) (omega arith) (omega arith) in
    let private_16 = block_16 a b c d ha hb hc hd 192 168 (omega arith) (omega arith) in
    let benchmark_15 = block_198 a b c d ha hb hc hd in
    let second_test_24 =
      block_24 a b c d ha hb hc hd 198 51 100 (omega arith) (omega arith) (omega arith) in
    let third_test_24 =
      block_24 a b c d ha hb hc hd 203 0 113 (omega arith) (omega arith) (omega arith) in
    let high = block_high a b c d ha hb hc hd in
    let first =
      or_assoc (in_block (address a b c d) (address 224 0 0 0, 4))
        (in_block (address a b c d) (address 240 0 0 0, 4)) in
    rw
      (
        zero_8,
        ten_8,
        loopback_8,
        shared_10,
        local_16,
        private_12,
        protocol_24,
        test_24,
        relay_24,
        private_16,
        benchmark_15,
        second_test_24,
        third_test_24,
        first,
        high,
        or_false ((a == 203) && (b == 0) && (c == 113)),
      )
      (ap not (
        regroup_198 (a == 198) (b == 18) (b == 19) (b == 51) (c == 100) _ _
        ∙ regroup_192 (a == 192) (b == 168) (b == 0) (c == 0) (c == 2) (b == 88) (c == 99) _ _
        ∙ regroup (a == 0) (a == 10) (a == 127) (leb 224 a) ((a == 100) && leb 64 b && leb b 127)
            ((a == 169) && (b == 254)) ((a == 172) && leb 16 b && leb b 31) _))
