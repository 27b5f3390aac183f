-- ===== src/Common/Equality.antt =====
-- Equality of keys: numbers, byte strings, texts, and pairs of such.
use mathlib.Core.Path.{◌≡◌, refl}
use mathlib.Core.Bool.{Bool, true, ◌&&◌}
use native.Mathlib.Omega.{arith}
use Prim.Native.Nat.{ℕ}
use lif.Common.Tests.{◌==◌, ==_iff}
use lif.Common.ByteStrings.{Bytes, bytes_eq, bytes_eq_self, bytes_eq→eq}

pub record Eq (A : Type 0) : Type 0 where
  pub beq : A → A → Bool
  pub beq→eq : (a b : A) → beq a b ≡ true → a ≡ b
  pub beq_self : (a : A) → beq a a ≡ true

instance abbrev pub nat_eq : Eq ℕ
nat_eq = record { beq = ◌==◌; beq→eq = λ a b. (==_iff a b).0; beq_self = λ a. (==_iff a a).1 refl }

instance abbrev pub byte_string_eq : Eq Bytes
byte_string_eq = record { beq = bytes_eq; beq→eq = bytes_eq→eq; beq_self = bytes_eq_self }

Σ_pair : {A B : Type 0} {a c : A} {b d : B} → a ≡ c → b ≡ d → ◌≡◌ {A = A × B} (a, b) (c, d)
Σ_pair p q = λ i. (p i, q i)

module _ {A B : Type 0} ⦃e : Eq A⦄ ⦃f : Eq B⦄ where
  unfoldable pub pair_beq : A × B → A × B → Bool
  pair_beq (a, b) (c, d) = e.beq a c && f.beq b d

  pub pair_sound : (p q : A × B) → pair_beq p q ≡ true → p ≡ q
  unfolding pair_beq
  pair_sound (a, b) (c, d) h = Σ_pair (e.beq→eq a c (ground arith)) (f.beq→eq b d (ground arith))

  pub pair_self : (p : A × B) → pair_beq p p ≡ true
  unfolding pair_beq
  pair_self (a, b) = ground (arith, e.beq_self a, f.beq_self b)

  instance abbrev pub pair_eq : Eq (A × B)
  pair_eq = record { beq = pair_beq; beq→eq = pair_sound; beq_self = pair_self }
