-- ===== src/Fetcher/Outcome.antt =====
-- How a session may end: with a value of which `P` holds, or with a MetadataFetchError.
use lif.Common.{
  ℕ, zero, suc, max, ◌+◌, ◌≤◌, List, [], ◌∷◌, ◌++◌, Bool, true, false, Bytes, leb, length,
  if◌then◌else◌, Result, ok, err, Bool-cases, inl, inr, ◌≡◌, refl, arith, length-append,
}
use lif.PeerWire.Messages.{Reason, timeout}
use lif.Fetcher.Stream.{Stream, Failure, fetch_error, Session, fail, ◌>>=◌, receive, read_exactly}

-- The result and the stream afterwards.
pub data Outcome {A : Type 0} (P : A → Stream → Type 0) : Result Failure A × Stream → Type 0 where
  done : (a : A) (s : Stream) → P a s → Outcome P (ok a, s)
  refused : (reason : Reason) (s : Stream) → Outcome P (err (fetch_error reason), s)

abbrev pub left : Stream → ℕ
left s = length s.incoming

-- The bytes to come get no more, and fewer by `n` at least.
abbrev pub Shrinks : ℕ → Stream → Stream → Type 0
Shrinks n s s' = left s' + n ≤ left s

module _ {A B : Type 0} {P : A → Stream → Type 0} {Q : B → Stream → Type 0} where
  pub Outcome-bind :
      (m : Session A) (f : A → Session B) (s : Stream)
      → Outcome P (m s)
      → ((a : A) (s' : Stream) → P a s' → Outcome Q (f a s'))
      → Outcome Q ((m >>= f) s)
  Outcome-bind m f s o k = go (m s) o
    where
      go :
          (r : Result Failure A × Stream)
          → Outcome P r
          → Outcome Q
              (elim r.0 as (λ x. Result Failure B × Stream) [ ok a ↦ f a r.1 | err e ↦ fail e r.1 ])
      go (ok a, s') (done b t p) = k b t p
      go (err e, s') (refused reason t) = refused reason t

module _ {A : Type 0} {P : A → Stream → Type 0} where
  pub Outcome-weaken :
      {Q : A → Stream → Type 0} (r : Result Failure A × Stream)
      → Outcome P r
      → ((a : A) (s : Stream) → P a s → Outcome Q (ok a, s))
      → Outcome Q r
  Outcome-weaken r (done a s p) k = k a s p
  Outcome-weaken r (refused reason s) k = refused reason s

  pub if-Outcome :
      (b : Bool) (m n : Session A) (s : Stream)
      → (b ≡ true → Outcome P (m s))
      → (b ≡ false → Outcome P (n s))
      → Outcome P ((if b then m else n) s)
  if-Outcome true m n s h k = h refl
  if-Outcome false m n s h k = k refl

-- A read takes the bytes it asks for.
abbrev pub Takes : ℕ → ℕ → Stream → Bytes → Stream → Type 0
Takes n have s b s' = (length b ≡ have + n) × (left s' + n ≡ left s)

receive-Outcome :
    (n deadline : ℕ) (reason : Reason) (partial : Bool) (taken : Bytes) (coming : List (ℕ × ℕ))
    (s : Stream)
    → Outcome
        (λ b s'. (length b ≡ length taken + n) × (left s' + n ≡ length coming))
        (receive n deadline reason partial taken coming s)
unfolding receive
receive-Outcome zero deadline reason partial taken coming s =
    done taken _ (omega arith, omega arith)
receive-Outcome (suc n) deadline reason partial taken [] s = refused _ _
receive-Outcome (suc n) deadline reason partial taken ((at, b) ∷ coming) s =
    let more =
      receive-Outcome n deadline reason true (taken ++ b ∷ []) coming
        (record s { now = max s.now at }) in
    elim (Bool-cases (leb deadline at)) [
      | inl h ↦ rw h (refused timeout _)
      | inr h ↦ rw h (
          Outcome-weaken _ more (λ a t p.
            done a t (omega (arith, p.0, length-append {0} taken (b ∷ [])), omega (arith, p.1))))
    ]

pub read_exactly-Outcome :
    (n deadline : ℕ) (reason : Reason) (s : Stream)
    → Outcome (Takes n 0 s) (read_exactly n deadline reason s)
unfolding read_exactly
read_exactly-Outcome n deadline reason s = elim (Bool-cases (leb deadline s.now)) [
  | inl h ↦ rw h (refused timeout s)
  | inr h ↦ rw h (receive-Outcome n deadline reason false [] s.incoming s)
]
