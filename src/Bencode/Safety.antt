-- ===== src/Bencode/Safety.antt =====
-- The decoder of dht_scraper/bencode_codec.py on any input, with any stack.
use lif.Common.{
  ℕ, zero, suc, ◌+◌, ◌*◌, ◌<◌, ◌≤◌, ◌⊎◌, inl, inr, ◌||◌, [], ◌∷◌, ◌++◌, Bool, true, false, not,
  Option, none, some, Bytes, split_at, ltb, ltb→lt, lt→ltb, ◌==◌, length, length-append, take, drop,
  take-append-drop, is_digit, isdigit, parse_nat, Result, ok, err, ◌>>=◌, ◌>>◌, guard,
  if◌then◌else◌, ◌≡◌, refl, ap, sym, ◌∙◌, arith, append_assoc,
}
use lif.Bencode.Values.{
  Error, value_error, recursion_error, max_str_digits, in_call, Value, bytes, list, dict, item,
  Entries, no_entries, put,
}
use lif.Bencode.Decode.{
  strip_sign, int_refused, bad_int, read_int, decode_int_at, read_bytes, decode_bytes_at,
  decode_value_at, decode_list_at, decode_dict_at, decode_bencode,
}

-- With `frames` left of the stack, the call raised ValueError, or RecursionError where the stack has at
-- most two frames for a byte of the input, or returned behind a part of the input that is not empty.
pub data Reads {A : Type 0} (frames : ℕ) (input : Bytes) : Result Error (A × Bytes) → Type 0 where
  returned :
      {a : A} (used rest : Bytes)
      → input ≡ used ++ rest
      → 0 < length used
      → Reads frames input (ok (a, rest))
  refused : Reads frames input (err value_error)
  too_deep : frames ≤ 2 * length input → Reads frames input (err recursion_error)

Reads-bind :
    {A B : Type 0} {n : ℕ} {input : Bytes} {r : Result Error (A × Bytes)}
    (k : A × Bytes → Result Error (B × Bytes))
    → Reads n input r
    → ((a : A) (used rest : Bytes)
        → input ≡ used ++ rest
        → 0 < length used
        → Reads n input (k (a, rest)))
    → Reads n input (r >>= k)
Reads-bind k (returned {a} used rest e p) h = h a used rest e p
Reads-bind k refused h = refused
Reads-bind k (too_deep d) h = too_deep d

-- A call on what an earlier call left.
Reads-later :
    {A : Type 0} {n : ℕ} {input : Bytes} {r : Result Error (A × Bytes)} (used rest : Bytes)
    → input ≡ used ++ rest
    → Reads n rest r
    → Reads n input r
Reads-later used rest e (returned used' rest' e' p') =
    returned (used ++ used') rest' (rw (e, e') (sym (append_assoc used used' rest')))
      (omega (arith, length-append {0} used used'))
Reads-later used rest e refused = refused
Reads-later used rest e (too_deep d) =
    too_deep (omega (arith, d, ap length e, length-append {0} used rest))

-- A call in two calls, behind the byte that chose it.
Reads-nested :
    {A : Type 0} {g : ℕ} {r : Result Error (A × Bytes)} (c : ℕ) (input : Bytes)
    → Reads g input r
    → Reads (suc (suc g)) (c ∷ input) r
Reads-nested c input (returned used rest e p) = returned (c ∷ used) rest (rw e) (omega arith)
Reads-nested c input refused = refused
Reads-nested c input (too_deep d) = too_deep (omega (arith, d))

-- A call by which the stack may end, on an input that is not empty.
Reads-call :
    {A : Type 0} (f : ℕ) (input : Bytes) (body : ℕ → Result Error (A × Bytes))
    → 0 < length input
    → ((g : ℕ) → f ≡ suc g → Reads (suc (suc g)) input (body g))
    → Reads (suc f) input (in_call f body)
unfolding in_call
Reads-call zero input body p h = too_deep (omega arith)
Reads-call (suc g) input body p h = h g refl

-- What comes back with another value.
Reads-map :
    {A B : Type 0} {n : ℕ} {input : Bytes} {r : Result Error (A × Bytes)} (f : A → B)
    → Reads n input r
    → Reads n input (r >>= λ p. ok (f p.0, p.1))
Reads-map f (returned {a} used rest e p) = returned used rest e p
Reads-map f refused = refused
Reads-map f (too_deep d) = too_deep d

Reads-if :
    {A : Type 0} {n : ℕ} {input : Bytes} (b : Bool) {r s : Result Error (A × Bytes)}
    → (b ≡ true → Reads n input r)
    → (b ≡ false → Reads n input s)
    → Reads n input (if b then r else s)
Reads-if true h k = h refl
Reads-if false h k = k refl

Reads-guard :
    {A : Type 0} {n : ℕ} {input : Bytes} (b : Bool) {r : Result Error (A × Bytes)}
    → (b ≡ true → Reads n input r)
    → Reads n input (guard b value_error >> r)
Reads-guard true h = h refl
Reads-guard false h = refused

split_at_sound :
    (c : ℕ) (input before after : Bytes)
    → split_at c input ≡ some (before, after)
    → input ≡ before ++ c ∷ after
unfolding split_at
split_at_sound c [] before after h = cc
split_at_sound c (b ∷ bs) [] after h = ground arith
split_at_sound c (b ∷ bs) (x ∷ before) after h = ground (arith, split_at_sound c bs before after)

read_int-Reads :
    (n : ℕ) (input : Bytes) (o : Option (Bytes × Bytes))
    → split_at b'e' input ≡ o
    → Reads n input (read_int o)
unfolding read_int
read_int-Reads n input none h = refused
read_int-Reads n input (some (text, rest)) h =
    Reads-if (bad_int text || ltb max_str_digits (length (strip_sign text))) (λ _. refused)
      (λ _.
        returned (text ++ b'e' ∷ []) rest
          (split_at_sound b'e' input text rest h ∙ sym (append_assoc text (b'e' ∷ []) rest))
          (omega (arith, length-append {0} text (b'e' ∷ []))))

read_bytes-Reads :
    (n : ℕ) (input : Bytes) (o : Option (Bytes × Bytes))
    → split_at b':' input ≡ o
    → Reads n input (read_bytes o)
unfolding read_bytes
read_bytes-Reads frames input none h = refused
read_bytes-Reads frames input (some (size, start)) h =
    let n = parse_nat size in
    Reads-if (not (isdigit size) || int_refused size) (λ _. refused)
      (λ _.
        Reads-if (ltb (length start) n) (λ _. refused)
          (λ _.
            returned (size ++ b':' ∷ take n start) (drop n start)
              (split_at_sound b':' input size start h ∙ rw (append_assoc, take-append-drop n start))
              (omega (arith, length-append {0} size (b':' ∷ take n start)))))

decode_bytes_at-Reads : (n : ℕ) (input : Bytes) → Reads n input (decode_bytes_at input)
unfolding decode_bytes_at
decode_bytes_at-Reads n input = read_bytes-Reads n input (split_at b':' input) refl

-- The key of an entry.
key-Reads :
    (n : ℕ) (input : Bytes)
    → 0 < length input
    → Reads n input (in_call n (λ f. decode_bytes_at input))
unfolding in_call
key-Reads zero input p = too_deep (omega arith)
key-Reads (suc n) input p = decode_bytes_at-Reads (suc n) input

mutual
  unfolding decode_value_at decode_int_at in_call

  value-Reads :
      (n f : ℕ) (input : Bytes)
      → 0 < length input
      → 2 * length input < f
      → Reads n input (decode_value_at n f input)
  value-Reads n zero input p h = absurd (omega arith)
  value-Reads n (suc f) [] p h = absurd (omega arith)
  value-Reads zero (suc f) (c ∷ input) p h = too_deep (omega arith)
  value-Reads (suc n) (suc f) (c ∷ input) p h =
      Reads-if (c == b'i')
        (λ _.
          Reads-call n (c ∷ input) _ p
            (λ g e. Reads-nested c input (read_int-Reads g input (split_at b'e' input) refl)))
        (λ _.
          Reads-if (c == b'l')
            (λ _.
              Reads-call n (c ∷ input) _ p
                (λ g e. Reads-nested c input (Reads-map list (list-Reads g f input (omega arith)))))
            (λ _.
              Reads-if (c == b'd')
                (λ _. Reads-call n (c ∷ input) _ p (λ g e.
                  Reads-nested c input
                    (Reads-map dict (dict-Reads g f no_entries input (omega arith)))))
                (λ _.
                  Reads-if (is_digit c)
                    (λ _.
                      Reads-call n (c ∷ input) _ p
                        (λ g e. Reads-map bytes (decode_bytes_at-Reads (suc (suc g)) (c ∷ input))))
                    (λ _. refused))))

  list-Reads :
      (n f : ℕ) (input : Bytes)
      → 2 * length input + 1 < f
      → Reads n input (decode_list_at n f input)
  list-Reads n zero input h = absurd (omega arith)
  list-Reads n (suc f) [] h = refused
  list-Reads n (suc f) (c ∷ input) h =
      Reads-if (c == b'e') (λ _. returned (c ∷ []) input refl (omega arith))
        (λ _.
          Reads-bind _ (value-Reads n f (c ∷ input) (omega arith) (omega arith)) (λ v used rest e p.
            Reads-later used rest e (
              Reads-map (item v)
                (list-Reads n f rest (omega (arith, ap length e, length-append {0} used rest))))))

  dict-Reads :
      (n f : ℕ) (done : Entries) (input : Bytes)
      → 2 * length input + 1 < f
      → Reads n input (decode_dict_at n f done input)
  dict-Reads n zero done input h = absurd (omega arith)
  dict-Reads n (suc f) done [] h = refused
  dict-Reads n (suc f) done (c ∷ input) h =
      Reads-if (c == b'e') (λ _. returned (c ∷ []) input refl (omega arith))
        (λ _.
          Reads-if (is_digit c)
            (λ _. Reads-bind _ (key-Reads n (c ∷ input) (omega arith)) (λ k used rest e p.
              let sizes = length-append {0} used rest in
              let sum = ap length e in
              Reads-later used rest e (
                Reads-guard (ltb 0 (length rest)) (λ some_left.
                  Reads-bind _
                    (value-Reads n f rest (ltb→lt 0 (length rest) some_left) (omega arith))
                    (λ v used' rest' e' p'. Reads-later used' rest' e' (
                      dict-Reads n f (put k v done) rest'
                        (omega (arith, ap length e', length-append {0} used' rest'))))))))
            (λ _. refused))

-- From any input that is not empty, with any number of frames left and fuel above twice the input's
-- length, the decoder raises ValueError, or RecursionError if there are at most two frames for a byte of
-- the input, or returns behind a part of the input that is not empty: it neither runs out of fuel, nor
-- fails an assertion, nor reads past the end.
pub decode_value_at-Reads :
    (frames f : ℕ) (input : Bytes)
    → 0 < length input
    → 2 * length input < f
    → Reads frames input (decode_value_at frames f input)
decode_value_at-Reads = value-Reads

finish-error :
    (n : ℕ) (r : Result Error (Value × Bytes)) (input : Bytes) (e : Error)
    → Reads n input r
    → (do (v, rest) ← r; guard (length rest == 0) value_error; ok v) ≡ err e
    → (e ≡ value_error) ⊎ ((e ≡ recursion_error) × (n ≤ 2 * length input))
finish-error n _ input e (returned used rest p q) h = inl (ground arith)
finish-error n _ input e refused h = inl (ground arith)
finish-error n _ input e (too_deep d) h = inr (ground arith, d)

-- Whatever the datagram and the stack, `decode_bencode` raises no error but ValueError and
-- RecursionError, and RecursionError only if the stack has at most two frames for a byte and one more.
pub decode_bencode_error :
    (frames : ℕ) (input : Bytes) (e : Error)
    → decode_bencode frames input ≡ err e
    → (e ≡ value_error) ⊎ ((e ≡ recursion_error) × (frames ≤ 2 * length input + 1))
unfolding decode_bencode in_call
decode_bencode_error zero input e h = inr (ground arith, omega arith)
decode_bencode_error (suc n) [] e h = inl (ground arith)
decode_bencode_error (suc n) (c ∷ input) e h =
    elim (finish-error n _ (c ∷ input) e
      (decode_value_at-Reads n (2 * length (c ∷ input) + 1) (c ∷ input) (omega arith) (omega arith))
      (rw (lt→ltb 0 (suc (length input)) (omega arith)) at h)) [
        | inl a ↦ inl a
        | inr a ↦ inr (a.0, omega (arith, a.1))
      ]
