-- ===== src/Utp/InOrder.antt =====
-- What reaches the buffer of a UtpConnection (`data_received`), against the peer's stream.
use lif.Common.{
  ℕ, zero, suc, ◌+◌, ◌%◌, ◌<◌, ◌≤◌, List, [], ◌∷◌, ◌++◌, true, false, ◌&&◌, none, some,
  Option-cases, Bool-cases, inl, inr, Bytes, ltb, ◌==◌, ==_iff, length, All, ◌≡◌, ◌≢◌, refl, sym,
  ap, ◌∙◌, arith, append_assoc, append-nil, nat_eq,
}
use native.Mathlib.Decide.{dec_lt}
use lif.RecentMap.{find, contains, without}
use lif.RecentMap.Bound.{contains-without_self}
use lif.Utp.Packets.{sequence_mod, sequence_after, next_sequence}
use lif.Utp.Connection.{
  UtpConnection, put, deliver, deliver_following, accept, schedule_ack, data_received,
  max_out_of_order,
}

-- The peer's stream: it sends the bytes `segment n` under the sequence number `number n`, for n from 1 on.
module _ (base : ℕ) (segment : ℕ → Bytes) where
  abbrev pub number : ℕ → ℕ
  number n = (base + n) % sequence_mod

  -- The segments behind the first n, k of them.
  unfoldable pub gather : ℕ → ℕ → Bytes
  gather n zero = []
  gather n (suc k) = segment (suc n) ++ gather (suc n) k

  -- A buffered packet is a segment behind the first n, less than half the number range ahead.
  pub record Ahead (n : ℕ) (e : ℕ × Bytes) : Type 0 where
    pub index : ℕ
    pub behind : n < index
    pub near : index < n + 0x8000
    pub numbered : e.0 ≡ number index
    pub carries : e.1 ≡ segment index

  -- The first n segments were delivered, and the next one is not waiting in the buffer of packets.
  pub record InOrder (n : ℕ) (c : UtpConnection) : Type 0 where
    pub acked : c.ack_nr ≡ number n
    pub ahead : All (Ahead n) c.out_of_order
    pub missing : contains (next_sequence c.ack_nr) c.out_of_order ≡ false

  skip : (n i j : ℕ) → n < i → j ≡ number i → (j == number (suc n)) ≡ false → suc n < i
  skip n i j l e d = elim (dec_lt (suc n) i) [
    | yes h ↦ h
    | no h ↦ cc (d, (==_iff j (number (suc n))).1 (e ∙ ap number (equal h)))
  ]
    where
      equal : ¬ (suc n < i) → i ≡ suc n
      equal h = omega arith

  find-Ahead :
      (n q : ℕ) (p : Bytes) (m : List (ℕ × Bytes))
      → All (Ahead n) m
      → find q m ≡ some p
      → Ahead n (q, p)
  unfolding find
  find-Ahead n q p [] a h = cc
  find-Ahead n q p ((j, v) ∷ m) a h = elim (Bool-cases (j == q)) [
    | inl e ↦
        let found : some v ≡ some p = rw e at h in
        record {
          index = a.0.index;
          behind = a.0.behind;
          near = a.0.near;
          numbered = sym ((==_iff j q).0 e) ∙ a.0.numbered;
          carries = cc (a.0.carries);
        }
    | inr e ↦ find-Ahead n q p m a.1 (rw e at h)
  ]

  without-Ahead : (n q : ℕ) (m : List (ℕ × Bytes)) → All (Ahead n) m → All (Ahead n) (without q m)
  unfolding without
  without-Ahead n q [] a = tt
  without-Ahead n q ((j, v) ∷ m) a = elim (Bool-cases (j == q)) [
    | inl e ↦ rw e (without-Ahead n q m a.1)
    | inr e ↦ rw e (a.0, without-Ahead n q m a.1)
  ]

  -- One more segment delivered, which no packet in the buffer holds.
  advance-Ahead :
      (n : ℕ) (m : List (ℕ × Bytes))
      → All (Ahead n) m
      → contains (number (suc n)) m ≡ false
      → All (Ahead (suc n)) m
  unfolding contains
  advance-Ahead n [] a h = tt
  advance-Ahead n ((j, v) ∷ m) a h = (
    record {
      index = a.0.index;
      behind = skip n a.0.index j a.0.behind a.0.numbered (ground arith);
      near = omega arith;
      numbered = a.0.numbered;
      carries = a.0.carries;
    },
    advance-Ahead n m a.1 (ground arith),
  )

  put-Ahead :
      (n q : ℕ) (p : Bytes) (m : List (ℕ × Bytes))
      → Ahead n (q, p)
      → All (Ahead n) m
      → All (Ahead n) (put q p m)
  unfolding put
  put-Ahead n q p [] x a = (x, tt)
  put-Ahead n q p ((j, v) ∷ m) x a = elim (Bool-cases (j == q)) [
    | inl e ↦ rw (e, (==_iff j q).0 e) (x, a.1)
    | inr e ↦ rw e (a.0, put-Ahead n q p m x a.1)
  ]

  contains-put :
      (q k : ℕ) (p : Bytes) (m : List (ℕ × Bytes))
      → contains k m ≡ false
      → q ≢ k
      → contains k (put q p m) ≡ false
  unfolding contains put
  contains-put q k p [] h d = ground arith
  contains-put q k p ((j, v) ∷ m) h d = ground (arith, contains-put q k p m)

  length-without_le : (q : ℕ) (m : List (ℕ × Bytes)) → length (without q m) ≤ length m
  unfolding without
  length-without_le q [] = omega arith
  length-without_le q ((j, v) ∷ m) = ground (arith, length-without_le q m)

  length-without :
      (q : ℕ) (p : Bytes) (m : List (ℕ × Bytes))
      → find q m ≡ some p
      → length (without q m) < length m
  unfolding find without
  length-without q p [] h = cc
  length-without q p ((j, v) ∷ m) h = ground (arith, length-without q p m, length-without_le q m)

  contains-find : (q : ℕ) (m : List (ℕ × Bytes)) → find q m ≡ none → contains q m ≡ false
  unfolding find contains
  contains-find q [] h = refl
  contains-find q ((j, v) ∷ m) h = ground (arith, contains-find q m)

  delivered :
      (q : ℕ) (p : Bytes) (c : UtpConnection)
      → ((deliver q p c).ack_nr ≡ q)
        × ((deliver q p c).buffer ≡ c.buffer ++ p)
        × ((deliver q p c).out_of_order ≡ c.out_of_order)
  unfolding deliver
  delivered q [] c = (refl, sym (append-nil c.buffer), refl)
  delivered q (b ∷ p) c = (refl, refl, refl)

  -- From n segments delivered in `c`, `count` more reached the buffer of `c'`, in order.
  pub record Delivers (n : ℕ) (c c' : UtpConnection) : Type 0 where
    pub count : ℕ
    pub total : ℕ
    pub adds_up : total ≡ n + count
    pub in_order : InOrder total c'
    pub appended : c'.buffer ≡ c.buffer ++ gather n count

  contains-none : (k : ℕ) (m : List (ℕ × Bytes)) → length m ≤ 0 → contains k m ≡ false
  unfolding contains
  contains-none k [] h = refl
  contains-none k (x ∷ m) h = absurd (omega arith)

  next-number : (n q : ℕ) → q ≡ number n → next_sequence q ≡ number (suc n)
  next-number n q e = omega arith

  unmoved :
      (n : ℕ) (c : UtpConnection)
      → c.ack_nr ≡ number n
      → All (Ahead n) c.out_of_order
      → contains (next_sequence c.ack_nr) c.out_of_order ≡ false
      → Delivers n c c
  unfolding gather
  unmoved n c e a h = record {
    count = 0;
    total = n;
    adds_up = omega arith;
    in_order = record { acked = e; ahead = a; missing = h };
    appended = sym (append-nil c.buffer);
  }

  one_more :
      (n : ℕ) (b : Bytes) (c c₁ c₂ : UtpConnection)
      → b ≡ segment (suc n)
      → c₁.buffer ≡ c.buffer ++ b
      → Delivers (suc n) c₁ c₂
      → Delivers n c c₂
  unfolding gather
  one_more n b c c₁ c₂ e h d = record {
    count = suc d.count;
    total = d.total;
    adds_up = omega (arith, d.adds_up);
    in_order = d.in_order;
    appended =
        d.appended ∙ rw (h, e) (append_assoc c.buffer (segment (suc n)) (gather (suc n) d.count));
  }

  expected_index :
      (n i q : ℕ) → n < i → i < n + 0x8000 → q ≡ number i → q ≡ number (suc n) → i ≡ suc n
  expected_index n i q l u e f = omega arith

  deliver_following-Delivers :
      (fuel n : ℕ) (c : UtpConnection)
      → c.ack_nr ≡ number n
      → All (Ahead n) c.out_of_order
      → length c.out_of_order ≤ fuel
      → Delivers n c (deliver_following fuel c)
  unfolding deliver_following
  deliver_following-Delivers zero n c e a l = unmoved n c e a (contains-none _ c.out_of_order l)
  deliver_following-Delivers (suc fuel) n c e a l =
      elim (Option-cases (find (next_sequence c.ack_nr) c.out_of_order)) [
        | inl h ↦ rw (h, deliver_following) (unmoved n c e a (contains-find _ c.out_of_order h))
        | inr (p, h) ↦
            rw (h, deliver_following)
              (let q = next_sequence c.ack_nr in
                let taken = record c { out_of_order = without q c.out_of_order } in
                let x = find-Ahead n q p c.out_of_order a h in
                let same : q ≡ number (suc n) = next-number n c.ack_nr e in
                let found = expected_index n x.index q x.behind x.near x.numbered same in
                let d = delivered q p taken in
                let clear : contains (number (suc n)) (without q c.out_of_order) ≡ false =
                  rw (← same) (contains-without_self q c.out_of_order) in
                one_more n p c (deliver q p taken) _ (x.carries ∙ ap segment found) d.1 (
                  deliver_following-Delivers fuel (suc n) (deliver q p taken) (d.0 ∙ same)
                    (rw d.2 (advance-Ahead n _ (without-Ahead n q c.out_of_order a) clear))
                    (rw d.2 (omega (arith, length-without q p c.out_of_order h)))))
      ]

  Delivers-schedule_ack :
      {n : ℕ} {c c' : UtpConnection} → Delivers n c c' → Delivers n c (schedule_ack c')
  unfolding schedule_ack
  Delivers-schedule_ack d = record {
    count = d.count;
    total = d.total;
    adds_up = d.adds_up;
    in_order = record {
      acked = d.in_order.acked;
      ahead = d.in_order.ahead;
      missing = d.in_order.missing;
    };
    appended = d.appended;
  }

  accept_next :
      (n q : ℕ) (c : UtpConnection)
      → InOrder n c
      → q ≡ next_sequence c.ack_nr
      → (d : Delivers n c (accept q (segment (suc n)) c)) × (1 ≤ d.count)
  unfolding accept one_more
  accept_next n q c o e =
      let p = segment (suc n) in
      let d = delivered q p c in
      let same : q ≡ number (suc n) = e ∙ next-number n c.ack_nr o.acked in
      let clear : contains (number (suc n)) c.out_of_order ≡ false =
        rw (← next-number n c.ack_nr o.acked) o.missing in
      rw ((==_iff q (next_sequence c.ack_nr)).1 e) (
        one_more n p c (deliver q p c) _ refl d.1 (
            deliver_following-Delivers (length c.out_of_order) (suc n) (deliver q p c) (d.0 ∙ same)
              (rw d.2 (advance-Ahead n c.out_of_order o.ahead clear)) (rw d.2 (omega arith))),
        omega arith,
      )

  same_index :
      (n m q : ℕ)
      → q ≡ number n
      → m < n + 0x8000
      → n < m + 0x8000
      → number m ≡ next_sequence q
      → m ≡ suc n
  same_index n m q e u l h = omega arith

  index_after :
      (n m q k : ℕ)
      → q ≡ number n
      → m < n + 0x8000
      → n < m + 0x8000
      → (sequence_after (number m) q && ltb k max_out_of_order) ≡ true
      → n < m
  unfolding sequence_after
  index_after n m q k e u l h = ground arith

  stored :
      (n m : ℕ) (c : UtpConnection)
      → InOrder n c
      → n < m
      → m < n + 0x8000
      → (number m == next_sequence c.ack_nr) ≡ false
      → Delivers n c (record c { out_of_order = put (number m) (segment m) c.out_of_order })
  unfolding gather
  stored n m c o l u e = record {
    count = 0;
    total = n;
    adds_up = omega arith;
    in_order = record {
      acked = o.acked;
      ahead =
          put-Ahead n (number m) (segment m) c.out_of_order
            (record { index = m; behind = l; near = u; numbered = refl; carries = refl }) o.ahead;
      missing =
          contains-put (number m) (next_sequence c.ack_nr) (segment m) c.out_of_order o.missing
            (λ h. cc (e, (==_iff (number m) (next_sequence c.ack_nr)).1 h));
    };
    appended = sym (append-nil c.buffer);
  }

  accept-Delivers :
      (n m : ℕ) (c : UtpConnection)
      → InOrder n c
      → m < n + 0x8000
      → n < m + 0x8000
      → Delivers n c (accept (number m) (segment m) c)
  unfolding accept
  accept-Delivers n m c o u l = elim (Bool-cases (number m == next_sequence c.ack_nr)) [
    | inl e ↦
        let same = (==_iff (number m) (next_sequence c.ack_nr)).0 e in
        let i = same_index n m c.ack_nr o.acked u l same in
        rw i ((accept_next n (number (suc n)) c o (rw i at same)).0)
    | inr e ↦
        elim (Bool-cases
          (sequence_after (number m) c.ack_nr && ltb (length c.out_of_order) max_out_of_order)) [
            | inl f ↦
                rw (e, f, accept)
                  (stored n m c o (index_after n m c.ack_nr (length c.out_of_order) o.acked u l f) u
                    e)
            | inr f ↦ rw (e, f, accept) (unmoved n c o.acked o.ahead o.missing)
          ]
  ]

  -- A packet that carries segment m of the peer's stream, under its number, arrives where n segments
  -- were delivered, m and n less than half the number range apart, early, late or again: the buffer
  -- grows by the next segments of the stream, in order, and nothing else; the acknowledgement number
  -- counts them; and the segment after them is not left waiting.
  pub data_received-Delivers :
      (n m : ℕ) (c : UtpConnection)
      → InOrder n c
      → m < n + 0x8000
      → n < m + 0x8000
      → Delivers n c (data_received (number m) (segment m) c)
  unfolding data_received
  data_received-Delivers n m c o u l = Delivers-schedule_ack (accept-Delivers n m c o u l)

  -- The packet of the segment that is due is delivered at once, with whatever was waiting for it.
  pub data_received_next :
      (n : ℕ) (c : UtpConnection)
      → InOrder n c
      → (d : Delivers n c (data_received (number (suc n)) (segment (suc n)) c)) × (1 ≤ d.count)
  unfolding data_received Delivers-schedule_ack
  data_received_next n c o =
      let (d, some_delivered) =
        accept_next n (number (suc n)) c o (sym (next-number n c.ack_nr o.acked)) in
      (Delivers-schedule_ack d, some_delivered)
