-- ===== src/Utp/Lifecycle.antt =====
-- The life of a uTP connection (dht_scraper/utp_transport.py): acknowledgement, resending, failing.
use lif.RecentMap.{find}
use lif.Common.{
  length, length-append, ◌+◌, if◌then◌else◌, ◌==◌, ==_iff, ==_self, nat_eq, ℕ, ◌-◌, ◌*◌, ◌^◌, ◌≤◌,
  List, [], ◌∷◌, ◌++◌, true, false, none, some, ltb, leb, All, Bool-cases, inl, inr, ◌≡◌, ◌⊎◌, ◌∙◌,
  refl, arith,
}
use lif.PeerWire.Messages.{Reason, timeout, connect_timeout}
use lif.Utp.Packets.{sequence_after}
use lif.Utp.Connection.{
  Unacked, UtpConnection, initial_resend, max_resends, unacked_after, acknowledge, close, fail,
  resend_due, check_resend, arm_resend,
}

find-unacked_after :
    (n q : ℕ) (m : List (ℕ × Unacked))
    → find q (unacked_after n m) ≡ (if sequence_after q n then find q m else none)
unfolding unacked_after find
find-unacked_after n q [] = ground arith
find-unacked_after n q ((j, u) ∷ m) = elim (Bool-cases (j == q)) [
  | inl e ↦
      let same = (==_iff j q).0 e in
      rw same (elim (Bool-cases (sequence_after q n)) [
        | inl h ↦ rw h (rw (==_self q) refl)
        | inr h ↦ rw h (find-unacked_after n q m ∙ simp h)
      ])
  | inr e ↦ ground (arith, find-unacked_after n q m)
]

-- Acknowledgement `n` forgets exactly the packets whose number is not after n.
pub find-acknowledge :
    (n q : ℕ) (c : UtpConnection)
    → find q (acknowledge n c).unacked ≡ (if sequence_after q n then find q c.unacked else none)
unfolding acknowledge
find-acknowledge n q c = find-unacked_after n q c.unacked

-- No packet is sent again more than MAX_RESENDS times.
abbrev pub AllBounded : List (ℕ × Unacked) → Type 0
AllBounded = All (λ e. e.1.resends ≤ max_resends)

resend_due-AllBounded :
    (now : ℕ) (m : List (ℕ × Unacked)) → AllBounded m → AllBounded (resend_due now m).0
unfolding resend_due
resend_due-AllBounded now [] a = tt
resend_due-AllBounded now ((q, u) ∷ m) a =
    elim (Bool-cases (ltb (now - u.sent_at) (initial_resend * 2 ^ u.resends))) [
      | inl e ↦ rw e (a.0, resend_due-AllBounded now m a.1)
      | inr e ↦ elim (Bool-cases (leb max_resends u.resends)) [
        | inl f ↦ rw (e, f) a
        | inr f ↦ rw (e, f) (ground arith, resend_due-AllBounded now m a.1)
      ]
    ]

-- The packets sent again so far, of those that are not acknowledged.
abbrev pub resent_so_far : List (ℕ × Unacked) → ℕ
resent_so_far [] = 0
resent_so_far (e ∷ m) = e.1.resends + resent_so_far m

resend_due-counts :
    (now : ℕ) (m : List (ℕ × Unacked))
    → resent_so_far (resend_due now m).0 ≡ resent_so_far m + length (resend_due now m).1
unfolding resend_due
resend_due-counts now [] = refl
resend_due-counts now ((q, u) ∷ m) =
    let ih = resend_due-counts now m in
    elim (Bool-cases (ltb (now - u.sent_at) (initial_resend * 2 ^ u.resends))) [
      | inl e ↦ rw e (omega (arith, ih))
      | inr e ↦ elim (Bool-cases (leb max_resends u.resends)) [
        | inl f ↦ rw (e, f) (omega arith)
        | inr f ↦ rw (e, f) (omega (arith, ih))
      ]
    ]

fail-outbox :
    (reason : Reason) (now : ℕ) (c : UtpConnection) → (fail reason now c).outbox ≡ c.outbox
unfolding fail close
fail-outbox reason now c = ground arith

arm_resend-outbox : (c : UtpConnection) → (arm_resend c).outbox ≡ c.outbox
unfolding arm_resend
arm_resend-outbox c = ground arith

fail-unacked :
    (reason : Reason) (now : ℕ) (c : UtpConnection) → (fail reason now c).unacked ≡ c.unacked
unfolding fail close
fail-unacked reason now c = ground arith

arm_resend-unacked : (c : UtpConnection) → (arm_resend c).unacked ≡ c.unacked
unfolding arm_resend
arm_resend-unacked c = ground arith

Lists-cases : {A : Type 0} (xs : List A) → (xs ≡ []) ⊎ ((x : A) × (ys : List A) × (xs ≡ x ∷ ys))
Lists-cases [] = inl refl
Lists-cases (x ∷ xs) = inr (x, xs, refl)

-- What the timer does to an open connection.
check_resend_open :
    (now : ℕ) (c : UtpConnection)
    → c.is_closed ≡ false
    → ((check_resend now c).unacked ≡ (resend_due now c.unacked).0)
      × ((check_resend now c).outbox ≡ c.outbox ++ (resend_due now c.unacked).1)
unfolding check_resend
check_resend_open now c h = elim (Bool-cases (resend_due now c.unacked).2) [
  | inl g ↦ simp (h, g, fail-unacked, fail-outbox) (refl, refl)
  | inr g ↦ elim (Lists-cases (resend_due now c.unacked).0) [
    | inl e ↦ simp (h, g, e) (refl, refl)
    | inr (x, m, e) ↦ simp (h, g, e, arm_resend-unacked, arm_resend-outbox) (refl, refl)
  ]
]

check_resend_closed :
    (now : ℕ) (c : UtpConnection)
    → c.is_closed ≡ true
    → ((check_resend now c).unacked ≡ c.unacked) × ((check_resend now c).outbox ≡ c.outbox)
unfolding check_resend
check_resend_closed now c h = simp h (refl, refl)

-- When the timer runs, every packet that it sends is counted as sent again once more: the packets that
-- it adds to those sent are as many as the counts of the unacknowledged packets rise by. And no count
-- comes above MAX_RESENDS: no packet is sent again more often.
pub check_resend-AllBounded :
    (now : ℕ) (c : UtpConnection)
    → AllBounded c.unacked
    → AllBounded (check_resend now c).unacked
      × (length (check_resend now c).outbox + resent_so_far c.unacked
          ≡ length c.outbox + resent_so_far (check_resend now c).unacked)
check_resend-AllBounded now c a = elim (Bool-cases c.is_closed) [
  | inl h ↦ let (unacked, outbox) = check_resend_closed now c h in rw (unacked, outbox) (a, refl)
  | inr h ↦
      let (unacked, outbox) = check_resend_open now c h in
      rw (unacked, outbox)
        (
          resend_due-AllBounded now c.unacked a,
          omega (
            arith,
            resend_due-counts now c.unacked,
            length-append {0} c.outbox (resend_due now c.unacked).1,
          ),
        )
]

resend_due_gives_up :
    (now q : ℕ) (u : Unacked) (m : List (ℕ × Unacked))
    → find q m ≡ some u
    → max_resends ≤ u.resends
    → initial_resend * 2 ^ u.resends ≤ now - u.sent_at
    → (resend_due now m).2 ≡ true
unfolding find resend_due
resend_due_gives_up now q u [] f g k = cc
resend_due_gives_up now q u ((j, v) ∷ m) f g k = elim (Bool-cases (j == q)) [
  | inl e ↦
      let found : some v ≡ some u = rw e at f in let same : v ≡ u = cc in rw same (ground arith)
  | inr e ↦ ground (arith, resend_due_gives_up now q u m)
]

fail_closes :
    (reason : Reason) (now : ℕ) (c : UtpConnection)
    → c.is_closed ≡ false
    → c.error ≡ none
    → ((fail reason now c).is_closed ≡ true) × ((fail reason now c).error ≡ some reason)
unfolding fail close
fail_closes reason now c h e = simp (h, e) (refl, refl)

-- A packet that was sent MAX_RESENDS times again, and is overdue once more, ends an open connection:
-- with "timeout" if it was connected, with "connect_timeout" if not, unless it had an error before.
pub check_resend_gives_up :
    (now : ℕ) (c : UtpConnection) (q : ℕ) (u : Unacked)
    → c.is_closed ≡ false
    → c.error ≡ none
    → find q c.unacked ≡ some u
    → max_resends ≤ u.resends
    → initial_resend * 2 ^ u.resends ≤ now - u.sent_at
    → ((check_resend now c).is_closed ≡ true)
      × ((check_resend now c).error ≡ some (if c.connected_state then timeout else connect_timeout))
unfolding check_resend
check_resend_gives_up now c q u h e f g k =
    let up = resend_due_gives_up now q u c.unacked f g k in
    simp (h, up)
      (fail_closes _ now
        (record c {
          is_closed = false;
          unacked = (resend_due now c.unacked).0;
          resend_timer = false;
          outbox = c.outbox ++ (resend_due now c.unacked).1;
        })
        refl e)
