-- ===== src/Bus/Order.antt =====
-- What a subscriber of internal/pubsub/pubsub.go gets to see, under any sequence of calls.
use peikonpurekkusu_payment.Prelude.{
  ℕ, ◌≤◌, ◌≡◌, inl, inr, refl, List, [], ◌∷◌, ◌++◌, none, some, arith, length, ltb, All, Bool-cases,
  Option-cases, ◌==◌, ap, sym,
}
use peikonpurekkusu_payment.Saga.World.{Update}
use peikonpurekkusu_payment.Bus.{
  capacity, Channel, subscribe, cancel, offer, publish, take_last, receive_one, receive, Call,
  subscribes, cancels, publishes, receives, call, call_all,
}

-- The updates `xs` come among the updates `ys` in their order, each at most once.
pub data IsAmong : List Update → List Update → Type 0 where
  nothing : {ys : List Update} → IsAmong [] ys
  skips : {xs ys : List Update} (y : Update) → IsAmong xs ys → IsAmong xs (y ∷ ys)
  keeps : {xs ys : List Update} (y : Update) → IsAmong xs ys → IsAmong (y ∷ xs) (y ∷ ys)

-- All that a channel was given, the newest first.
abbrev pub given : Channel → List Update
given ch = ch.buffer ++ ch.received

-- Of a channel, after the updates `log` were published.
pub record IsFaithful (log : List Update) (ch : Channel) : Type 0 where
  pub ordered : IsAmong (given ch) log
  pub own : All (λ u. u.payment_id ≡ ch.payment_id) (given ch)
  pub bounded : length ch.buffer ≤ capacity

-- The updates that calls publish, before those of an older log.
abbrev pub logged : Call → List Update → List Update
logged (publishes u) log = u ∷ log
logged _ log = log

unfoldable pub logged_all : List Call → List Update → List Update
logged_all [] log = log
logged_all (c ∷ cs) log = logged_all cs (logged c log)

offer-IsFaithful :
    (u : Update) (log : List Update) (ch : Channel)
    → IsFaithful log ch
    → IsFaithful (u ∷ log) (offer u ch)
unfolding offer
offer-IsFaithful u log ch f = elim (Bool-cases (ch.payment_id == u.payment_id)) [
  | inr other ↦
      rw (other, offer) (record { ordered = skips u f.ordered; own = f.own; bounded = f.bounded })
  | inl same ↦ elim (Bool-cases (ltb (length ch.buffer) capacity)) [
    | inr full ↦
        rw (same, offer)
          (rw full (record { ordered = skips u f.ordered; own = f.own; bounded = f.bounded }))
    | inl room ↦
        rw (same, offer)
          (rw room (record {
            ordered = keeps u f.ordered;
            own = (ground (arith, same), f.own);
            bounded = ground (arith, room);
          }))
  ]
]

take_last-none : (us : List Update) → take_last us ≡ none → us ≡ []
unfolding take_last
take_last-none [] h = refl
take_last-none (u ∷ us) h = elim (Option-cases (take_last us)) [
  | inl e ↦ absurd (ground (arith, e, h))
  | inr (x, e) ↦ absurd (ground (arith, e, h))
]

taken : (a b : List Update × Update) → some a ≡ some b → (a.0 ≡ b.0) × (a.1 ≡ b.1)
taken a b h = let e : a ≡ b = cc in (ap (λ q. q.0) e, ap (λ q. q.1) e)

-- The oldest element moves from the end of the buffer to the front of what was received.
take_last-append :
    (us rs rest : List Update) (x : Update)
    → take_last us ≡ some (rest, x)
    → (rest ++ (x ∷ rs) ≡ us ++ rs) × (length rest ≤ length us)
unfolding take_last
take_last-append [] rs rest x h = absurd (cc)
take_last-append (u ∷ us) rs rest x h = elim (Option-cases (take_last us)) [
  | inl e ↦
      let (whole, last) = taken ([], u) (rest, x) (rw (e, take_last) at h) in
      rw (sym whole, sym last) (rw (take_last-none us e) (refl, omega arith))
  | inr ((some_rest, y), e) ↦
      let (whole, last) = taken (u ∷ some_rest, y) (rest, x) (rw (e, take_last) at h) in
      let (same, shorter) = take_last-append us rs some_rest y e in
      rw (sym whole, sym last) (ap (λ l. u ∷ l) same, omega (arith, shorter))
]

receive_one-IsFaithful :
    (log : List Update) (ch : Channel) → IsFaithful log ch → IsFaithful log (receive_one ch)
unfolding receive_one
receive_one-IsFaithful log ch f = elim (Option-cases (take_last ch.buffer)) [
  | inl e ↦ rw (e, receive_one) f
  | inr ((rest, x), e) ↦
      let (same, shorter) = take_last-append ch.buffer ch.received rest x e in
      rw (e, receive_one)
        (record {
          ordered = rw same f.ordered;
          own = rw same f.own;
          bounded = omega (arith, shorter, f.bounded);
        })
]

module _ (log : List Update) where
  cancel-IsFaithful :
      (n : ℕ) (chs : List Channel) → All (IsFaithful log) chs → All (IsFaithful log) (cancel n chs)
  unfolding cancel
  cancel-IsFaithful n [] h = tt
  cancel-IsFaithful n (ch ∷ chs) h = elim (Bool-cases (ch.number == n)) [
    | inl hit ↦ rw hit (cancel-IsFaithful n chs h.1)
    | inr miss ↦ rw miss (h.0, cancel-IsFaithful n chs h.1)
  ]

  publish-IsFaithful :
      (u : Update) (chs : List Channel)
      → All (IsFaithful log) chs
      → All (IsFaithful (u ∷ log)) (publish u chs)
  unfolding publish
  publish-IsFaithful u [] h = tt
  publish-IsFaithful u (ch ∷ chs) h = (offer-IsFaithful u log ch h.0, publish-IsFaithful u chs h.1)

  receive-IsFaithful :
      (n : ℕ) (chs : List Channel) → All (IsFaithful log) chs → All (IsFaithful log) (receive n chs)
  unfolding receive
  receive-IsFaithful n [] h = tt
  receive-IsFaithful n (ch ∷ chs) h = elim (Bool-cases (ch.number == n)) [
    | inl hit ↦ rw hit (receive_one-IsFaithful log ch h.0, receive-IsFaithful n chs h.1)
    | inr miss ↦ rw miss (h.0, receive-IsFaithful n chs h.1)
  ]

call-IsFaithful :
    (c : Call) (log : List Update) (chs : List Channel)
    → All (IsFaithful log) chs
    → All (IsFaithful (logged c log)) (call c chs)
unfolding call subscribe
call-IsFaithful (subscribes n id) log chs h =
    (record { ordered = nothing; own = tt; bounded = omega arith }, h)
call-IsFaithful (cancels n) log chs h = cancel-IsFaithful log n chs h
call-IsFaithful (publishes u) log chs h = publish-IsFaithful log u chs h
call-IsFaithful (receives n) log chs h = receive-IsFaithful log n chs h

-- Whatever the calls are, each channel of the bus has been given only updates of its own payment,
-- in the order in which they were published and each at most once, and holds at most eight, if that
-- was so of the channels before.
pub call_all-IsFaithful :
    (cs : List Call) (log : List Update) (chs : List Channel)
    → All (IsFaithful log) chs
    → All (IsFaithful (logged_all cs log)) (call_all cs chs)
unfolding call_all logged_all
call_all-IsFaithful [] log chs h = h
call_all-IsFaithful (c ∷ cs) log chs h =
    call_all-IsFaithful cs (logged c log) (call c chs) (call-IsFaithful c log chs h)
