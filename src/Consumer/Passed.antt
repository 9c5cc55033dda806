-- ===== src/Consumer/Passed.antt =====
-- The records of a batch that did not settle, in the loop `Run` of
-- internal/consumer/consumer.go: the next batch that settles takes them along.
use mathlib.Core.List.{Memᴰ}
use mathlib.Core.Path.{subst, sym}
use peikonpurekkusu_payment.Prelude.{ℕ, ◌≡◌, inl, inr, refl, true, false, Bool-cases}
use peikonpurekkusu_payment.Prelude.Elements.{member-append_left, member-append_right}
use peikonpurekkusu_payment.Saga.World.{Env}
use peikonpurekkusu_payment.Consumer.{
  Rec, Outside, Inbox, Settled, settled, unsettled, stopped, settle_batch,
}
use peikonpurekkusu_payment.Consumer.Run.{
  Fetches, Client, Reader, Next, again, over, after_batch, after_round, with_fetches, one_round,
  run,
}
use peikonpurekkusu_payment.Consumer.Commits.{IsClient, not_settled, skipped_by, no_member}

module _ {S : Type 0} (client : Client S) (env : Env) (out : Outside) (fuel : ℕ) where
  module _ (laws : IsClient client) where
    -- What was fetched stands among what was polled.
    fetched-polled :
        (c : S) (z : Rec)
        → Memᴰ z (client.poll c).0.records
        → Memᴰ z (laws.polled (client.poll c).1)
    fetched-polled c z m =
        subst (λ ys. Memᴰ z ys) (sym (laws.poll-polled c))
          (member-append_left z (client.poll c).0.records (laws.polled c) m)

    before-polled :
        (c : S) (z : Rec) → Memᴰ z (laws.polled c) → Memᴰ z (laws.polled (client.poll c).1)
    before-polled c z m =
        subst (λ ys. Memᴰ z ys) (sym (laws.poll-polled c))
          (member-append_right z (client.poll c).0.records (laws.polled c) m)

    batch-polled :
        (x : Fetches) (c : S) (y : Settled × Inbox) (z : Rec)
        → (Memᴰ z x.records → Memᴰ z (laws.polled c))
        → (after_batch client y c).0 ≡ again
        → Memᴰ z (not_settled x.records y.0)
        → Memᴰ z (laws.polled (after_batch client y c).1.position)
    unfolding after_batch not_settled
    batch-polled x c (settled, s) z f h m = absurd (no_member z m)
    batch-polled x c (unsettled, s) z f h m = f m
    batch-polled x c (stopped, s) z f h m = absurd (cc)

    round-polled :
        (x : Fetches) (c : S) (s : Inbox) (z : Rec)
        → (Memᴰ z x.records → Memᴰ z (laws.polled c))
        → (with_fetches client env out fuel (x, c) s).0 ≡ again
        → Memᴰ z (skipped_by client env out fuel x s)
        → Memᴰ z (laws.polled (with_fetches client env out fuel (x, c) s).1.position)
    unfolding with_fetches skipped_by
    round-polled x c s z f = elim (Bool-cases x.context_over) [
      | inl ended ↦ rw ended (λ h m. absurd (cc))
      | inr on ↦ elim (Bool-cases x.has_errors) [
        | inl errors ↦ rw on (rw errors (λ h m. f m))
        | inr clear ↦
            rw on
              (rw clear (λ h m. batch-polled x c (settle_batch env out fuel x.records s) z f h m))
      ]
    ]

    batch-committed :
        (c : S) (y : Settled × Inbox) (z : Rec)
        → y.0 ≡ settled
        → (client.commit c).0 ≡ true
        → Memᴰ z (laws.polled c)
        → Memᴰ z (laws.committed (after_round (λ t. t) (after_batch client y c)).position)
    unfolding after_batch after_round
    batch-committed c (settled, s) z e ok m = laws.commit-all c z ok m
    batch-committed c (unsettled, s) z e ok m = absurd (cc)
    batch-committed c (stopped, s) z e ok m = absurd (cc)

    -- A round that fetches with no errors, settles its batch and commits.
    pub record IsCommitting (t : Reader S) : Type 0 where
      pub goes_on : (client.poll t.position).0.context_over ≡ false
      pub no_errors : (client.poll t.position).0.has_errors ≡ false
      pub settles :
          (settle_batch env out fuel (client.poll t.position).0.records t.inbox).0 ≡ settled
      pub succeeds : (client.commit (client.poll t.position).1).0 ≡ true

    round-committed :
        (t : Reader S) (z : Rec)
        → IsCommitting t
        → Memᴰ z (laws.polled t.position)
        → Memᴰ z (laws.committed (run client env out fuel 1 t).position)
    unfolding run one_round with_fetches
    round-committed t z h m =
        let x : Fetches = (client.poll t.position).0 in
        rw h.goes_on (
          rw h.no_errors (
            batch-committed (client.poll t.position).1 (settle_batch env out fuel x.records t.inbox)
              z h.settles h.succeeds (before-polled t.position z m)))

    run-again :
        (y : Next × Reader S)
        → y.0 ≡ again
        → after_round (λ t. run client env out fuel 1 t) y ≡ run client env out fuel 1 y.1
    unfolding after_round
    run-again (again, t) e = refl
    run-again (over, t) e = absurd (cc)

    -- The offset of a record that a round skips, without ending the loop, is committed by the next
    -- round if that one fetches with no errors, settles its own batch and succeeds to commit.
    pub skipped_is_committed :
        (r : Reader S) (z : Rec)
        → (one_round client env out fuel r).0 ≡ again
        → Memᴰ z (skipped_by client env out fuel (client.poll r.position).0 r.inbox)
        → IsCommitting (one_round client env out fuel r).1
        → Memᴰ z (laws.committed (run client env out fuel 2 r).position)
    unfolding run one_round
    skipped_is_committed r z h m next =
        let y : Next × Reader S = one_round client env out fuel r in
        subst (λ u. Memᴰ z (laws.committed u.position)) (sym (run-again y h))
          (round-committed y.1 z next (
            round-polled (client.poll r.position).0 (client.poll r.position).1 r.inbox z
              (fetched-polled r.position z) h m))
