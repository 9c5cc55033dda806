-- ===== src/Consumer/Commits.antt =====
-- Which offsets the loop `Run` of internal/consumer/consumer.go commits.
use mathlib.Core.List.{Memᴰ}
use mathlib.Core.Path.{subst}
use peikonpurekkusu_payment.Prelude.{
  ℕ, zero, suc, ◌≡◌, ◌⊎◌, inl, inr, refl, true, false, List, [], ◌++◌, All, Bool-cases,
  if◌then◌else◌,
}
use peikonpurekkusu_payment.Prelude.Elements.{
  All-member, member-append_left, member-append_right, member-append_cases,
}
use peikonpurekkusu_payment.Saga.World.{Env}
use peikonpurekkusu_payment.Consumer.{
  Rec, Outside, Inbox, Settled, settled, unsettled, stopped, settle_batch,
}
use peikonpurekkusu_payment.Consumer.Batch.{
  Grows, IsSafe, IsSafe-Grows, batch-Grows, committed-IsSafe,
}
use peikonpurekkusu_payment.Consumer.Run.{
  Fetches, Client, Reader, Next, again, over, after_batch, after_round, with_fetches, one_round,
  run,
}

-- How a client keeps its offsets: it has the records that it has polled and not committed, and
-- those that it has committed. A poll goes on behind what was polled, committed or not, and a
-- commit is one of all that was polled.
pub record IsClient {S : Type 0} (client : Client S) : Type 0 where
  pub polled : S → List Rec
  pub committed : S → List Rec
  pub poll-polled : (c : S) → polled (client.poll c).1 ≡ (client.poll c).0.records ++ polled c
  pub poll-committed : (c : S) → committed (client.poll c).1 ≡ committed c
  pub commit-polled : (c : S) (z : Rec) → Memᴰ z (polled (client.commit c).1) → Memᴰ z (polled c)
  pub commit-committed :
      (c : S) (z : Rec)
      → Memᴰ z (committed (client.commit c).1)
      → Memᴰ z (polled c) ⊎ Memᴰ z (committed c)
  pub commit-all :
      (c : S) (z : Rec)
      → (client.commit c).0 ≡ true
      → Memᴰ z (polled c)
      → Memᴰ z (committed (client.commit c).1)

-- The records of a batch that did not settle.
unfoldable pub not_settled : List Rec → Settled → List Rec
not_settled recs settled = []
not_settled recs unsettled = recs
not_settled recs stopped = recs

unfoldable pub then_skipped : {S : Type 0} → (Reader S → List Rec) → Next × Reader S → List Rec
then_skipped rest (again, r) = rest r
then_skipped rest (over, r) = []

pub no_member : (z : Rec) → Memᴰ z [] → ⊥
no_member z m = elim m [ ]

module _ {S : Type 0} (client : Client S) (env : Env) (out : Outside) (fuel : ℕ) where
  unfoldable pub skipped_by : Fetches → Inbox → List Rec
  unfolding not_settled
  skipped_by x s =
      if x.context_over
      then x.records
      else if x.has_errors
      then x.records
      else not_settled x.records (settle_batch env out fuel x.records s).0

  -- The records that a run polls and does not settle: their fetch had errors, or their batch did
  -- not settle.
  unfoldable pub skipped : ℕ → Reader S → List Rec
  unfolding skipped_by then_skipped one_round
  skipped zero r = []
  skipped (suc n) r =
      skipped_by (client.poll r.position).0 r.inbox
      ++ then_skipped (λ t. skipped n t) (one_round client env out fuel r)

  -- A record is safe, or one of those that are skipped.
  abbrev pub IsKept : List Rec → Inbox → Rec → Type 0
  IsKept l s rec = IsSafe env out s rec ⊎ Memᴰ rec l

  IsKept-Grows :
      (l : List Rec) (s u : Inbox) (z : Rec) → Grows env out s u → IsKept l s z → IsKept l u z
  IsKept-Grows l s u z g (inl safe) = inl (IsSafe-Grows env out s u z g safe)
  IsKept-Grows l s u z g (inr m) = inr m

  skipped_by-ended : (x : Fetches) (s : Inbox) → x.context_over ≡ true → skipped_by x s ≡ x.records
  unfolding skipped_by
  skipped_by-ended x s ended = rw ended refl

  skipped_by-errors :
      (x : Fetches) (s : Inbox)
      → x.context_over ≡ false
      → x.has_errors ≡ true
      → skipped_by x s ≡ x.records
  unfolding skipped_by
  skipped_by-errors x s on errors = rw on (rw errors refl)

  skipped_by-batch :
      (x : Fetches) (s : Inbox)
      → x.context_over ≡ false
      → x.has_errors ≡ false
      → skipped_by x s ≡ not_settled x.records (settle_batch env out fuel x.records s).0
  unfolding skipped_by
  skipped_by-batch x s on clear = rw on (rw clear refl)

  abbrev Within : List Rec → List Rec → Type 0
  Within l ys = (z : Rec) → Memᴰ z ys → Memᴰ z l

  module _ (laws : IsClient client) where
    record Holds (l : List Rec) (s : Inbox) (c : S) : Type 0 where
      polled : (z : Rec) → Memᴰ z (laws.polled c) → IsKept l s z
      committed : (z : Rec) → Memᴰ z (laws.committed c) → IsKept l s z

    Holds-Grows :
        (l : List Rec) (s u : Inbox) (c : S) → Grows env out s u → Holds l s c → Holds l u c
    Holds-Grows l s u c g h = record {
      polled = λ z m. IsKept-Grows l s u z g (h.polled z m);
      committed = λ z m. IsKept-Grows l s u z g (h.committed z m);
    }

    poll-Holds :
        (l : List Rec) (s : Inbox) (c : S)
        → Holds l s c
        → ((z : Rec) → Memᴰ z (client.poll c).0.records → IsKept l s z)
        → Holds l s (client.poll c).1
    poll-Holds l s c h k = record {
      polled = λ z m.
          elim (member-append_cases z (client.poll c).0.records (laws.polled c)
            (subst (λ ys. Memᴰ z ys) (laws.poll-polled c) m)) [
              | inl new ↦ k z new
              | inr old ↦ h.polled z old
            ];
      committed = λ z m. h.committed z (subst (λ ys. Memᴰ z ys) (laws.poll-committed c) m);
    }

    commit-Holds : (l : List Rec) (s : Inbox) (c : S) → Holds l s c → Holds l s (client.commit c).1
    commit-Holds l s c h = record {
      polled = λ z m. h.polled z (laws.commit-polled c z m);
      committed = λ z m. elim (laws.commit-committed c z m) [
        | inl new ↦ h.polled z new
        | inr old ↦ h.committed z old
      ];
    }

    -- What is left to do for a round that has polled.
    batch-Holds :
        (l : List Rec) (s : Inbox) (c : S) (y : Settled × Inbox)
        → Grows env out s y.1
        → (y.0 ≡ settled → All (IsSafe env out y.1) (client.poll c).0.records)
        → Within l (not_settled (client.poll c).0.records y.0)
        → Holds l s c
        → Holds l
            (after_batch client y (client.poll c).1).1.inbox
            (after_batch client y (client.poll c).1).1.position
    unfolding after_batch not_settled
    batch-Holds l s c (settled, u) g safe m h = commit-Holds l u (client.poll c).1 (
        poll-Holds l u c (Holds-Grows l s u c g h)
          (λ z n. inl (All-member (IsSafe env out u) z (client.poll c).0.records (safe refl) n)))
    batch-Holds l s c (unsettled, u) g safe m h =
        poll-Holds l u c (Holds-Grows l s u c g h) (λ z n. inr (m z n))
    batch-Holds l s c (stopped, u) g safe m h =
        poll-Holds l u c (Holds-Grows l s u c g h) (λ z n. inr (m z n))

    abbrev ReaderHolds : List Rec → Reader S → Type 0
    ReaderHolds l r = Holds l r.inbox r.position

    round-Holds :
        (l : List Rec) (r : Reader S)
        → Within l (skipped_by (client.poll r.position).0 r.inbox)
        → ReaderHolds l r
        → ReaderHolds l (one_round client env out fuel r).1
    unfolding one_round with_fetches
    round-Holds l r m h =
        let x : Fetches = (client.poll r.position).0 in
        let s : Inbox = r.inbox in
        elim (Bool-cases x.context_over) [
          | inl ended ↦ rw ended (
              poll-Holds l s r.position h
                (λ z n. inr (subst (Within l) (skipped_by-ended x s ended) m z n)))
          | inr on ↦ elim (Bool-cases x.has_errors) [
            | inl errors ↦ rw on (
                rw errors (
                  poll-Holds l s r.position h
                    (λ z n. inr (subst (Within l) (skipped_by-errors x s on errors) m z n))))
            | inr clear ↦ rw on (
                rw clear (
                  batch-Holds l s r.position (settle_batch env out fuel x.records s)
                    (batch-Grows env out fuel x.records s)
                    (committed-IsSafe env out fuel x.records s)
                    (subst (Within l) (skipped_by-batch x s on clear) m) h))
          ]
        ]

    rest-Holds :
        (l : List Rec) (n : ℕ) (y : Next × Reader S)
        → ((t : Reader S)
            → Within l (skipped n t)
            → ReaderHolds l t
            → ReaderHolds l (run client env out fuel n t))
        → Within l (then_skipped (λ t. skipped n t) y)
        → ReaderHolds l y.1
        → ReaderHolds l (after_round (λ t. run client env out fuel n t) y)
    unfolding after_round then_skipped
    rest-Holds l n (again, t) later m h = later t m h
    rest-Holds l n (over, t) later m h = h

    run-Holds :
        (l : List Rec) (n : ℕ) (r : Reader S)
        → Within l (skipped n r)
        → ReaderHolds l r
        → ReaderHolds l (run client env out fuel n r)
    unfolding run skipped
    run-Holds l zero r m h = h
    run-Holds l (suc n) r m h =
        let y : Next × Reader S = one_round client env out fuel r in
        let first : List Rec = skipped_by (client.poll r.position).0 r.inbox in
        let rest : List Rec = then_skipped (λ t. skipped n t) y in
        rest-Holds l n y (λ t k j. run-Holds l n t k j)
          (λ z k. m z (member-append_right z first rest k))
          (round-Holds l r (λ z k. m z (member-append_left z first rest k)) h)

    -- Whatever is fetched, every record whose offset the client has committed after some rounds
    -- of `Run` is, in the end, applied and marked or in the dead letters, or it is one of those
    -- that were skipped, because their fetch had errors or their batch did not settle; provided
    -- that the client keeps offsets as documented and begins with none polled or committed.
    pub run-IsKept :
        (n : ℕ) (r : Reader S)
        → laws.polled r.position ≡ []
        → laws.committed r.position ≡ []
        → (z : Rec) → Memᴰ z (laws.committed (run client env out fuel n r).position)
        → IsKept (skipped n r) (run client env out fuel n r).inbox z
    run-IsKept n r p c =
        (run-Holds (skipped n r) n r (λ z m. m)
          (record {
            polled = λ z m. absurd (no_member z (subst (λ ys. Memᴰ z ys) p m));
            committed = λ z m. absurd (no_member z (subst (λ ys. Memᴰ z ys) c m));
          })).committed
