-- ===== src/Psp/RetryLaws.antt =====
-- What the retry loop of internal/psp/psp.go returns, for any number of attempts.
use peikonpurekkusu_payment.Prelude.{
  ℕ, zero, suc, ◌+◌, ◌≤◌, ◌<◌, ◌≡◌, refl, ◌⊎◌, inl, inr, Bool, true, false, Option, none, some,
  arith, Bool-cases, Option-cases, sym, ◌==◌, ◌∙◌,
}
use peikonpurekkusu_payment.Psp.{Error, Result, ok, err, is_unavailable}
use peikonpurekkusu_payment.Psp.Retry.{retry_from, retry, ends_waiting}

-- The results that make the loop try again.
abbrev pub transient : {A : Type 0} → Result A → Bool
transient (ok a) = false
transient (err e) = is_unavailable e.kind

module _ {A : Type 0} (done : ℕ → Option Error) (fn : ℕ → Result A) where
  -- The attempt with which the loop ends, and how.
  pub record Stop (attempts start : ℕ) (r : Result A) : Type 0 where
    pub last : ℕ
    pub from_start : start ≤ last
    pub in_bounds : last < start + attempts
    pub earlier : (k : ℕ) → start ≤ k → k < last → (transient (fn k) ≡ true) × (done k ≡ none)
    pub ends :
        ((r ≡ fn last)
          × ((transient (fn last) ≡ false) ⊎ ((suc last ≡ start + attempts) × (done last ≡ none))))
        ⊎ ((transient (fn last) ≡ true) × ((c : Error) × (done last ≡ some c) × (r ≡ err c)))

  retry_ok : (n i : ℕ) (o : Result A) (a : A) → fn i ≡ ok a → retry_from (suc n) i done fn o ≡ ok a
  unfolding retry_from
  retry_ok n i o a e = rw (e, retry_from)

  module _ (n i : ℕ) (o : Result A) (e : Error) (failed : fn i ≡ err e) where
    retry_hard : is_unavailable e.kind ≡ false → retry_from (suc n) i done fn o ≡ err e
    unfolding retry_from
    retry_hard h = ground arith

    retry_done :
        (c : Error)
        → is_unavailable e.kind ≡ true
        → done i ≡ some c
        → retry_from (suc n) i done fn o ≡ err c
    unfolding retry_from
    retry_done c h d = ground arith

    retry_again :
        is_unavailable e.kind ≡ true
        → done i ≡ none
        → retry_from (suc n) i done fn o ≡ retry_from n (i + 1) done fn (err e)
    unfolding retry_from
    retry_again h d = ground arith

  Result-cases : (r : Result A) → ((a : A) × (r ≡ ok a)) ⊎ ((e : Error) × (r ≡ err e))
  Result-cases (ok a) = inl (a, refl)
  Result-cases (err e) = inr (e, refl)

  -- An attempt that settles the loop, as a stop.
  Stop-now : (n i : ℕ) (r : Result A) → r ≡ fn i → transient (fn i) ≡ false → Stop (suc n) i r
  Stop-now n i r e h = record {
    last = i;
    from_start = omega arith;
    in_bounds = omega arith;
    earlier = λ k lo hi. absurd (omega arith);
    ends = inl (e, inl h);
  }

  Stop-done :
      (n i : ℕ) (c : Error) (r : Result A)
      → transient (fn i) ≡ true
      → done i ≡ some c
      → r ≡ err c
      → Stop (suc n) i r
  Stop-done n i c r h d e = record {
    last = i;
    from_start = omega arith;
    in_bounds = omega arith;
    earlier = λ k lo hi. absurd (omega arith);
    ends = inr (h, (c, d, e));
  }

  Stop-spent :
      (i : ℕ) (r : Result A) → transient (fn i) ≡ true → done i ≡ none → r ≡ fn i → Stop 1 i r
  Stop-spent i r h d e = record {
    last = i;
    from_start = omega arith;
    in_bounds = omega arith;
    earlier = λ k lo hi. absurd (omega arith);
    ends = inl (e, inr (omega arith, d));
  }

  Stop-later :
      (n i : ℕ) (r : Result A)
      → transient (fn i) ≡ true
      → done i ≡ none
      → Stop (suc n) (i + 1) r
      → Stop (suc (suc n)) i r
  Stop-later n i r h d s = record {
    last = s.last;
    from_start = omega arith;
    in_bounds = omega arith;
    earlier = λ k lo hi. elim (Bool-cases (k == i)) [
      | inl same ↦ ground (arith, h, d)
      | inr other ↦ s.earlier k (ground arith) hi
    ];
    ends = let e : i + suc (suc n) ≡ i + 1 + suc n = omega arith in rw e s.ends;
  }

  -- One attempt, with what the rest of the loop does given.
  settle :
      (n i : ℕ) (o : Result A)
      → ((e : Error)
          → fn i ≡ err e
          → transient (fn i) ≡ true
          → done i ≡ none
          → Stop (suc n) i (retry_from n (i + 1) done fn (err e)))
      → Stop (suc n) i (retry_from (suc n) i done fn o)
  settle n i o again = elim (Result-cases (fn i)) [
    | inl (a, e) ↦ Stop-now n i _ (retry_ok n i o a e ∙ sym e) (ground arith)
    | inr (e, f) ↦ elim (Bool-cases (is_unavailable e.kind)) [
      | inr hard ↦ Stop-now n i _ (retry_hard n i o e f hard ∙ sym f) (ground arith)
      | inl soft ↦ elim (Option-cases (done i)) [
        | inr (c, d) ↦ Stop-done n i c _ (ground arith) d (retry_done n i o e f c soft d)
        | inl d ↦ rw (retry_again n i o e f soft d) (again e f (ground arith) d)
      ]
    ]
  ]

  last_failed : (i : ℕ) (e : Error) → retry_from zero (i + 1) done fn (err e) ≡ err e
  unfolding retry_from
  last_failed i e = refl

  retry_from-Stop : (n i : ℕ) (o : Result A) → Stop (suc n) i (retry_from (suc n) i done fn o)
  retry_from-Stop zero i o =
      settle zero i o (λ e f soft d. Stop-spent i _ soft d (last_failed i e ∙ sym f))
  retry_from-Stop (suc n) i o =
      settle (suc n) i o (λ e f soft d. Stop-later n i _ soft d (retry_from-Stop n (i + 1) (err e)))

-- With at least one attempt, `retry` ends at one of its attempts. Every earlier attempt found the
-- processor unavailable, and the context alive through its wait. It returns what its last attempt
-- returned, which is settled or the last that was allowed; or the context ended in the wait after
-- that attempt, and it returns the context's error.
pub retry-Stop :
    {A : Type 0} (jitter : ℕ → ℕ) (done : ℕ → ℕ → Option Error) (fn : ℕ → Result A) (zero_value : A)
    (n : ℕ)
    → Stop (ends_waiting jitter done) fn (suc n) 0 (retry zero_value (suc n) jitter done fn)
unfolding retry
retry-Stop jitter done fn zero_value n =
    retry_from-Stop (ends_waiting jitter done) fn n 0 (ok zero_value)
