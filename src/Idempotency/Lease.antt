-- ===== src/Idempotency/Lease.antt =====
-- How long a claim of a key excludes others, under any sequence of the statements of
-- internal/idempotency/idempotency.go, from any requests.
use peikonpurekkusu_payment.Prelude.{
  ℕ, ◌+◌, ◌≤◌, ◌≡◌, ◌⊎◌, inl, inr, refl, Bool, true, false, String, List, [], ◌∷◌, some, is_some,
  arith, Bool-cases, Option-cases, All, sym, ◌∙◌,
}
use peikonpurekkusu_payment.Payment.{Time}
use peikonpurekkusu_payment.Idempotency.{
  KeyRow, Call, key_ttl, lock_lease, is_key, find, insert_key, is_reclaimable, locked, take_over,
  completed, complete, is_expired, purge, claimed_row,
}
use peikonpurekkusu_payment.Idempotency.Rows.{
  is_key-agree, find-is_key, find-agree, find-update, find-purge, claimed_row-is_key, locked-is_key,
  completed-is_key,
}

-- One statement on the table.
pub data Statement : Type 0 where
  inserts takes_over : Time → Call → Statement
  completes : Call → ℕ → String → Statement
  purges : Time → Statement

-- Who is told to execute, if anybody, and the table.
abbrev pub if_affected : Call → Bool × List KeyRow → List Call × List KeyRow
if_affected c (true, rs) = (c ∷ [], rs)
if_affected c (false, rs) = ([], rs)

unfoldable pub apply : Statement → List KeyRow → List Call × List KeyRow
unfolding insert_key take_over complete purge
apply (inserts now c) rs = if_affected c (insert_key now c rs)
apply (takes_over now c) rs = if_affected c (take_over now c rs)
apply (completes c code body) rs = ([], complete c code body rs)
apply (purges now) rs = ([], purge now rs)

-- The statements are made by a given time; a completion has none.
abbrev pub IsBy : Time → Statement → Type 0
IsBy t (inserts now c) = now ≤ t
IsBy t (takes_over now c) = now ≤ t
IsBy t (completes c code body) = Unit
IsBy t (purges now) = now ≤ t

abbrev pub append_calls : List Call → List Call → List Call
append_calls [] ds = ds
append_calls (c ∷ cs) ds = c ∷ append_calls cs ds

unfoldable pub apply_all : List Statement → List KeyRow → List Call × List KeyRow
unfolding apply
apply_all [] rs = ([], rs)
apply_all (s ∷ ss) rs =
    let (granted, rs') = apply s rs in
    let (later, rs'') = apply_all ss rs' in (append_calls granted later, rs'')

All-append :
    (P : Call → Type 0) (cs ds : List Call) → All P cs → All P ds → All P (append_calls cs ds)
All-append P [] ds a b = b
All-append P (c ∷ cs) ds a b = (a.0, All-append P cs ds a.1 b)

-- Until `t` the row can neither be taken over nor be purged.
pub record IsHeld (t : Time) (r : KeyRow) : Type 0 where
  pub fresh : t ≤ r.created_at + key_ttl
  pub busy :
      (is_some r.response_code ≡ true)
      ⊎ ((l : Time) × (r.locked_at ≡ some l) × (t ≤ l + lock_lease))

module _ (t : Time) (c : Call) where
  abbrev pub Held : List KeyRow → Type 0
  Held rs = (r : KeyRow) × (find c rs ≡ some r) × IsHeld t r

  -- Not for the row's key.
  abbrev pub IsOther : KeyRow → Call → Type 0
  IsOther r d = is_key d r ≡ false

  not_reclaimable : (now : Time) (r : KeyRow) → now ≤ t → IsHeld t r → is_reclaimable now r ≡ false
  unfolding is_reclaimable
  not_reclaimable now r by held = elim held.busy [
    | inl closed ↦ rw closed refl
    | inr (l, at, far) ↦ ground (arith, at, far, by)
  ]

  -- A statement that tells nobody of the row's key to execute, and leaves the row findable.
  Spares : KeyRow → List Call × List KeyRow → Type 0
  Spares r x = All (IsOther r) x.0 × (find c x.1 ≡ some r)

  -- What a call of a statement with one affected row or none comes to.
  affected :
      (r : KeyRow) (d : Call) (x : Bool × List KeyRow)
      → (x.0 ≡ true → is_key d r ≡ false)
      → find c x.1 ≡ some r
      → Spares r (if_affected d x)
  unfolding Spares
  affected r d (true, rs) other found = ((other refl, tt), found)
  affected r d (false, rs) other found = (tt, found)

  same_row :
      (d : Call) (rs : List KeyRow) (r : KeyRow)
      → find c rs ≡ some r
      → is_key d r ≡ true
      → find d rs ≡ some r
  same_row d rs r found same = sym (find-agree c d r rs (find-is_key c rs r found) same) ∙ found

  not_expired : (now : Time) (r : KeyRow) → now ≤ t → IsHeld t r → is_expired now r ≡ false
  unfolding is_expired
  not_expired now r by held = ground (arith, held.fresh)

  All-same :
      (n r : KeyRow)
      → ((d : Call) → is_key d n ≡ is_key d r)
      → (cs : List Call) → All (IsOther n) cs
      → All (IsOther r) cs
  All-same n r same [] h = tt
  All-same n r same (d ∷ cs) h = (sym (same d) ∙ h.0, All-same n r same cs h.1)

  insert_skips_keeps :
      (now : Time) (d : Call) (rs : List KeyRow) (r : KeyRow)
      → find d rs ≡ some r
      → find c rs ≡ some r
      → find c (insert_key now d rs).1 ≡ some r
  unfolding insert_key
  insert_skips_keeps now d rs r e found = rw (e, insert_key) found

  insert_skips :
      (now : Time) (d : Call) (rs : List KeyRow) (r : KeyRow)
      → find d rs ≡ some r
      → (insert_key now d rs).0 ≡ false
  unfolding insert_key
  insert_skips now d rs r e = rw (e, insert_key) refl

  past_claim :
      (now : Time) (d : Call) (rs : List KeyRow) (r : KeyRow)
      → find c rs ≡ some r
      → is_key d r ≡ false
      → find c (claimed_row now d ∷ rs) ≡ some r
  unfolding find
  past_claim now d rs r found other = elim (Bool-cases (is_key c (claimed_row now d))) [
    | inr apart ↦ rw apart found
    | inl same ↦ absurd (
        ground (
          arith,
          is_key-agree c d (claimed_row now d) r same (claimed_row-is_key now d),
          find-is_key c rs r found,
          other,
        ))
  ]

  insert_keeps :
      (now : Time) (d : Call) (rs : List KeyRow) (r : KeyRow)
      → find c rs ≡ some r
      → is_key d r ≡ false
      → find c (insert_key now d rs).1 ≡ some r
  unfolding insert_key
  insert_keeps now d rs r found other = elim (Option-cases (find d rs)) [
    | inr (x, e) ↦ rw (e, insert_key) found
    | inl e ↦ rw (e, insert_key) (past_claim now d rs r found other)
  ]

  insert-Spares :
      (now : Time) (d : Call) (rs : List KeyRow) (r : KeyRow)
      → find c rs ≡ some r
      → Spares r (if_affected d (insert_key now d rs))
  insert-Spares now d rs r found = elim (Bool-cases (is_key d r)) [
    | inl same ↦
        let there : find d rs ≡ some r = same_row d rs r found same in
        affected r d _ (λ x. absurd (ground (arith, x, insert_skips now d rs r there)))
          (insert_skips_keeps now d rs r there found)
    | inr other ↦ affected r d _ (λ x. other) (insert_keeps now d rs r found other)
  ]

  take_over_skips :
      (now : Time) (d : Call) (rs : List KeyRow) (r : KeyRow)
      → find d rs ≡ some r
      → is_reclaimable now r ≡ false
      → take_over now d rs ≡ (false, rs)
  unfolding take_over
  take_over_skips now d rs r e busy = rw (e, take_over) (rw busy refl)

  take_over_keeps :
      (now : Time) (d : Call) (rs : List KeyRow) (r : KeyRow)
      → find c rs ≡ some r
      → is_key d r ≡ false
      → find c (take_over now d rs).1 ≡ some r
  unfolding take_over
  take_over_keeps now d rs r found other = elim (Option-cases (find d rs)) [
    | inl e ↦ rw (e, take_over) found
    | inr (x, e) ↦ elim (Bool-cases (is_reclaimable now x)) [
      | inr busy ↦ rw (e, take_over) (rw busy found)
      | inl free ↦
          rw (e, take_over)
            (rw free (elim (find-update (locked now) (locked-is_key now) c d rs r found) [
              | inl keeps ↦ keeps
              | inr (hit, _) ↦ absurd (ground (arith, hit, other))
            ]))
    ]
  ]

  take_over-Spares :
      (now : Time) (d : Call) (rs : List KeyRow) (r : KeyRow)
      → now ≤ t
      → find c rs ≡ some r
      → IsHeld t r
      → Spares r (if_affected d (take_over now d rs))
  unfolding Spares
  take_over-Spares now d rs r by found held = elim (Bool-cases (is_key d r)) [
    | inl same ↦
        rw
          (
            take_over_skips now d rs r (same_row d rs r found same) (not_reclaimable now r by held),
            Spares,
          )
          (tt, found)
    | inr other ↦ affected r d _ (λ x. other) (take_over_keeps now d rs r found other)
  ]

  -- One statement keeps the row held, and tells nobody else to execute.
  Step : List Call × List KeyRow → KeyRow → Type 0
  Step x r =
      All (IsOther r) x.0
      × ((n : KeyRow) × (find c x.1 ≡ some n) × IsHeld t n × ((d : Call) → is_key d n ≡ is_key d r))

  step :
      (s : Statement) (rs : List KeyRow) (r : KeyRow)
      → IsBy t s
      → find c rs ≡ some r
      → IsHeld t r
      → Step (apply s rs) r
  unfolding apply Step Spares complete
  step (inserts now d) rs r by found held =
      let (other, keeps) = insert-Spares now d rs r found in (other, (r, keeps, held, λ q. refl))
  step (takes_over now d) rs r by found held =
      let (other, keeps) = take_over-Spares now d rs r by found held in
      (other, (r, keeps, held, λ q. refl))
  step (completes d code body) rs r by found held = (
    tt,
    elim (find-update (completed code body) (completed-is_key code body) c d rs r found) [
      | inl keeps ↦ (r, keeps, held, λ q. refl)
      | inr (_, changed) ↦ (
        completed code body r,
        changed,
        record { fresh = held.fresh; busy = inl refl },
        λ q. completed-is_key code body q r,
      )
    ],
  )
  step (purges now) rs r by found held =
      (tt, (r, find-purge now c rs r found (not_expired now r by held), held, λ q. refl))

  -- A claim that is held until `t` excludes every other one until then: of all statements that any
  -- requests make by `t`, none tells a request with the key of the held row to execute.
  pub claim_excludes :
      (ss : List Statement) (rs : List KeyRow) (r : KeyRow)
      → All (IsBy t) ss
      → find c rs ≡ some r
      → IsHeld t r
      → All (IsOther r) (apply_all ss rs).0
  unfolding apply_all Step
  claim_excludes [] rs r by found held = tt
  claim_excludes (s ∷ ss) rs r by found held =
      let (other, (n, at, held', same)) = step s rs r by.0 found held in
      All-append (IsOther r) (apply s rs).0 (apply_all ss (apply s rs).1).0 other
        (All-same n r same _ (claim_excludes ss (apply s rs).1 n by.1 at held'))
