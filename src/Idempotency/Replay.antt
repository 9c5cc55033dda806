-- ===== src/Idempotency/Replay.antt =====
-- What `Begin` of internal/idempotency/idempotency.go answers: when it lets a request execute, and
-- that a completed request is answered by what was stored.
use text.Mathlib.Text.{◌==◌ as str_eq}
use peikonpurekkusu_payment.Prelude.{
  ℕ, ◌≡◌, ◌⊎◌, inl, inr, refl, true, false, String, List, Option, none, some, arith, Bool-cases,
  Option-cases, if◌then◌else◌, ap, sym, ◌∙◌,
}
use peikonpurekkusu_payment.Payment.{Time}
use peikonpurekkusu_payment.Idempotency.{
  KeyRow, Call, Begun, executes, replays, refused, payload_mismatch, is_key, find, insert_key,
  is_reclaimable, locked, take_over, completed, complete, claimed_row, Db, after_take_over,
  after_code, after_select, after_insert, begin,
}
use peikonpurekkusu_payment.Idempotency.Rows.{
  find-is_key, find-agree, find-update_own, claimed_row-is_key, locked-is_key, completed-is_key,
}

module _ (db : Db) (c d : Call) (code : ℕ) (body : String) (rs : List KeyRow) (r : KeyRow) where
  stored : find c rs ≡ some r → find c (complete c code body rs) ≡ some (completed code body r)
  unfolding complete
  stored found = find-update_own (completed code body) (completed-is_key code body) c rs r found

  insert_skips :
      (now : Time) (e : Call) (t : List KeyRow) (x : KeyRow)
      → find e t ≡ some x
      → insert_key now e t ≡ (false, t)
  unfolding insert_key
  insert_skips now e t x found = rw (found, insert_key) refl

  selected :
      (t : List KeyRow) (x : KeyRow)
      → db.ok 1 ≡ true
      → db.meanwhile 1 t ≡ t
      → find d t ≡ some x
      → after_insert db d (false, t) ≡ after_select db d (some x) t
  unfolding after_insert
  selected t x still quiet found = rw still (rw quiet (rw found refl))

  answered :
      (x : KeyRow) (t : List KeyRow)
      → after_select db d (some (completed code body x)) t ≡ (
        if str_eq x.request_hash d.request_hash
            then replays code (some body)
            else refused payload_mismatch,
        t,
      )
  unfolding after_select
  answered x t = elim (Bool-cases (str_eq x.request_hash d.request_hash)) [
    | inl same ↦ rw same refl
    | inr other ↦ rw other refl
  ]

  -- Once a request is completed, a request with its key is answered by the stored response if its
  -- payload has the same hash, and refused for a mismatch if not, and changes nothing, as long as
  -- the database answers and others leave the row in place between its statements.
  pub begin-complete :
      find c rs ≡ some r
      → is_key d r ≡ true
      → db.ok 0 ≡ true
      → db.ok 1 ≡ true
      → db.meanwhile 1 (complete c code body rs) ≡ complete c code body rs
      → begin db d (complete c code body rs) ≡ (
        if str_eq r.request_hash d.request_hash
            then replays code (some body)
            else refused payload_mismatch,
        complete c code body rs,
      )
  unfolding begin insert_key
  begin-complete found same up still quiet =
      let own : find d (complete c code body rs) ≡ some (completed code body r) =
        sym (
          find-agree c d (completed code body r) (complete c code body rs)
            (completed-is_key code body c r ∙ find-is_key c rs r found)
            (completed-is_key code body d r ∙ same))
        ∙ stored found in
      rw (up, begin)
        (ap (after_insert db d) (insert_skips (db.clock 0) d _ _ own)
          ∙ selected _ _ still quiet own
          ∙ answered r _)

module _ (db : Db) (c : Call) (rs : List KeyRow) where
  -- The table when the lease is taken over.
  abbrev pub later : List KeyRow
  later = db.meanwhile 2 (db.meanwhile 1 rs)

  -- The lease of an unfinished row has been taken over.
  abbrev pub TookOver : Begun × List KeyRow → Type 0
  TookOver out =
      (r : KeyRow) × (find c later ≡ some r)
      × (is_reclaimable (db.clock 2) r ≡ true)
      × (find c out.1 ≡ some (locked (db.clock 2) r))

  took_over :
      (after_take_over db c (take_over (db.clock 2) c later)).0 ≡ executes
      → TookOver (after_take_over db c (take_over (db.clock 2) c later))
  unfolding after_take_over take_over
  took_over h = elim (Option-cases (find c later)) [
    | inl e ↦ absurd (ground (arith, e, h))
    | inr (r, e) ↦ elim (Bool-cases (is_reclaimable (db.clock 2) r)) [
      | inr busy ↦ absurd (ground (arith, e, busy, h))
      | inl free ↦ (
        r,
        e,
        free,
        rw (e, take_over)
            (rw free
              (find-update_own (locked (db.clock 2)) (locked-is_key (db.clock 2)) c later r e)),
      )
    ]
  ]

  by_code :
      (o : Option ℕ) (body : Option String)
      → (after_code db c o body (db.meanwhile 1 rs)).0 ≡ executes
      → TookOver (after_code db c o body (db.meanwhile 1 rs))
  unfolding after_code
  by_code (some code) body h = absurd (cc)
  by_code none body h = elim (Bool-cases (db.ok 2)) [
    | inl up ↦ rw up (took_over (rw up at h))
    | inr down ↦ absurd (ground (arith, down, h))
  ]

  by_select :
      (o : Option KeyRow)
      → (after_select db c o (db.meanwhile 1 rs)).0 ≡ executes
      → TookOver (after_select db c o (db.meanwhile 1 rs))
  unfolding after_select
  by_select none h = absurd (cc)
  by_select (some r) h = elim (Bool-cases (str_eq r.request_hash c.request_hash)) [
    | inl same ↦ rw same (by_code r.response_code r.response_body (rw same at h))
    | inr other ↦ absurd (ground (arith, other, h))
  ]

  by_second :
      (after_insert db c (false, rs)).0 ≡ executes → TookOver (after_insert db c (false, rs))
  unfolding after_insert
  by_second h = elim (Bool-cases (db.ok 1)) [
    | inl up ↦ rw up (by_select (find c (db.meanwhile 1 rs)) (rw up at h))
    | inr down ↦ absurd (ground (arith, down, h))
  ]

  Executes : Begun × List KeyRow → Type 0
  Executes out =
      ((find c rs ≡ none) × (find c out.1 ≡ some (claimed_row (db.clock 0) c))) ⊎ TookOver out

  by_insert :
      (after_insert db c (insert_key (db.clock 0) c rs)).0 ≡ executes
      → Executes (after_insert db c (insert_key (db.clock 0) c rs))
  unfolding insert_key after_insert find Executes
  by_insert h = elim (Option-cases (find c rs)) [
    | inl e ↦ rw (e, insert_key) (inl (refl, rw (claimed_row-is_key (db.clock 0) c) refl))
    | inr (x, e) ↦ rw (e, insert_key) (inr (by_second (rw (e, insert_key) at h)))
  ]

  -- A request is let execute only with a claim of its own in the table, made where no row stood
  -- under its key, or in place of one that was not completed and whose lease had run out.
  pub begin_executes :
      (begin db c rs).0 ≡ executes
      → ((find c rs ≡ none) × (find c (begin db c rs).1 ≡ some (claimed_row (db.clock 0) c)))
        ⊎ ((r : KeyRow) × (find c later ≡ some r)
            × (is_reclaimable (db.clock 2) r ≡ true)
            × (find c (begin db c rs).1 ≡ some (locked (db.clock 2) r)))
  unfolding begin Executes
  begin_executes h = elim (Bool-cases (db.ok 0)) [
    | inl up ↦ rw up (by_insert (rw up at h))
    | inr down ↦ absurd (ground (arith, down, h))
  ]
