-- ===== src/Payment/Keys.antt =====
-- The primary key of `payments`: no two rows have one id.
use peikonpurekkusu_payment.Prelude.{
  ℕ, zero, suc, ◌≡◌, ◌≢◌, refl, List, [], ◌∷◌, map, Bool, some, arith, take, All, Bool-cases, inl,
  inr, true,
}
use peikonpurekkusu_payment.Payment.{Row, Uuid}
use peikonpurekkusu_payment.Payment.Table.{lookup, put}
use peikonpurekkusu_payment.Saga.Sweep.{select_ids}

abbrev pub Distinct : List ℕ → Type 0
Distinct [] = Unit
Distinct (x ∷ xs) = All (λ y. y ≢ x) xs × Distinct xs

abbrev pub row_id : Row → Uuid
row_id r = r.id

-- No update of a row changes the list of keys.
pub map-put : (n : Row) (rs : List Row) → map row_id (put n rs) ≡ map row_id rs
unfolding put
map-put n [] = refl
map-put n (r ∷ rs) = ground (arith, map-put n rs)

pub map-map_id :
    (f : Row → Row)
    → ((r : Row) → (f r).id ≡ r.id)
    → (rs : List Row) → map row_id (map f rs) ≡ map row_id rs
map-map_id f keeps [] = refl
map-map_id f keeps (r ∷ rs) = cc (keeps r, map-map_id f keeps rs)

pub All-take {ℓ} : (P : ℕ → Type ℓ) (n : ℕ) (xs : List ℕ) → All P xs → All P (take n xs)
All-take P zero xs h = tt
All-take P (suc n) [] h = tt
All-take P (suc n) (x ∷ xs) h = (h.0, All-take P n xs h.1)

pub take-Distinct : (n : ℕ) (xs : List ℕ) → Distinct xs → Distinct (take n xs)
take-Distinct zero xs d = tt
take-Distinct (suc n) [] d = tt
take-Distinct (suc n) (x ∷ xs) d = (All-take (λ y. y ≢ x) n xs d.0, take-Distinct n xs d.1)

module _ (test : Row → Bool) where
  select_ids-All :
      (P : ℕ → Type 0) (rs : List Row) → All P (map row_id rs) → All P (select_ids test rs)
  unfolding select_ids
  select_ids-All P [] h = tt
  select_ids-All P (r ∷ rs) h = elim (Bool-cases (test r)) [
    | inl hit ↦ rw hit (h.0, select_ids-All P rs h.1)
    | inr miss ↦ rw miss (select_ids-All P rs h.1)
  ]

  pub select_ids-Distinct :
      (rs : List Row) → Distinct (map row_id rs) → Distinct (select_ids test rs)
  unfolding select_ids
  select_ids-Distinct [] d = tt
  select_ids-Distinct (r ∷ rs) d = elim (Bool-cases (test r)) [
    | inl hit ↦ rw hit (select_ids-All (λ y. y ≢ r.id) rs d.0, select_ids-Distinct rs d.1)
    | inr miss ↦ rw miss (select_ids-Distinct rs d.1)
  ]

  -- What a scan selects stands under its key, and passes the test.
  abbrev pub IsHit : List Row → Uuid → Type 0
  IsHit all k = (r : Row) × (lookup k all ≡ some r) × (test r ≡ true)

  IsHit-cons :
      (x : Row) (rs : List Row) (ks : List ℕ)
      → All (λ y. y ≢ x.id) ks
      → All (IsHit rs) ks
      → All (IsHit (x ∷ rs)) ks
  unfolding lookup
  IsHit-cons x rs [] fresh h = tt
  IsHit-cons x rs (k ∷ ks) fresh h =
      let (r, found, hit) = h.0 in
      ((r, ground (arith, fresh.0), hit), IsHit-cons x rs ks fresh.1 h.1)

  pub select_ids-IsHit :
      (rs : List Row) → Distinct (map row_id rs) → All (IsHit rs) (select_ids test rs)
  unfolding select_ids lookup
  select_ids-IsHit [] d = tt
  select_ids-IsHit (r ∷ rs) d =
      let later : All (IsHit (r ∷ rs)) (select_ids test rs) =
        IsHit-cons r rs (select_ids test rs) (select_ids-All (λ y. y ≢ r.id) rs d.0)
          (select_ids-IsHit rs d.1) in
      elim (Bool-cases (test r)) [
        | inl hit ↦ rw hit ((r, ground arith, hit), later)
        | inr miss ↦ rw miss later
      ]
