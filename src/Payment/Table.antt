-- ===== src/Payment/Table.antt =====
-- The tables as lists of rows, read and written by primary key.
use peikonpurekkusu_payment.Prelude.{
  ◌≡◌, refl, ◌⊎◌, inl, inr, map, Bool-cases, List, [], ◌∷◌, Option, none, some, arith, ◌==◌,
  if◌then◌else◌,
}
use mathlib.Core.Path.{subst, sym}
use peikonpurekkusu_payment.Payment.{Row, Instrument, FxQuote, Uuid}

-- `select … where id = $1`
unfoldable pub lookup : Uuid → List Row → Option Row
lookup k [] = none
lookup k (r ∷ rs) = if r.id == k then some r else lookup k rs

-- `update … where id = $1`: the new row takes the place of the row with its key.
unfoldable pub put : Row → List Row → List Row
put n [] = []
put n (r ∷ rs) = if r.id == n.id then n ∷ rs else r ∷ put n rs

unfoldable pub lookup_instrument : Uuid → List Instrument → Option Instrument
lookup_instrument k [] = none
lookup_instrument k (i ∷ is) = if i.id == k then some i else lookup_instrument k is

unfoldable pub lookup_quote : Uuid → List FxQuote → Option FxQuote
lookup_quote k [] = none
lookup_quote k (q ∷ qs) = if q.id == k then some q else lookup_quote k qs

-- The row that is found has the key that was asked for.
pub lookup_id : (k : Uuid) (rs : List Row) (r : Row) → lookup k rs ≡ some r → r.id ≡ k
unfolding lookup
lookup_id k [] r h = absurd (cc)
lookup_id k (x ∷ rs) r h = ground (arith, lookup_id k rs r)

pub lookup_own :
    (k : Uuid) (rs : List Row) (r : Row) → lookup k rs ≡ some r → lookup r.id rs ≡ some r
lookup_own k rs r h = subst (λ j. lookup j rs ≡ some r) (sym (lookup_id k rs r h)) h

-- An update is seen under its key, if a row stood there, and nowhere else.
pub lookup-put :
    (k : Uuid) (n : Row) (rs : List Row)
    → lookup k (put n rs)
      ≡ (if n.id == k then (elim (lookup k rs) [ none ↦ none | some _ ↦ some n ]) else lookup k rs)
unfolding lookup put
lookup-put k n [] = ground arith
lookup-put k n (r ∷ rs) = ground (arith, lookup-put k n rs)

pub lookup-put_self :
    (n : Row) (rs : List Row) {r : Row} → lookup n.id rs ≡ some r → lookup n.id (put n rs) ≡ some n
lookup-put_self n rs h = ground (arith, lookup-put n.id n rs)

-- Whatever stands under a key after an update is the new row, or stood there before.
pub lookup-put_cases :
    (k : Uuid) (n : Row) (rs : List Row) (r : Row)
    → lookup k (put n rs) ≡ some r
    → ((k ≡ n.id) × (r ≡ n)) ⊎ (lookup k rs ≡ some r)
unfolding lookup put
lookup-put_cases k n [] r h = absurd (cc)
lookup-put_cases k n (x ∷ rs) r h = ground (arith, lookup-put_cases k n rs r)

pub lookup-map :
    (f : Row → Row)
    → ((r : Row) → (f r).id ≡ r.id)
    → (k : Uuid) (rs : List Row) (n : Row) → lookup k (map f rs) ≡ some n
    → (r : Row) × (lookup k rs ≡ some r) × (n ≡ f r)
unfolding lookup
lookup-map f keeps k [] n h = absurd (cc)
lookup-map f keeps k (x ∷ rs) n h = elim (Bool-cases (x.id == k)) [
  | inl same ↦ (x, ground arith, ground (arith, keeps x))
  | inr other ↦
      let (r, e, m) = lookup-map f keeps k rs n (ground (arith, keeps x)) in (r, ground arith, m)
]

pub put-put : (n m : Row) (rs : List Row) → n.id ≡ m.id → put n (put m rs) ≡ put n rs
unfolding put
put-put n m [] e = refl
put-put n m (x ∷ rs) e = ground (arith, put-put n m rs e)

pub lookup-map_found :
    (f : Row → Row)
    → ((r : Row) → (f r).id ≡ r.id)
    → (k : Uuid) (rs : List Row) (r : Row) → lookup k rs ≡ some r
    → lookup k (map f rs) ≡ some (f r)
unfolding lookup
lookup-map_found f keeps k [] r h = absurd (cc)
lookup-map_found f keeps k (x ∷ rs) r h = ground (arith, keeps x, lookup-map_found f keeps k rs r)
