-- ===== src/Platform/Lists.antt =====
-- `splitCSV` of cmd/server/main.go, against `strings.Split` without its empty fields.
use peikonpurekkusu_payment.Prelude.{
  ℕ, ◌≡◌, refl, sym, ◌∙◌, ap, List, [], ◌∷◌, if◌then◌else◌, ◌==◌, ◌++◌, inl, inr, Bool-cases,
}
use mathlib.Core.List.{append_assoc, append-nil}
use peikonpurekkusu_payment.Prelude.Fields.{is_empty, split, cons_head}

-- The loop of `splitCSV`, with the field from `start` to `i`.
unfoldable pub flush : List ℕ → List (List ℕ) → List (List ℕ)
flush field rest = if is_empty field then rest else field ∷ rest

unfoldable pub split_from : List ℕ → List ℕ → List (List ℕ)
unfolding flush
split_from field [] = flush field []
split_from field (c ∷ cs) =
    let after = split_from [] cs in
    let longer = split_from (field ++ c ∷ []) cs in if c == 44 then flush field after else longer

unfoldable pub split_csv : List ℕ → List (List ℕ)
unfolding split_from
split_csv s = split_from [] s

unfoldable pub non_empty : List (List ℕ) → List (List ℕ)
unfolding flush
non_empty [] = []
non_empty (w ∷ ws) = flush w (non_empty ws)

-- The first field, longer by what came before it.
prepend : List ℕ → List (List ℕ) → List (List ℕ)
prepend field [] = field ∷ []
prepend field (w ∷ ws) = (field ++ w) ∷ ws

prepend-cons_head :
    (field : List ℕ) (c : ℕ) (ws : List (List ℕ))
    → prepend field (cons_head c ws) ≡ prepend (field ++ c ∷ []) ws
unfolding prepend cons_head
prepend-cons_head field c [] = refl
prepend-cons_head field c (w ∷ ws) = ap (λ x. x ∷ ws) (sym (append_assoc field (c ∷ []) w))

prepend_same : (c : ℕ) (ws : List (List ℕ)) → prepend [] (cons_head c ws) ≡ cons_head c ws
unfolding prepend cons_head
prepend_same c [] = refl
prepend_same c (w ∷ ws) = refl

prepend-nil : (cs : List ℕ) → prepend [] (split 44 cs) ≡ split 44 cs
unfolding prepend split cons_head
prepend-nil [] = refl
prepend-nil (c ∷ cs) = elim (Bool-cases (c == 44)) [
  | inl comma ↦ rw comma refl
  | inr other ↦ rw other (prepend_same c (split 44 cs))
]

split_from-prepend :
    (field cs : List ℕ) → split_from field cs ≡ non_empty (prepend field (split 44 cs))
unfolding split_from non_empty split prepend
split_from-prepend field [] = ap (λ x. flush x []) (sym (append-nil field))
split_from-prepend field (c ∷ cs) = elim (Bool-cases (c == 44)) [
  | inl comma ↦ rw comma (
      ap (flush field) (split_from-prepend [] cs ∙ ap non_empty (prepend-nil cs))
      ∙ ap (λ x. flush x (non_empty (split 44 cs))) (sym (append-nil field)))
  | inr other ↦ rw other (
      split_from-prepend (field ++ c ∷ []) cs
      ∙ ap non_empty (sym (prepend-cons_head field c (split 44 cs))))
]

-- The list of a comma-separated text is its fields without the empty ones.
pub split_csv-split : (s : List ℕ) → split_csv s ≡ non_empty (split 44 s)
unfolding split_csv
split_csv-split s = split_from-prepend [] s ∙ ap non_empty (prepend-nil s)
