-- ===== src/Prelude/Elements.antt =====
-- Predicates of every element of a list.
use mathlib.Core.List.{Memᴰ}
use mathlib.Core.Path.{subst}
use peikonpurekkusu_payment.Prelude.{List, [], ◌∷◌, ◌++◌, ◌⊎◌, inl, inr, All, refl, sym}

module _ {ℓ} {A : Type 0} where
  pub All-member : (P : A → Type ℓ) (x : A) (xs : List A) → All P xs → Memᴰ x xs → P x
  All-member P x [] h m = elim m [ ]
  All-member P x (y ∷ ys) h (Memᴰ.head e) = subst P (sym e) h.0
  All-member P x (y ∷ ys) h (Memᴰ.tail m) = All-member P x ys h.1 m

  pub member-All : (P : A → Type ℓ) (xs : List A) → ((x : A) → Memᴰ x xs → P x) → All P xs
  member-All P [] h = tt
  member-All P (x ∷ xs) h = (h x (Memᴰ.head refl), member-All P xs (λ y m. h y (Memᴰ.tail m)))

  pub All-weaken : (P Q : A → Type ℓ) (xs : List A) → ((x : A) → P x → Q x) → All P xs → All Q xs
  All-weaken P Q [] f h = tt
  All-weaken P Q (x ∷ xs) f h = (f x h.0, All-weaken P Q xs f h.1)

pub member-append_left : {A : Type 0} (x : A) (xs ys : List A) → Memᴰ x xs → Memᴰ x (xs ++ ys)
member-append_left x [] ys m = elim m [ ]
member-append_left x (y ∷ xs) ys (Memᴰ.head e) = Memᴰ.head e
member-append_left x (y ∷ xs) ys (Memᴰ.tail m) = Memᴰ.tail (member-append_left x xs ys m)

pub member-append_right : {A : Type 0} (x : A) (xs ys : List A) → Memᴰ x ys → Memᴰ x (xs ++ ys)
member-append_right x [] ys m = m
member-append_right x (y ∷ xs) ys m = Memᴰ.tail (member-append_right x xs ys m)

pub member-append_cases :
    {A : Type 0} (x : A) (xs ys : List A) → Memᴰ x (xs ++ ys) → Memᴰ x xs ⊎ Memᴰ x ys
member-append_cases x [] ys m = inr m
member-append_cases x (y ∷ xs) ys (Memᴰ.head e) = inl (Memᴰ.head e)
member-append_cases x (y ∷ xs) ys (Memᴰ.tail m) = elim (member-append_cases x xs ys m) [
  | inl left ↦ inl (Memᴰ.tail left)
  | inr right ↦ inr right
]
