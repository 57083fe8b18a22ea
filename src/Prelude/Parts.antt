-- ===== src/Prelude/Parts.antt =====
-- `Subseq xs ys`: `xs` is `ys` with some elements left out, the order kept.
use mathlib.Core.List.{List, [], ◌∷◌, ◌++◌}

pub data Subseq {ℓ} {A : Type ℓ} : List A → List A → Type ℓ where
  nil : Subseq [] []
  skip : (y : A) {xs ys : List A} → Subseq xs ys → Subseq xs (y ∷ ys)
  both : (y : A) {xs ys : List A} → Subseq xs ys → Subseq (y ∷ xs) (y ∷ ys)

module _ {ℓ} {A : Type ℓ} where
  pub Subseq-nil : (ys : List A) → Subseq [] ys
  Subseq-nil [] = nil
  Subseq-nil (y ∷ ys) = skip y (Subseq-nil ys)

  pub Subseq-refl : (ys : List A) → Subseq ys ys
  Subseq-refl [] = nil
  Subseq-refl (y ∷ ys) = both y (Subseq-refl ys)

  -- A longer history keeps what was a part of it.
  pub Subseq-append : {xs ys : List A} → Subseq xs ys → (zs : List A) → Subseq xs (ys ++ zs)
  Subseq-append nil zs = Subseq-nil zs
  Subseq-append (skip y s) zs = skip y (Subseq-append s zs)
  Subseq-append (both y s) zs = both y (Subseq-append s zs)

  pub Subseq-concat :
      {xs ys : List A} → Subseq xs ys → (z : A) → Subseq (xs ++ z ∷ []) (ys ++ z ∷ [])
  Subseq-concat nil z = both z nil
  Subseq-concat (skip y s) z = skip y (Subseq-concat s z)
  Subseq-concat (both y s) z = both y (Subseq-concat s z)

  pub Subseq-trans : {ys zs : List A} → Subseq ys zs → {xs : List A} → Subseq xs ys → Subseq xs zs
  Subseq-trans nil s = s
  Subseq-trans (skip y t) s = skip y (Subseq-trans t s)
  Subseq-trans (both _ t) (skip y s) = skip y (Subseq-trans t s)
  Subseq-trans (both _ t) (both y s) = both y (Subseq-trans t s)

  pub Subseq-append_left : (xs ys : List A) → Subseq xs (xs ++ ys)
  Subseq-append_left xs ys = Subseq-append (Subseq-refl xs) ys

-- `ys` holds the elements of `xs` in some order.
pub data Permutes {ℓ} {A : Type ℓ} : List A → List A → Type ℓ where
  none_left : Permutes [] []
  keep_first : (x : A) {xs ys : List A} → Permutes xs ys → Permutes (x ∷ xs) (x ∷ ys)
  swap_two : (x y : A) (xs : List A) → Permutes (x ∷ y ∷ xs) (y ∷ x ∷ xs)
  in_turn : {xs ys zs : List A} → Permutes xs ys → Permutes ys zs → Permutes xs zs
