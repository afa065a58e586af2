-- ===== src/Prelude/Search.antt =====
-- What `find`, `any` and `every` say of one another.
use mathlib.Core.Path.{◌≡◌, refl}
use mathlib.Core.Bool.{Bool, true, false, not, ◌&&◌}
use mathlib.Core.List.{List, [], ◌∷◌, ◌++◌}
use mathlib.Core.Option.{none, some}
use native.Mathlib.Omega.{arith}
use iot_miniservers.Prelude.Lists.{any, every, find}

module _ {ℓ} {A : Type ℓ} (p : A → Bool) where
  pub any-find-none : (xs : List A) → find p xs ≡ none → any p xs ≡ false
  any-find-none [] h = refl
  any-find-none (x ∷ xs) h = ground (arith, any-find-none xs)

  pub any-find-some : (xs : List A) (a : A) → find p xs ≡ some a → any p xs ≡ true
  any-find-some [] a h = ground arith
  any-find-some (x ∷ xs) a h = ground (arith, any-find-some xs a)

  pub find_passes : (xs : List A) (a : A) → find p xs ≡ some a → p a ≡ true
  find_passes [] a h = ground arith
  find_passes (x ∷ xs) a h = ground (arith, find_passes xs a)

  pub any-not : (xs : List A) → any (λ x. not (p x)) xs ≡ not (every p xs)
  any-not [] = refl
  any-not (x ∷ xs) = ground (arith, any-not xs)

  -- Whatever another search finds fails a test that no element passes.
  pub find_fails :
      (q : A → Bool) (xs : List A) (a : A) → any p xs ≡ false → find q xs ≡ some a → p a ≡ false
  find_fails q [] a h k = ground arith
  find_fails q (x ∷ xs) a h k = ground (arith, find_fails q xs a)

  -- An element that passes one of two exclusive tests is enough to refute the other for all.
  pub every-append : (xs ys : List A) → every p (xs ++ ys) ≡ (every p xs && every p ys)
  every-append [] ys = refl
  every-append (x ∷ xs) ys = ground (arith, every-append xs ys)

  pub every-any_excl :
      (q : A → Bool) (excl : (a : A) → p a ≡ true → q a ≡ false) (xs : List A)
      → any p xs ≡ true
      → every q xs ≡ false
  every-any_excl q excl [] h = ground arith
  every-any_excl q excl (x ∷ xs) h = ground (arith, excl x, every-any_excl q excl xs)
