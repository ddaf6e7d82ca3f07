-- ===== src/Prelude/Lists.antt =====
-- Lists: lengths over the native numbers, Boolean quantifiers and selection.
use Prim.Native.Nat.{ℕ, suc, ◌+◌}
use mathlib.Core.Path.{◌≡◌, refl, sym, ◌∙◌}
use mathlib.Core.Bool.{Bool, true, false, ◌&&◌, ◌||◌}
use mathlib.Core.Option.{Option, none, some}
use mathlib.Core.List.{List, [], ◌∷◌, ◌++◌}
use native.Mathlib.Omega.{arith}
use floww_backend.Prelude.Tests.{is_some, if◌then◌else◌}

module _ {ℓ} {A : Type ℓ} where
  abbrev pub length : List A → ℕ
  length [] = 0
  length (x ∷ xs) = suc (length xs)

  abbrev pub all : (A → Bool) → List A → Bool
  all p [] = true
  all p (x ∷ xs) = p x && all p xs

  abbrev pub any : (A → Bool) → List A → Bool
  any p [] = false
  any p (x ∷ xs) = p x || any p xs

  -- The rows that pass a test, in order.
  abbrev pub select : (A → Bool) → List A → List A
  select p [] = []
  select p (x ∷ xs) = let rest = select p xs in if p x then x ∷ rest else rest

  -- The first row that passes a test.
  abbrev pub find : (A → Bool) → List A → Option A
  find p [] = none
  find p (x ∷ xs) = let rest = find p xs in if p x then some x else rest

  pub all-append : (p : A → Bool) (xs ys : List A) → all p (xs ++ ys) ≡ (all p xs && all p ys)
  all-append p [] ys = refl
  all-append p (x ∷ xs) ys = ground (arith, all-append p xs ys)

  pub all_mono :
      (p q : A → Bool) (xs : List A)
      → ((x : A) → p x ≡ true → q x ≡ true)
      → all p xs ≡ true
      → all q xs ≡ true
  all_mono p q [] h a = refl
  all_mono p q (x ∷ xs) h a = ground (arith, h x, all_mono p q xs h)

  pub any-append : (p : A → Bool) (xs ys : List A) → any p (xs ++ ys) ≡ (any p xs || any p ys)
  any-append p [] ys = refl
  any-append p (x ∷ xs) ys = ground (arith, any-append p xs ys)

  pub length-append : (xs ys : List A) → length (xs ++ ys) ≡ length xs + length ys
  length-append [] ys = omega arith
  length-append (x ∷ xs) ys = omega (arith, length-append xs ys)

  -- A row that `find` returns passes the test.
  pub find_sound : (p : A → Bool) (xs : List A) (a : A) → find p xs ≡ some a → p a ≡ true
  find_sound p [] a h = ground arith
  find_sound p (x ∷ xs) a h = ground (arith, find_sound p xs a)

  -- What holds of every row holds of the row that is found.
  pub find-all :
      (p q : A → Bool) (xs : List A) (a : A) → all q xs ≡ true → find p xs ≡ some a → q a ≡ true
  find-all p q [] a h e = ground arith
  find-all p q (x ∷ xs) a h e = ground (arith, find-all p q xs a)

  pub is_some-find : (p : A → Bool) (xs : List A) → is_some (find p xs) ≡ any p xs
  is_some-find p [] = refl
  is_some-find p (x ∷ xs) = ground (arith, is_some-find p xs)

  pub select_ext :
      (p q : A → Bool) (xs : List A) → ((a : A) → p a ≡ q a) → select p xs ≡ select q xs
  select_ext p q [] h = refl
  select_ext p q (x ∷ xs) h = ground (arith, h x, select_ext p q xs h)

  pub select-select :
      (p q : A → Bool) (xs : List A) → select p (select q xs) ≡ select (λ a. q a && p a) xs
  select-select p q [] = refl
  select-select p q (x ∷ xs) = ground (arith, select-select p q xs)

  pub all-either :
      (p q r : A → Bool) (xs : List A)
      → (all r (select p xs) && all r (select q xs))
        ≡ all (λ a. if p a || q a then r a else true) xs
  all-either p q r [] = refl
  all-either p q r (x ∷ xs) = ground (arith, all-either p q r xs)

  pub any-either :
      (p q r : A → Bool) (xs : List A)
      → (any r (select p xs) || any r (select q xs)) ≡ any (λ a. (p a || q a) && r a) xs
  any-either p q r [] = refl
  any-either p q r (x ∷ xs) = ground (arith, any-either p q r xs)

  pub any-select : (p r : A → Bool) (xs : List A) → any r (select p xs) ≡ any (λ a. p a && r a) xs
  any-select p r [] = refl
  any-select p r (x ∷ xs) = ground (arith, any-select p r xs)

  -- Rows picked by one test and then by another are, as far as `any` tells, those of either test.
  pub any-select_either :
      (p q r : A → Bool) (xs : List A)
      → any r (select p xs ++ select q xs) ≡ any r (select (λ a. p a || q a) xs)
  any-select_either p q r xs =
      any-append r (select p xs) (select q xs)
      ∙ any-either p q r xs
      ∙ sym (any-select (λ a. p a || q a) r xs)
