-- ===== src/Session.antt =====
-- One database transaction (app/deps/db.py): a computation over the rows that either returns with
-- the new rows or raises. `get_committed_db` rolls back on an exception, so a raise keeps no rows.
use floww_backend.Prelude.{
  ℕ, ◌≡◌, refl, arith, Option, none, some, Bool, true, false, List, [], ◌∷◌, String,
}

-- The exceptions that the modelled code raises or meets.
pub data Error : Type 0 where
  multiple_results_found no_result_found integrity_error operational_error : Error
  value_error runtime_error : String → Error
  http_exception : ℕ → String → Error

pub data Result {ℓ} (A : Type ℓ) : Type ℓ where
  ok : A → Result A
  err : Error → Result A

abbrev pub Session : Type 0 → Type 0 → Type 0
Session S A = S → Result (A × S)

module _ {S A : Type 0} where
  abbrev pub pure : A → Session S A
  pure a s = ok (a, s)

  abbrev pub raise : Error → Session S A
  raise e s = err e

  abbrev pub gets : (S → A) → Session S A
  gets f s = ok (f s, s)

  abbrev pub lift : Result A → Session S A
  lift (ok a) s = ok (a, s)
  lift (err e) s = err e

abbrev pub modify : {S : Type 0} → (S → S) → Session S (Unit {0})
modify f s = ok (tt, f s)

infixl 5 ◌>>=◌ ◌>>◌
abbrev pub ◌>>=◌ : {S A B : Type 0} → Session S A → (A → Session S B) → Session S B
◌>>=◌ m f s = elim (m s) [ ok (a, s') ↦ f a s' | err e ↦ err e ]

abbrev pub ◌>>◌ : {S A B : Type 0} → Session S A → Session S B → Session S B
m >> k = m >>= λ _. k

-- `if condition: raise error`
abbrev pub raise_if : {S : Type 0} → Bool → Error → Session S (Unit {0})
raise_if b e s = elim b [ true ↦ err e | false ↦ ok (tt, s) ]

-- `Result.scalar_one_or_none`, which refuses a second row.
unfoldable pub scalar_one_or_none : {A : Type 0} → List A → Result (Option A)
scalar_one_or_none [] = ok none
scalar_one_or_none (x ∷ []) = ok (some x)
scalar_one_or_none (x ∷ y ∷ xs) = err multiple_results_found

-- `Result.scalar_one`, which refuses no row too.
unfoldable pub scalar_one : {A : Type 0} → List A → Result A
scalar_one [] = err no_result_found
scalar_one (x ∷ []) = ok x
scalar_one (x ∷ y ∷ xs) = err multiple_results_found

pub ok-eq :
    {A S : Type 0} (a b : A) (s t : S)
    → ◌≡◌ {A = Result (A × S)} (ok (a, s)) (ok (b, t))
    → (a ≡ b) × (s ≡ t)
ok-eq a b s t h = ground arith

-- Inversion of a bind that returned.
pub >>=-eq-ok :
    {S A B : Type 0} (m : Session S A) (f : A → Session S B) (s : S) {r : B × S}
    → (m >>= f) s ≡ ok r
    → (a : A) × (s' : S) × (m s ≡ ok (a, s')) × (f a s' ≡ ok r)
>>=-eq-ok {S} {A} {B} m f s {r} h = go (m s) refl h
  where
    go :
        (x : Result (A × S))
        → m s ≡ x
        → (elim x [ ok (a, s') ↦ f a s' | err e ↦ err e ]) ≡ ok r
        → (a : A) × (s' : S) × (m s ≡ ok (a, s')) × (f a s' ≡ ok r)
    go (ok (a, s')) e k = (a, s', e, k)
    go (err e) _ k = absurd (ground arith)
