-- ===== src/Kv/Syntax.antt =====
-- Which names the checks of app/routes/kv_store.py accept.
use floww_backend.Prelude.{
  ℕ, ◌≡◌, ◌≢◌, ◌≤◌, ◌↔◌, ◌⊎◌, inl, inr, refl, ap, Bool-cases, true, false, List, [], ◌∷◌, ◌++◌,
  String, ◌==◌, length, all, arith,
}
use floww_backend.Session.{ok}
use floww_backend.Kv.Names.{
  codes, name_char, match_rest, pattern_match, validate_table_name, validate_key,
}

-- One character of a name or more, and perhaps a newline behind them.
pub record IsName (cs : List ℕ) : Type 0 where
  pub name : List ℕ
  pub nonempty : name ≢ []
  pub characters : all name_char name ≡ true
  pub ending : (cs ≡ name) ⊎ (cs ≡ name ++ 10 ∷ [])

-- The same for what follows the first character.
Rest : List ℕ → Type 0
Rest cs = (xs : List ℕ) × (all name_char xs ≡ true) × ((cs ≡ xs) ⊎ (cs ≡ xs ++ 10 ∷ []))

Rest-sound : (cs : List ℕ) → match_rest cs ≡ true → Rest cs
unfolding match_rest Rest
Rest-sound [] h = ([], refl, inl refl)
Rest-sound (c ∷ []) h = elim (Bool-cases (name_char c)) [
  | inl k ↦ (c ∷ [], rw k refl, inl refl)
  | inr k ↦ ([], refl, inr (ground arith))
]
Rest-sound (c ∷ d ∷ cs) h =
    let (xs, good, end) = Rest-sound (d ∷ cs) (ground arith) in
    (
      c ∷ xs,
      ground arith,
      elim end [ inl e ↦ inl (ap (λ l. c ∷ l) e) | inr e ↦ inr (ap (λ l. c ∷ l) e) ],
    )

rest_plain : (xs : List ℕ) → all name_char xs ≡ true → match_rest xs ≡ true
unfolding match_rest
rest_plain [] h = refl
rest_plain (c ∷ []) h = ground arith
rest_plain (c ∷ d ∷ cs) h = ground (arith, rest_plain (d ∷ cs))

rest_newline : (xs : List ℕ) → all name_char xs ≡ true → match_rest (xs ++ 10 ∷ []) ≡ true
unfolding match_rest
rest_newline [] h = refl
rest_newline (c ∷ []) h = ground arith
rest_newline (c ∷ d ∷ cs) h = ground (arith, rest_newline (d ∷ cs))

pub pattern_sound : (cs : List ℕ) → pattern_match cs ≡ true → IsName cs
unfolding pattern_match Rest
pattern_sound [] h = absurd (ground arith)
pattern_sound (c ∷ cs) h =
    let (xs, good, end) = Rest-sound cs (ground arith) in
    record {
      name = c ∷ xs;
      nonempty = λ e. ground arith;
      characters = ground arith;
      ending = elim end [ inl e ↦ inl (ap (λ l. c ∷ l) e) | inr e ↦ inr (ap (λ l. c ∷ l) e) ];
    }

matches_name :
    (name cs : List ℕ)
    → name ≢ []
    → all name_char name ≡ true
    → (cs ≡ name) ⊎ (cs ≡ name ++ 10 ∷ [])
    → pattern_match cs ≡ true
unfolding pattern_match
matches_name [] cs n g e = absurd (n refl)
matches_name (c ∷ xs) cs n g (inl e) = rw e (ground (arith, rest_plain xs))
matches_name (c ∷ xs) cs n g (inr e) = rw e (ground (arith, rest_newline xs))

IsName-nonempty : (cs : List ℕ) → pattern_match cs ≡ true → (length cs == 0) ≡ false
unfolding pattern_match
IsName-nonempty [] h = absurd (ground arith)
IsName-nonempty (c ∷ cs) h = ground arith

-- A table name is accepted, and nothing is written, exactly when it has 255 characters at most
-- and is a name of one letter, digit, underscore or hyphen or more, behind which one newline may
-- stand.
pub validate_table_name_iff :
    {S : Type 0} (text : String) (s : S)
    → (validate_table_name text s ≡ ok (tt, s))
      ↔ (IsName (codes text) × (length (codes text) ≤ 255))
unfolding validate_table_name
validate_table_name_iff text s = (
  (λ h. (pattern_sound (codes text) (ground arith), ground arith)),
  (λ h. ground (
    arith,
    matches_name h.0.name (codes text) h.0.nonempty h.0.characters h.0.ending,
    IsName-nonempty (codes text),
  )),
)

-- A key is accepted exactly as a table name is.
pub validate_key_iff :
    {S : Type 0} (text : String) (s : S)
    → (validate_key text s ≡ ok (tt, s)) ↔ (IsName (codes text) × (length (codes text) ≤ 255))
unfolding validate_key
validate_key_iff text s = (
  (λ h. (pattern_sound (codes text) (ground arith), ground arith)),
  (λ h. ground (
    arith,
    matches_name h.0.name (codes text) h.0.nonempty h.0.characters h.0.ending,
    IsName-nonempty (codes text),
  )),
)
