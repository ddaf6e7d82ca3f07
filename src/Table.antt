-- ===== src/Table.antt =====
-- Tables with uniqueness constraints: rows in a list, and a test that says which two rows the
-- database refuses side by side (app/models.py: `unique=True`, `UniqueConstraint`, primary keys).
pub mod Laws
pub mod Updates
pub mod Rows
use floww_backend.Prelude.{◌≡◌, Bool, true, ◌&&◌, not, List, [], ◌∷◌, ◌++◌, all, if◌then◌else◌}

module _ {Row : Type 0} (clash : Row → Row → Bool) where
  -- The row clashes with none of the others.
  abbrev pub clear : Row → List Row → Bool
  clear r rows = all (λ x. not (clash r x)) rows

  -- No two rows clash.
  unfoldable pub consistent : List Row → Bool
  consistent [] = true
  consistent (r ∷ rows) = clear r rows && consistent rows

-- A flushed update: the row with the same key takes the new values.
unfoldable pub put : {Row : Type 0} → (Row → Row → Bool) → Row → List Row → List Row
put same r [] = []
put same r (x ∷ rows) = (if same r x then r else x) ∷ put same r rows

-- `session.delete(row)`
unfoldable pub remove : {Row : Type 0} → (Row → Row → Bool) → Row → List Row → List Row
remove same r [] = []
remove same r (x ∷ rows) = let rest = remove same r rows in if same r x then rest else x ∷ rest
