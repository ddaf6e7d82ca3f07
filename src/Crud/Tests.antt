-- ===== src/Crud/Tests.antt =====
-- A row that the helper hides from the caller.
use floww_backend.Prelude.{ℕ, ◌≡◌, refl, true, false, Bool, List, [], ◌∷◌, ◌==◌, map, if◌then◌else◌}
use floww_backend.Session.{ok, err, http_exception}
use floww_backend.Table.{consistent}
use floww_backend.Crud.Helper.{CrudHelper, with_key, get_response, update_response, delete_response}
use floww_backend.Crud.Hidden.{same_key, hidden_row}

-- A row is its identifier and a value; those of value 0 are hidden.
abbrev helper : CrudHelper (ℕ × ℕ)
helper = record { filter = shown; id_of = λ r. r.0; not_found = "Item not found" }
  where
    shown : ℕ × ℕ → Bool
    shown r = if r.1 == 0 then false else true

abbrev items : List (ℕ × ℕ)
items = (1, 5) ∷ (2, 0) ∷ []

abbrev rewrite : ℕ × ℕ → ℕ × ℕ
rewrite r = (r.0, 9)

items_unique : consistent (same_key helper) items ≡ true
unfolding consistent
items_unique = refl

hidden_row_example :
    (get_response helper 2 items ≡ err (http_exception 404 "Item not found"))
    × (delete_response helper 2 items ≡ err (http_exception 404 "Item not found"))
    × (update_response helper 2 rewrite items
        ≡ ok ((2, 9), map (λ r. if with_key helper 2 r then rewrite r else r) items))
hidden_row_example = hidden_row helper 2 (2, 0) items rewrite items_unique refl refl
