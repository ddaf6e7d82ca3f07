-- ===== src/Access/Hierarchy.antt =====
-- The two recursive queries of app/services/access_service.py. A recursive query takes the rows of
-- its base case and then, again and again, those that its recursive part makes of the last ones,
-- until there are none. Over folders in a cycle it does not end: the rounds are bounded here by one
-- more than there are folders, and a query that needs more fails with an operational error.
use floww_backend.Prelude.{
  ℕ, zero, suc, ◌+◌, Bool, false, Option, none, some, List, [], ◌∷◌, ◌++◌, ◌==◌, ltb, length,
  select, map,
}
use floww_backend.Session.{Session, ok, err, operational_error}
use floww_backend.Access.Data.{WorkflowFolder, Db}

-- `column == value`, where the column may be NULL.
abbrev pub holds : Option ℕ → ℕ → Bool
holds none n = false
holds (some m) n = m == n

-- The join of the last rows with the folders that are their parents.
unfoldable pub parents : List WorkflowFolder → List WorkflowFolder → List WorkflowFolder
parents folders [] = []
parents folders (w ∷ last) =
    select (λ p. holds w.parent_folder_id p.id) folders ++ parents folders last

-- The join of the last rows with the folders that they are the parents of.
unfoldable pub children : List WorkflowFolder → List WorkflowFolder → List WorkflowFolder
children folders [] = []
children folders (w ∷ last) =
    select (λ c. holds c.parent_folder_id w.id) folders ++ children folders last

-- `base.union_all(recursive)`: the identifiers with their depths.
unfoldable pub rounds :
    (List WorkflowFolder → List WorkflowFolder)
    → ℕ
    → ℕ
    → List WorkflowFolder
    → Option (List (ℕ × ℕ))
rounds step fuel depth [] = some []
rounds step zero depth (w ∷ last) = none
rounds step (suc fuel) depth (w ∷ last) = elim (rounds step fuel (depth + 1) (step (w ∷ last))) [
  | none ↦ none
  | some rest ↦ some (map (λ (f : WorkflowFolder). (f.id, depth)) (w ∷ last) ++ rest)
]

abbrev base : List WorkflowFolder → ℕ → List WorkflowFolder
base folders folder_id = select (λ f. f.id == folder_id) folders

ids : List (ℕ × ℕ) → List ℕ
ids [] = []
ids ((n, depth) ∷ rows) = n ∷ ids rows

-- `.where(cte.c.depth > 0)`
below : List (ℕ × ℕ) → List (ℕ × ℕ)
below rows = select (λ (r : ℕ × ℕ). ltb 0 r.1) rows

answer : Option (List ℕ) → Session Db (List ℕ)
answer none db = err operational_error
answer (some found) db = ok (found, db)

-- `_get_folder_ancestors_cte`: the folder and its ancestors.
unfoldable pub folder_ancestors : List WorkflowFolder → ℕ → Option (List (ℕ × ℕ))
folder_ancestors folders folder_id =
    rounds (parents folders) (suc (length folders)) 0 (base folders folder_id)

-- `_get_folder_descendants_cte`: the folder and its descendants.
unfoldable pub folder_descendants : List WorkflowFolder → ℕ → Option (List (ℕ × ℕ))
folder_descendants folders folder_id =
    rounds (children folders) (suc (length folders)) 0 (base folders folder_id)

-- All the identifiers of such a query, and those at a depth above 0.
unfoldable pub all_ids : Option (List (ℕ × ℕ)) → Session Db (List ℕ)
unfolding answer ids
all_ids rows = answer (elim rows [ none ↦ none | some r ↦ some (ids r) ])

unfoldable pub proper_ids : Option (List (ℕ × ℕ)) → Session Db (List ℕ)
unfolding answer ids below
proper_ids rows = answer (elim rows [ none ↦ none | some r ↦ some (ids (below r)) ])
