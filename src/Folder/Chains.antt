-- ===== src/Folder/Chains.antt =====
-- The chain of parents of a folder: the loops of app/routes/folders.py and the recursive query of
-- app/services/access_service.py both list it.
use floww_backend.Prelude.{
  ℕ, zero, suc, ◌+◌, ◌<◌, ◌≡◌, refl, inl, inr, true, Option, Option-cases, none, some, List, [],
  ◌∷◌, ◌==◌, select, find, any, is_some, arith,
}
use floww_backend.Session.{ok, scalar_one_or_none}
use floww_backend.Table.Laws.{scalar_one_or_none-select}
use floww_backend.Access.Data.{WorkflowFolder}
use floww_backend.Access.Hierarchy.{holds, parents, rounds}
use floww_backend.Access.Termination.{deeper}
use floww_backend.Folder.Routes.{same_folder, with_id, parent_of, walk_path}
use floww_backend.Folder.Walks.{with_id-PicksUnique, above, under, parent-above, above_falls}
use floww_backend.Folder.Forest.{Forest}

-- The folder and those above it.
unfoldable pub climb : List WorkflowFolder → ℕ → WorkflowFolder → Option (List WorkflowFolder)
climb folders zero f = none
climb folders (suc fuel) f = elim (above folders f) [
  | none ↦ some (f ∷ [])
  | some p ↦ elim (climb folders fuel p) [ none ↦ none | some l ↦ some (f ∷ l) ]
]

-- The rows of the recursive query for a chain of folders.
unfoldable pub with_depths : ℕ → List WorkflowFolder → List (ℕ × ℕ)
with_depths depth [] = []
with_depths depth (f ∷ l) = (f.id, depth) ∷ with_depths (depth + 1) l

-- `insert(0, ...)` of each in turn.
unfoldable pub onto : List WorkflowFolder → List WorkflowFolder → List WorkflowFolder
onto [] path = path
onto (f ∷ l) path = onto l (f ∷ path)

module _ (folders : List WorkflowFolder) (tree : Forest folders) where
  pub walk_path-climb :
      (fuel : ℕ) (path l : List WorkflowFolder) (f : WorkflowFolder)
      → climb folders fuel f ≡ some l
      → walk_path folders fuel path f ≡ ok (onto l path)
  unfolding walk_path climb onto
  walk_path-climb zero path l f e = absurd (ground arith)
  walk_path-climb (suc fuel) path l f e =
      go (above folders f) (parent-above folders tree.unique f) refl
        (λ l' p. walk_path-climb fuel (f ∷ path) l' p)
    where
      go :
          (a : Option WorkflowFolder)
          → parent_of folders f ≡ ok (above folders f)
          → above folders f ≡ a
          → ((l' : List WorkflowFolder) (p : WorkflowFolder)
              → climb folders fuel p ≡ some l'
              → walk_path folders fuel (f ∷ path) p ≡ ok (onto l' (f ∷ path)))
          → walk_path folders (suc fuel) path f ≡ ok (onto l path)
      go none k h again = ground arith
      go (some p) k h again = more (climb folders fuel p) refl
        where
          more :
              (c : Option (List WorkflowFolder))
              → climb folders fuel p ≡ c
              → walk_path folders (suc fuel) path f ≡ ok (onto l path)
          more none q = absurd (ground arith)
          more (some l') q = ground (arith, again l' p q)

  pub climb_total :
      (fuel : ℕ) (f : WorkflowFolder)
      → deeper tree.rank f ≡ true
      → tree.rank f.id < fuel
      → is_some (climb folders fuel f) ≡ true
  unfolding climb
  climb_total zero f d l = absurd (ground arith)
  climb_total (suc fuel) f d l = elim (Option-cases (above folders f)) [
    | inl e ↦ ground arith
    | inr (p, e) ↦
        ground
          (arith, above_falls folders tree.unique tree.rank tree.grows f p d e, climb_total fuel p)
  ]

  holds-none :
      (rows : List WorkflowFolder) → select (λ (p : WorkflowFolder). holds none p.id) rows ≡ []
  holds-none [] = refl
  holds-none (x ∷ rows) = ground (arith, holds-none rows)

  holds-some :
      (n : ℕ) (rows : List WorkflowFolder)
      → select (λ (p : WorkflowFolder). holds (some n) p.id) rows ≡ select (with_id n) rows
  holds-some n [] = refl
  holds-some n (x ∷ rows) = ground (arith, holds-some n rows)

  one_row :
      (rows : List WorkflowFolder) (o : Option WorkflowFolder)
      → scalar_one_or_none rows ≡ ok o
      → rows ≡ (elim o [ none ↦ [] | some x ↦ x ∷ [] ])
  unfolding scalar_one_or_none
  one_row [] o e = ground arith
  one_row (x ∷ []) o e = ground arith
  one_row (x ∷ y ∷ rows) o e = absurd (ground arith)

  pub with_id-row :
      (n : ℕ)
      → select (with_id n) folders
        ≡ (elim (find (with_id n) folders) [ none ↦ [] | some x ↦ x ∷ [] ])
  with_id-row n = one_row (select (with_id n) folders) (find (with_id n) folders) (
      scalar_one_or_none-select same_folder (with_id n) (with_id-PicksUnique n) folders tree.unique)

  parents-above :
      (f : WorkflowFolder)
      → parents folders (f ∷ []) ≡ (elim (above folders f) [ none ↦ [] | some p ↦ p ∷ [] ])
  unfolding parents
  parents-above f = elim (Option-cases f.parent_folder_id) [
    | inl e ↦ ground (arith, holds-none folders)
    | inr (n, e) ↦ elim (Option-cases (find (with_id n) folders)) [
      | inl z ↦ ground (arith, holds-some n folders, with_id-row n)
      | inr (q, z) ↦ ground (arith, holds-some n folders, with_id-row n)
    ]
  ]

  pub rounds-climb :
      (fuel depth : ℕ) (f : WorkflowFolder) (l : List WorkflowFolder)
      → climb folders fuel f ≡ some l
      → rounds (parents folders) fuel depth (f ∷ []) ≡ some (with_depths depth l)
  unfolding rounds climb with_depths
  rounds-climb zero depth f l e = absurd (ground arith)
  rounds-climb (suc fuel) depth f l e =
      go (above folders f) (parents-above f) refl (λ p l' q. rounds-climb fuel (depth + 1) p l' q)
    where
      go :
          (a : Option WorkflowFolder)
          → parents folders (f ∷ []) ≡ (elim (above folders f) [ none ↦ [] | some p ↦ p ∷ [] ])
          → above folders f ≡ a
          → ((p : WorkflowFolder) (l' : List WorkflowFolder)
              → climb folders fuel p ≡ some l'
              → rounds (parents folders) fuel (depth + 1) (p ∷ [])
                ≡ some (with_depths (depth + 1) l'))
          → rounds (parents folders) (suc fuel) depth (f ∷ []) ≡ some (with_depths depth l)
      go none k h again = ground arith
      go (some p) k h again = more (climb folders fuel p) refl
        where
          more :
              (c : Option (List WorkflowFolder))
              → climb folders fuel p ≡ c
              → rounds (parents folders) (suc fuel) depth (f ∷ []) ≡ some (with_depths depth l)
          more none q = absurd (ground arith)
          more (some l') q = ground (arith, again p l' q)

  pub under-climb :
      (folder_id fuel depth : ℕ) (f : WorkflowFolder) (l : List WorkflowFolder)
      → climb folders fuel f ≡ some l
      → under folders folder_id fuel f ≡ any (λ (r : ℕ × ℕ). r.0 == folder_id) (with_depths depth l)
  unfolding under climb with_depths
  under-climb folder_id zero depth f l e = absurd (ground arith)
  under-climb folder_id (suc fuel) depth f l e =
      go (above folders f) refl (λ p l' q. under-climb folder_id fuel (depth + 1) p l' q)
    where
      go :
          (a : Option WorkflowFolder)
          → above folders f ≡ a
          → ((p : WorkflowFolder) (l' : List WorkflowFolder)
              → climb folders fuel p ≡ some l'
              → under folders folder_id fuel p
                ≡ any (λ (r : ℕ × ℕ). r.0 == folder_id) (with_depths (depth + 1) l'))
          → under folders folder_id (suc fuel) f
            ≡ any (λ (r : ℕ × ℕ). r.0 == folder_id) (with_depths depth l)
      go none h again = ground arith
      go (some p) h again = more (climb folders fuel p) refl
        where
          more :
              (c : Option (List WorkflowFolder))
              → climb folders fuel p ≡ c
              → under folders folder_id (suc fuel) f
                ≡ any (λ (r : ℕ × ℕ). r.0 == folder_id) (with_depths depth l)
          more none q = absurd (ground arith)
          more (some l') q = ground (arith, again p l' q)
