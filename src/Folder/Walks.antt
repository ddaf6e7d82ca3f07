-- ===== src/Folder/Walks.antt =====
-- The loops of app/routes/folders.py along the parents of a folder, on tables where no folder is
-- its own ancestor.
use floww_backend.Prelude.{
  ℕ, zero, suc, ◌<◌, ◌≡◌, refl, inl, inr, Bool, true, false, ◌||◌, Option, Option-cases, none, some,
  List, ◌==◌, find, find_sound, find-all, all, if◌then◌else◌, arith,
}
use floww_backend.Session.{ok, err, http_exception}
use floww_backend.Table.{consistent}
use floww_backend.Table.Laws.{PicksUnique, scalar_one_or_none-select}
use floww_backend.Access.Data.{WorkflowFolder}
use floww_backend.Access.Termination.{deeper}
use floww_backend.Folder.Routes.{same_folder, with_id, parent_of, check_circular}

pub with_id-PicksUnique : (n : ℕ) → PicksUnique same_folder (with_id n)
with_id-PicksUnique n x y h k = ground arith

-- The folder that stands above another one, if it names one that is there.
abbrev pub above : List WorkflowFolder → WorkflowFolder → Option WorkflowFolder
above folders f = elim f.parent_folder_id [ none ↦ none | some p ↦ find (with_id p) folders ]

-- The folder is of the identifier, or so is one above it.
unfoldable pub under : List WorkflowFolder → ℕ → ℕ → WorkflowFolder → Bool
under folders folder_id zero f = false
under folders folder_id (suc fuel) f = elim (above folders f) [
  | none ↦ f.id == folder_id
  | some p ↦ f.id == folder_id || under folders folder_id fuel p
]

module _ (folders : List WorkflowFolder) (valid : consistent same_folder folders ≡ true) where
  pub parent-above : (f : WorkflowFolder) → parent_of folders f ≡ ok (above folders f)
  unfolding parent_of
  parent-above f = elim (Option-cases f.parent_folder_id) [
    | inl e ↦ rw e refl
    | inr (p, e) ↦
        rw e
          (scalar_one_or_none-select same_folder (with_id p) (with_id-PicksUnique p) folders valid)
  ]

  module _ (rank : ℕ → ℕ) (forest : all (deeper rank) folders ≡ true) where
    pub above_falls :
        (f p : WorkflowFolder)
        → deeper rank f ≡ true
        → above folders f ≡ some p
        → (deeper rank p ≡ true) × (rank p.id < rank f.id)
    above_falls f p d e = elim (Option-cases f.parent_folder_id) [
      | inl k ↦ absurd (ground arith)
      | inr (n, k) ↦ (
        ground (arith, find-all (with_id n) (deeper rank) folders p forest),
        ground (arith, find_sound (with_id n) folders p),
      )
    ]

    -- The loop of `update_folder` answers in time whether the folder is under the moved one.
    pub check_circular-under :
        (folder_id fuel : ℕ) (f : WorkflowFolder)
        → deeper rank f ≡ true
        → rank f.id < fuel
        → check_circular folders folder_id fuel f ≡ (
            if under folders folder_id fuel f
            then err (http_exception 400 "Cannot move folder into its own descendant")
            else ok tt)
    unfolding check_circular under
    check_circular-under folder_id zero f d l = absurd (omega (arith, l))
    check_circular-under folder_id (suc fuel) f d l = elim (Option-cases (above folders f)) [
      | inl e ↦ ground (arith, parent-above f)
      | inr (p, e) ↦
          ground (arith, parent-above f, above_falls f p d e, check_circular-under folder_id fuel p)
    ]

    pub under_fuel :
        (folder_id k m : ℕ) (f : WorkflowFolder)
        → deeper rank f ≡ true
        → rank f.id < k
        → rank f.id < m
        → under folders folder_id k f ≡ under folders folder_id m f
    unfolding under
    under_fuel folder_id zero m f d l n = absurd (omega (arith, l))
    under_fuel folder_id (suc k) zero f d l n = absurd (omega (arith, n))
    under_fuel folder_id (suc k) (suc m) f d l n = elim (Option-cases (above folders f)) [
      | inl e ↦ ground arith
      | inr (p, e) ↦ ground (arith, above_falls f p d e, under_fuel folder_id k m p)
    ]
