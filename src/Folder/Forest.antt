-- ===== src/Folder/Forest.antt =====
-- The folders of app/routes/folders.py stay a forest: no folder is its own ancestor after a create,
-- a move or a delete.
use floww_backend.Prelude.{
  ℕ, suc, ◌+◌, ◌≡◌, refl, sym, ◌∙◌, inl, inr, Bool, Bool-cases, true, false, Option-cases, none,
  some, List, [], ◌∷◌, ◌++◌, ◌==◌, find, find_sound, find-all, all, any, all-append, all_mono,
  any-append, is_some-find, if◌then◌else◌, arith,
}
use floww_backend.Table.{consistent, put, clear}
use floww_backend.Table.Laws.{consistent-put, consistent-insert}
use floww_backend.Table.Updates.{clear-found, fits_always}
use floww_backend.Table.Rows.{all-put}
use floww_backend.Access.Data.{WorkflowFolder}
use floww_backend.Access.Termination.{deeper}
use floww_backend.Folder.Routes.{same_folder, with_id}
use floww_backend.Folder.Walks.{above, under, under_fuel}

-- The parent that the folder names is there.
abbrev pub anchored : List WorkflowFolder → WorkflowFolder → Bool
anchored folders f = elim f.parent_folder_id [ none ↦ true | some p ↦ any (with_id p) folders ]

-- The identifiers are unique, the parents are there, and some rank grows from each folder to its
-- children, so that no folder is its own ancestor.
pub record Forest (folders : List WorkflowFolder) : Type 0 where
  pub unique : consistent same_folder folders ≡ true
  pub parents_exist : all (anchored folders) folders ≡ true
  pub rank : ℕ → ℕ
  pub grows : all (deeper rank) folders ≡ true

pub same_self : (x : WorkflowFolder) → same_folder x x ≡ true
same_self x = ground arith

pub same_comm : (x y : WorkflowFolder) → same_folder x y ≡ same_folder y x
same_comm x y = ground arith

-- A test holds of all rows where it holds of every row that is found by its identifier.
pub all_found :
    (q : WorkflowFolder → Bool) (folders : List WorkflowFolder)
    → consistent same_folder folders ≡ true
    → ((x : WorkflowFolder) → find (with_id x.id) folders ≡ some x → q x ≡ true)
    → all q folders ≡ true
unfolding consistent
all_found q [] c h = refl
all_found q (x ∷ rows) c h = ground (
  arith,
  h x (ground arith),
  all_found q rows (ground arith) (λ y e. h y (
      ground
        (arith, clear-found same_folder same_folder same_comm same_self (with_id y.id) x y rows))),
)

-- An update of one row keeps a test that the new row and all others pass.
all-put_others :
    (q : WorkflowFolder → Bool) (r : WorkflowFolder) (rows : List WorkflowFolder)
    → q r ≡ true
    → all (λ x. if same_folder r x then true else q x) rows ≡ true
    → all q (put same_folder r rows) ≡ true
unfolding put
all-put_others q r [] k h = refl
all-put_others q r (x ∷ rows) k h = ground (arith, all-put_others q r rows k)

any-put :
    (n : ℕ) (r : WorkflowFolder) (rows : List WorkflowFolder)
    → any (with_id n) (put same_folder r rows) ≡ any (with_id n) rows
unfolding put
any-put n r [] = refl
any-put n r (x ∷ rows) = ground (arith, any-put n r rows)

put_unique :
    (r : WorkflowFolder) (rows : List WorkflowFolder)
    → consistent same_folder rows ≡ true
    → consistent same_folder (put same_folder r rows) ≡ true
put_unique r rows c =
    consistent-put same_folder same_folder same_comm (λ r x y h k. ground arith) r rows c
      (fits_always same_folder r rows)

put-anchored :
    (r x : WorkflowFolder) (rows : List WorkflowFolder)
    → anchored rows x ≡ true
    → anchored (put same_folder r rows) x ≡ true
put-anchored r x rows h = elim (Option-cases x.parent_folder_id) [
  | inl e ↦ rw e refl
  | inr (n, e) ↦ ground (arith, any-put n r rows)
]

module _ (folders : List WorkflowFolder) (valid : consistent same_folder folders ≡ true)
    (rank : ℕ → ℕ) (grows : all (deeper rank) folders ≡ true) where
  -- The identifier is that of a folder under the other one.
  abbrev hit : ℕ → ℕ → Bool
  hit folder_id n = elim (find (with_id n) folders) [
    | none ↦ false
    | some f ↦ under folders folder_id (suc (rank n)) f
  ]

  -- The ranks after the folder is moved below another: all that is under it goes down.
  abbrev moved_rank : ℕ → ℕ → ℕ → ℕ
  moved_rank folder_id parent_id n =
      if hit folder_id n then rank n + suc (rank parent_id) else rank n

  module _ (f p : WorkflowFolder) (found : find (with_id f.id) folders ≡ some f)
      (parent_found : find (with_id p.id) folders ≡ some p)
      (apart : under folders f.id (suc (rank p.id)) p ≡ false) where
    hit_self : hit f.id f.id ≡ true
    unfolding under
    hit_self = elim (Option-cases (above folders f)) [
      | inl e ↦ ground arith
      | inr (q, e) ↦ ground arith
    ]

    other_deeper :
        (x : WorkflowFolder)
        → find (with_id x.id) folders ≡ some x
        → (x.id == f.id) ≡ false
        → deeper (moved_rank f.id p.id) x ≡ true
    unfolding under
    other_deeper x e k = elim (Option-cases x.parent_folder_id) [
      | inl n ↦ rw n refl
      | inr (n, i) ↦ elim (Option-cases (find (with_id n) folders)) [
        | inl z ↦ ground (arith, find-all (with_id x.id) (deeper rank) folders x grows e)
        | inr (q, z) ↦ ground (
          arith,
          find-all (with_id x.id) (deeper rank) folders x grows e,
          find_sound (with_id n) folders q z,
          find-all (with_id n) (deeper rank) folders q grows z,
          under_fuel folders valid rank grows f.id (rank x.id) (suc (rank n)) q,
        )
      ]
    ]

    moved_grows :
        (new : WorkflowFolder)
        → new.id ≡ f.id
        → new.parent_folder_id ≡ some p.id
        → all (deeper (moved_rank f.id p.id)) (put same_folder new folders) ≡ true
    moved_grows new i j =
        all-put_others (deeper (moved_rank f.id p.id)) new folders (ground (arith, hit_self)) (
          all_found (λ x. if same_folder new x then true else deeper (moved_rank f.id p.id) x)
            folders valid (λ x e. ground (arith, other_deeper x e)))

-- Moving a folder below one that is not under it keeps the forest.
pub move-Forest :
    (folders : List WorkflowFolder) (tree : Forest folders) (f p new : WorkflowFolder)
    → find (with_id f.id) folders ≡ some f
    → find (with_id p.id) folders ≡ some p
    → under folders f.id (suc (tree.rank p.id)) p ≡ false
    → new.id ≡ f.id
    → new.parent_folder_id ≡ some p.id
    → Forest (put same_folder new folders)
move-Forest folders tree f p new found parent_found apart i j = record {
  unique = put_unique new folders tree.unique;
  parents_exist =
      all-put (same_folder) (anchored (put same_folder new folders)) new folders
        (all_mono (anchored folders) (anchored (put same_folder new folders)) folders
          (λ x h. put-anchored new x folders h) tree.parents_exist)
        (put-anchored new new folders (ground (arith, is_some-find (with_id p.id) folders)));
  rank = moved_rank folders tree.unique tree.rank tree.grows f.id p.id;
  grows = moved_grows folders tree.unique tree.rank tree.grows f p found parent_found apart new i j;
}

-- So does a change of a folder that leaves its parent.
pub rename-Forest :
    (folders : List WorkflowFolder) (tree : Forest folders) (f new : WorkflowFolder)
    → find (with_id f.id) folders ≡ some f
    → new.id ≡ f.id
    → new.parent_folder_id ≡ f.parent_folder_id
    → Forest (put same_folder new folders)
rename-Forest folders tree f new found i j = record {
  unique = put_unique new folders tree.unique;
  parents_exist =
      all-put (same_folder) (anchored (put same_folder new folders)) new folders
        (all_mono (anchored folders) (anchored (put same_folder new folders)) folders
          (λ x h. put-anchored new x folders h) tree.parents_exist)
        (put-anchored new new folders (
          ground (
            arith,
            find-all (with_id f.id) (anchored folders) folders f tree.parents_exist found,
          )));
  rank = tree.rank;
  grows =
      all-put same_folder (deeper tree.rank) new folders tree.grows
        (ground (arith, find-all (with_id f.id) (deeper tree.rank) folders f tree.grows found));
}

-- A new folder below one that is there keeps the forest.
abbrev grown_rank : (ℕ → ℕ) → WorkflowFolder → ℕ → ℕ
grown_rank rank new n =
    if n == new.id then (elim new.parent_folder_id [ none ↦ 0 | some p ↦ suc (rank p) ]) else rank n

append-anchored :
    (new x : WorkflowFolder) (rows : List WorkflowFolder)
    → anchored rows x ≡ true
    → anchored (rows ++ new ∷ []) x ≡ true
append-anchored new x rows h = elim (Option-cases x.parent_folder_id) [
  | inl e ↦ rw e refl
  | inr (n, e) ↦ ground (arith, any-append (with_id n) rows (new ∷ []))
]

clear-any :
    (new : WorkflowFolder) (rows : List WorkflowFolder)
    → clear same_folder new rows ≡ true
    → any (with_id new.id) rows ≡ false
clear-any new [] h = refl
clear-any new (x ∷ rows) h = ground (arith, clear-any new rows)

grown :
    (rank : ℕ → ℕ) (folders : List WorkflowFolder) (new : WorkflowFolder)
    (rows : List WorkflowFolder)
    → any (with_id new.id) folders ≡ false
    → clear same_folder new rows ≡ true
    → all (anchored folders) rows ≡ true
    → all (deeper rank) rows ≡ true
    → all (deeper (grown_rank rank new)) rows ≡ true
grown rank folders new [] n c a d = refl
grown rank folders new (x ∷ rows) n c a d = elim (Option-cases x.parent_folder_id) [
  | inl e ↦ ground (arith, grown rank folders new rows)
  | inr (q, e) ↦ elim (Bool-cases (q == new.id)) [
    | inl z ↦ absurd (ground (arith))
    | inr z ↦ ground (arith, grown rank folders new rows)
  ]
]

pub create-Forest :
    (folders : List WorkflowFolder) (tree : Forest folders) (new : WorkflowFolder)
    → consistent same_folder (folders ++ new ∷ []) ≡ true
    → anchored folders new ≡ true
    → Forest (folders ++ new ∷ [])
create-Forest folders tree new c a = record {
  unique = c;
  parents_exist = ground (
    arith,
    all-append (anchored (folders ++ new ∷ [])) folders (new ∷ []),
    all_mono (anchored folders) (anchored (folders ++ new ∷ [])) folders
        (λ x h. append-anchored new x folders h) tree.parents_exist,
    append-anchored new new folders a,
  );
  rank = grown_rank tree.rank new;
  grows = ground (
    arith,
    all-append (deeper (grown_rank tree.rank new)) folders (new ∷ []),
    grown tree.rank folders new folders (clear-any new folders is_clear) is_clear tree.parents_exist
        tree.grows,
    new_deeper,
  );
}
  where
    is_clear : clear same_folder new folders ≡ true
    is_clear = sym (consistent-insert same_folder same_comm new folders tree.unique) ∙ c

    new_deeper : deeper (grown_rank tree.rank new) new ≡ true
    new_deeper = elim (Option-cases new.parent_folder_id) [
      | inl e ↦ rw e refl
      | inr (p, e) ↦ ground (arith, clear-any new folders is_clear)
    ]
