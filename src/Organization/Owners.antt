-- ===== src/Organization/Owners.antt =====
-- The owners of an organization in app/routes/organizations.py, where one member is changed.
use floww_backend.Prelude.{
  ℕ, suc, ◌≤◌, ◌<◌, ◌≡◌, inl, inr, Bool, Bool-cases, true, false, not, ◌&&◌, some, List, [], ◌∷◌,
  leb, length, select, find, all, any, arith,
}
use floww_backend.Table.{consistent, clear, put}
use floww_backend.Table.Laws.{PicksUnique}
use floww_backend.Organization.Data.{OrganizationMember, clash_member}
use floww_backend.Organization.Routes.{Db, Organization, same_member, owner_of}

-- The organization has an owner.
abbrev pub owned : List OrganizationMember → Organization → Bool
owned members o = any (owner_of o.id) members

-- Each membership has its own key, and each organization an owner.
pub record Owned (db : Db) : Type 0 where
  pub unique : consistent clash_member db.members ≡ true
  pub has_owner : all (owned db.members) db.organizations ≡ true

-- Where there are two owners, one is left without the changed row.
left_over :
    (o : ℕ) (r : OrganizationMember) (rows : List OrganizationMember)
    → consistent clash_member rows ≡ true
    → length (select (owner_of o) rows)
      ≤ suc (length (select (λ x. owner_of o x && not (same_member r x)) rows))
unfolding consistent clash_member same_member
left_over o r [] c = omega arith
left_over o r (x ∷ rows) c = elim (Bool-cases (same_member r x)) [
  | inl h ↦ ground (arith, none_more rows)
  | inr h ↦ ground (arith, left_over o r rows)
]
  where
    none_more :
        (rows : List OrganizationMember)
        → clear clash_member x rows ≡ true
        → same_member r x ≡ true
        → length (select (owner_of o) rows)
          ≤ length (select (λ y. owner_of o y && not (same_member r y)) rows)
    none_more [] c h = omega arith
    none_more (y ∷ rows) c h = ground (arith, none_more rows)

any-length :
    {A : Type 0} (p : A → Bool) (rows : List A) → 0 < length (select p rows) → any p rows ≡ true
any-length p [] h = absurd (omega (arith, h))
any-length p (x ∷ rows) h = ground (arith, any-length p rows)

pub any-others_put :
    (p : OrganizationMember → Bool) (r : OrganizationMember) (rows : List OrganizationMember)
    → any (λ x. p x && not (same_member r x)) rows ≡ true
    → any p (put same_member r rows) ≡ true
unfolding put
any-others_put p r [] h = absurd (ground arith)
any-others_put p r (x ∷ rows) h = ground (arith, any-others_put p r rows)

pub any-others_left :
    (p : OrganizationMember → Bool) (r : OrganizationMember) (rows : List OrganizationMember)
    → any (λ x. p x && not (same_member r x)) rows ≡ true
    → any p (select (λ x. not (same_member r x)) rows) ≡ true
any-others_left p r [] h = absurd (ground arith)
any-others_left p r (x ∷ rows) h = ground (arith, any-others_left p r rows)

pub clash_member_comm : (x y : OrganizationMember) → clash_member x y ≡ clash_member y x
unfolding clash_member
clash_member_comm x y = ground arith

pub same_member-PicksUnique : (m : OrganizationMember) → PicksUnique clash_member (same_member m)
unfolding clash_member same_member
same_member-PicksUnique m x y h k = ground arith

-- A test that one row fails passes some other row.
only_self :
    (p : OrganizationMember → Bool) (m : OrganizationMember) (rows : List OrganizationMember)
    → consistent clash_member rows ≡ true
    → find (same_member m) rows ≡ some m
    → p m ≡ false
    → any p rows ≡ true
    → any (λ x. p x && not (same_member m x)) rows ≡ true
unfolding consistent
only_self p m [] c f n a = ground arith
only_self p m (x ∷ rows) c f n a = elim (Bool-cases (same_member m x)) [
  | inl h ↦ ground (arith, others rows)
  | inr h ↦ ground (arith, only_self p m rows)
]
  where
    others :
        (rows : List OrganizationMember)
        → clear clash_member x rows ≡ true
        → same_member m x ≡ true
        → any p rows ≡ true
        → any (λ y. p y && not (same_member m y)) rows ≡ true
    others [] c h a = ground arith
    others (y ∷ rows) c h a = ground (arith, others rows, same_member-PicksUnique m x y)

pub any-put_self :
    (p : OrganizationMember → Bool) (r m : OrganizationMember) (rows : List OrganizationMember)
    → find (same_member r) rows ≡ some m
    → p r ≡ true
    → any p (put same_member r rows) ≡ true
unfolding put
any-put_self p r m [] f h = absurd (ground arith)
any-put_self p r m (x ∷ rows) f h = ground (arith, any-put_self p r m rows)

module _ (db : Db) (good : Owned db) (m : OrganizationMember)
    (found : find (same_member m) db.members ≡ some m) where
  -- The check lets a change through where somebody else is left as an owner.
  pub somebody_left :
      (o : Organization)
      → owned db.members o ≡ true
      → (owner_of o.id m && leb (length (select (owner_of o.id) db.members)) 1) ≡ false
      → any (λ x. owner_of o.id x && not (same_member m x)) db.members ≡ true
  unfolding owner_of
  somebody_left o h c = elim (Bool-cases (owner_of o.id m)) [
    | inl k ↦ any-both (ground (arith, left_over o.id m db.members good.unique))
    | inr k ↦ only_self (owner_of o.id) m db.members good.unique found k h
  ]
    where
      any-both :
          0 < length (select (λ x. owner_of o.id x && not (same_member m x)) db.members)
          → any (λ x. owner_of o.id x && not (same_member m x)) db.members ≡ true
      any-both l = any-length (λ x. owner_of o.id x && not (same_member m x)) db.members l
