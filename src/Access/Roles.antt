-- ===== src/Access/Roles.antt =====
-- The loops of app/services/access_service.py that keep the highest role: what they compute, for one
-- key of the results.
use floww_backend.Prelude.{
  ◌≡◌, refl, ap, ◌∙◌, ◌⊎◌, ◌==◌, inl, inr, Bool, true, false, ◌&&◌, ◌||◌, Option, none, some, List,
  [], ◌∷◌, ◌++◌, not, all, any, select, arith, Bool-cases, leb, if◌then◌else◌, any-select_either,
}
use floww_backend.Access.Data.{
  AccessRole, AccessTuple, ResolvedAccess, role_priority, role_meets_minimum,
}
use floww_backend.Access.Queries.{raise_to, raise_all, keep_higher, passes, offer_tuples, higher}

-- The role of the entry that passes a test.
unfoldable pub role_for : (ResolvedAccess → Bool) → List ResolvedAccess → Option AccessRole
role_for p [] = none
role_for p (r ∷ results) = let rest = role_for p results in if p r then some r.role else rest

-- The role, where it meets the minimum.
unfoldable pub at_least : Option AccessRole → Option AccessRole → Option AccessRole
unfolding passes
at_least min_role none = none
at_least min_role (some role) = if passes min_role role then some role else none

-- The test picks the entries of one key.
pub record PicksKey (same_key : ResolvedAccess → ResolvedAccess → Bool) (p : ResolvedAccess → Bool)
    : Type 0 where
  pub apart : (a r : ResolvedAccess) → same_key a r ≡ true → p a ≡ p r
  pub together : (a r : ResolvedAccess) → p a ≡ true → p r ≡ true → same_key a r ≡ true

module _ (same_key : ResolvedAccess → ResolvedAccess → Bool) (p : ResolvedAccess → Bool)
    (key : PicksKey same_key p) where
  pub role_for-keep_higher :
      (a : ResolvedAccess) (results : List ResolvedAccess)
      → role_for p (keep_higher same_key a results)
        ≡ (if p a then raise_to (role_for p results) a.role else role_for p results)
  unfolding role_for keep_higher raise_to
  role_for-keep_higher a [] = refl
  role_for-keep_higher a (r ∷ results) =
      ground (arith, key.apart a r, key.together a r, role_for-keep_higher a results)

  -- A loop over tuples leaves at the key the highest role of the tuples that it takes there.
  pub role_for-offer_tuples :
      (min_role : Option AccessRole) (make : AccessTuple → ResolvedAccess) (q : AccessTuple → Bool)
      (tuples : List AccessTuple) (results : List ResolvedAccess)
      → ((t : AccessTuple) → (make t).role ≡ t.role)
      → ((t : AccessTuple) → p (make t) ≡ q t)
      → role_for p (offer_tuples same_key min_role make tuples results)
        ≡ raise_all (role_for p results) (select (λ t. passes min_role t.role && q t) tuples)
  unfolding offer_tuples raise_all
  role_for-offer_tuples min_role make q [] results h k = refl
  role_for-offer_tuples min_role make q (t ∷ tuples) results h k =
      elim (Bool-cases (passes min_role t.role)) [
        | inl pass ↦
            rw
              (
                pass,
                role_for-offer_tuples min_role make q tuples (keep_higher same_key (make t) results)
                    h k,
                role_for-keep_higher (make t) results,
                k t,
                h t,
              )
              (elim (Bool-cases (q t)) [ inl e ↦ rw e refl | inr e ↦ rw e refl ])
        | inr fail ↦ rw (fail, role_for-offer_tuples min_role make q tuples results h k) refl
      ]

-- Raising a role and asking for the minimum go together.
at_least-raise_to :
    (m h : Option AccessRole) (r : AccessRole)
    → passes m r ≡ true
    → raise_to (at_least m h) r ≡ at_least m (raise_to h r)
unfolding at_least raise_to passes role_meets_minimum
at_least-raise_to none none r e = ground arith
at_least-raise_to none (some o) r e = ground arith
at_least-raise_to (some m) none r e = ground arith
at_least-raise_to (some m) (some o) r e = ground arith

at_least-raise_to_low :
    (m h : Option AccessRole) (r : AccessRole)
    → passes m r ≡ false
    → at_least m h ≡ at_least m (raise_to h r)
unfolding at_least raise_to passes role_meets_minimum
at_least-raise_to_low none h r e = absurd (ground arith)
at_least-raise_to_low (some m) none r e = ground arith
at_least-raise_to_low (some m) (some o) r e = ground arith

-- Leaving out what does not meet the minimum is asking afterwards whether the highest does.
pub raise_all-passes :
    (min_role : Option AccessRole) (q : AccessTuple → Bool) (tuples : List AccessTuple)
    (highest : Option AccessRole)
    → raise_all (at_least min_role highest) (select (λ t. passes min_role t.role && q t) tuples)
      ≡ at_least min_role (raise_all highest (select q tuples))
unfolding raise_all
raise_all-passes min_role q [] highest = refl
raise_all-passes min_role q (t ∷ tuples) highest = elim (Bool-cases (passes min_role t.role)) [
  | inl pass ↦ elim (Bool-cases (q t)) [
    | inl e ↦
        rw (pass, e)
          (ap (λ h. raise_all h rest) (at_least-raise_to min_role highest t.role pass)
            ∙ raise_all-passes min_role q tuples (raise_to highest t.role))
    | inr e ↦ rw (pass, e) (raise_all-passes min_role q tuples highest)
  ]
  | inr fail ↦ elim (Bool-cases (q t)) [
    | inl e ↦
        rw (fail, e)
          (ap (λ h. raise_all h rest) (at_least-raise_to_low min_role highest t.role fail)
            ∙ raise_all-passes min_role q tuples (raise_to highest t.role))
    | inr e ↦ rw (fail, e) (raise_all-passes min_role q tuples highest)
  ]
]
  where
    rest : List AccessTuple
    rest = select (λ x. passes min_role x.role && q x) tuples

-- The role is at least as permissive as the one given.
unfoldable pub covers : Option AccessRole → AccessRole → Bool
covers none r = false
covers (some h) r = leb (role_priority r) (role_priority h)

covers-raise_to : (h : Option AccessRole) (r : AccessRole) → covers (raise_to h r) r ≡ true
unfolding covers raise_to
covers-raise_to none r = ground arith
covers-raise_to (some o) r = ground arith

covers-kept :
    (h : Option AccessRole) (r s : AccessRole) → covers h s ≡ true → covers (raise_to h r) s ≡ true
unfolding covers raise_to
covers-kept none r s c = absurd (ground arith)
covers-kept (some o) r s c = ground arith

raise_all-kept :
    (h : Option AccessRole) (s : AccessRole) (tuples : List AccessTuple)
    → covers h s ≡ true
    → covers (raise_all h tuples) s ≡ true
unfolding raise_all
raise_all-kept h s [] c = c
raise_all-kept h s (t ∷ tuples) c =
    raise_all-kept (raise_to h t.role) s tuples (covers-kept h t.role s c)

covers-all_mono :
    (h k : Option AccessRole) (tuples : List AccessTuple)
    → ((s : AccessRole) → covers h s ≡ true → covers k s ≡ true)
    → all (λ (t : AccessTuple). covers h t.role) tuples ≡ true
    → all (λ (t : AccessTuple). covers k t.role) tuples ≡ true
covers-all_mono h k [] m c = refl
covers-all_mono h k (t ∷ tuples) m c = ground (arith, m t.role, covers-all_mono h k tuples m)

-- No tuple of the loop has a role above the one that the loop leaves.
pub raise_all-covers :
    (h : Option AccessRole) (tuples : List AccessTuple)
    → all (λ (t : AccessTuple). covers (raise_all h tuples) t.role) tuples ≡ true
unfolding raise_all
raise_all-covers h [] = refl
raise_all-covers h (t ∷ tuples) = ground (
  arith,
  raise_all-kept (raise_to h t.role) t.role tuples (covers-raise_to h t.role),
  raise_all-covers (raise_to h t.role) tuples,
)

-- The role is that of a tuple of the list; no role, where the list is empty.
unfoldable pub attained : Option AccessRole → List AccessTuple → Bool
attained none tuples = not (any (λ (t : AccessTuple). true) tuples)
attained (some r) tuples = any (λ (t : AccessTuple). role_priority t.role == role_priority r) tuples

-- The role that the loop leaves is the first one or that of a tuple.
raise_all-from :
    (o : AccessRole) (tuples : List AccessTuple)
    → (raise_all (some o) tuples ≡ some o)
      ⊎ ((r : AccessRole) × (raise_all (some o) tuples ≡ some r)
          × (any (λ (t : AccessTuple). role_priority t.role == role_priority r) tuples ≡ true))
unfolding raise_all raise_to
raise_all-from o [] = inl refl
raise_all-from o (t ∷ tuples) = elim (Bool-cases (higher t.role o)) [
  | inl up ↦ rw up (elim (raise_all-from t.role tuples) [
    | inl e ↦ inr (t.role, e, ground arith)
    | inr (r, e, f) ↦ inr (r, e, ground arith)
  ])
  | inr same ↦
      rw same (elim (raise_all-from o tuples) [
        | inl e ↦ inl e
        | inr (r, e, f) ↦ inr (r, e, ground arith)
      ])
]

pub raise_all-attained :
    (tuples : List AccessTuple) → attained (raise_all none tuples) tuples ≡ true
unfolding attained raise_all raise_to
raise_all-attained [] = refl
raise_all-attained (t ∷ tuples) = elim (raise_all-from t.role tuples) [
  | inl e ↦ rw e (ground arith)
  | inr (r, e, f) ↦ rw e (ground arith)
]

pub raise_all-append :
    (h : Option AccessRole) (xs ys : List AccessTuple)
    → raise_all h (xs ++ ys) ≡ raise_all (raise_all h xs) ys
unfolding raise_all
raise_all-append h [] ys = refl
raise_all-append h (x ∷ xs) ys = raise_all-append (raise_to h x.role) xs ys

-- The rows of two tests may stand in any order.
pub attained-either :
    (o : Option AccessRole) (p q : AccessTuple → Bool) (tuples : List AccessTuple)
    → attained o (select p tuples ++ select q tuples) ≡ attained o (select (λ t. p t || q t) tuples)
unfolding attained
attained-either none p q tuples = ap not (any-select_either p q (λ t. true) tuples)
attained-either (some r) p q tuples = any-select_either p q _ tuples
