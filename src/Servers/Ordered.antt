-- ===== src/Servers/Ordered.antt =====
-- The groups of the sidebar in their order: each once, sorted, the ones without a name last.
use text.Mathlib.TextEquality.{eq_iff}
use opsup.Prelude.{
  ℕ, suc, ◌≡◌, ◌≢◌, refl, ap, ◌∙◌, String, Bool, true, false, List, [], ◌∷◌, arith, All, All-weaken,
  if_rule, if◌then◌else◌,
}
use opsup.Prelude.Int.{ℤ}
use opsup.Servers.Sidebar.{Group}
use opsup.Servers.Groups.{Distinct}
use opsup.Servers.Folding.{ungrouped, compare_names, is_behind, insert, sort}

-- How many of the groups have a property.
abbrev pub count : (Group → Bool) → List Group → ℕ
count p [] = 0
count p (g ∷ gs) = if p g then suc (count p gs) else count p gs

-- The order of `localeCompare`: total, and transitive.
pub record IsOrder (collate : String → String → ℤ) : Type 0 where
  pub total : (a b : String) → is_behind (collate a b) ≡ true → is_behind (collate b a) ≡ false
  pub through :
      (a b c : String)
      → is_behind (collate a b) ≡ false
      → is_behind (collate b c) ≡ false
      → is_behind (collate a c) ≡ false

module _ (collate : String → String → ℤ) where
  -- The group is not behind any of these.
  abbrev Leads : Group → List Group → Type 0
  Leads g gs = All (λ h. is_behind (compare_names collate g.name h.name) ≡ false) gs

  abbrev pub Sorted : List Group → Type 0
  Sorted [] = Unit
  Sorted (g ∷ gs) = Leads g gs × Sorted gs

  insert-All :
      (P : Group → Type 0) (g : Group) (gs : List Group)
      → P g
      → All P gs
      → All P (insert collate g gs)
  unfolding insert
  insert-All P g [] p h = (p, tt)
  insert-All P g (k ∷ gs) p h =
      let rest = insert-All P g gs p h.1 in
      if_rule (All P) (is_behind (compare_names collate g.name k.name)) _ _ (λ _. (h.0, rest))
        (λ _. (p, h))

  sort-All : (P : Group → Type 0) (gs : List Group) → All P gs → All P (sort collate gs)
  unfolding sort
  sort-All P [] h = tt
  sort-All P (g ∷ gs) h = insert-All P g (sort collate gs) h.0 (sort-All P gs h.1)

  count-insert :
      (p : Group → Bool) (g : Group) (gs : List Group)
      → count p (insert collate g gs) ≡ count p (g ∷ gs)
  unfolding insert
  count-insert p g [] = refl
  count-insert p g (k ∷ gs) = ground (arith, count-insert p g gs)

  pub count-sort : (p : Group → Bool) (gs : List Group) → count p (sort collate gs) ≡ count p gs
  unfolding sort
  count-sort p [] = refl
  count-sort p (g ∷ gs) =
      count-insert p g (sort collate gs) ∙ ap (λ n. if p g then suc n else n) (count-sort p gs)

  module _ (w : IsOrder collate) where
    compare-total :
        (a b : String)
        → b ≢ a
        → is_behind (compare_names collate a b) ≡ true
        → is_behind (compare_names collate b a) ≡ false
    unfolding compare_names
    compare-total a b apart h =
        ground (arith, h, eq_iff a ungrouped, eq_iff b ungrouped, w.total a b, apart)

    compare-through :
        (a b c : String)
        → is_behind (compare_names collate a b) ≡ false
        → is_behind (compare_names collate b c) ≡ false
        → is_behind (compare_names collate a c) ≡ false
    unfolding compare_names
    compare-through a b c h k = ground (arith, h, k, w.through a b c)

    insert-Sorted :
        (g : Group) (gs : List Group)
        → All (λ k. k.name ≢ g.name) gs
        → Sorted gs
        → Sorted (insert collate g gs)
    unfolding insert
    insert-Sorted g [] apart h = (tt, tt)
    insert-Sorted g (k ∷ gs) apart h =
        if_rule Sorted (is_behind (compare_names collate g.name k.name)) _ _
          (λ behind. (
            insert-All (λ u. is_behind (compare_names collate k.name u.name) ≡ false) g gs
                (compare-total g.name k.name apart.0 behind) h.0,
            insert-Sorted g gs apart.1 h.1,
          ))
          (λ fore. (
            (
              fore,
              All-weaken (λ u. is_behind (compare_names collate k.name u.name) ≡ false)
                  (λ u. is_behind (compare_names collate g.name u.name) ≡ false) gs
                  (λ u e. compare-through g.name k.name u.name fore e) h.0,
            ),
            h,
          ))

    pub sort-Sorted : (gs : List Group) → Distinct gs → Sorted (sort collate gs)
    unfolding sort
    sort-Sorted [] d = tt
    sort-Sorted (g ∷ gs) d =
        insert-Sorted g (sort collate gs) (sort-All (λ k. k.name ≢ g.name) gs d.0)
          (sort-Sorted gs d.1)

  -- No group follows the one of the servers without a group.
  abbrev pub UngroupedLast : List Group → Type 0
  UngroupedLast [] = Unit
  UngroupedLast (g ∷ []) = Unit
  UngroupedLast (g ∷ k ∷ gs) = (g.name ≢ ungrouped) × UngroupedLast (k ∷ gs)

  pub Sorted-UngroupedLast : (gs : List Group) → Sorted gs → UngroupedLast gs
  unfolding compare_names
  Sorted-UngroupedLast [] h = tt
  Sorted-UngroupedLast (g ∷ []) h = tt
  Sorted-UngroupedLast (g ∷ k ∷ gs) h = (
    λ e. let front = h.0.0 in ground (arith, front, eq_iff g.name ungrouped, e),
    Sorted-UngroupedLast (k ∷ gs) h.1,
  )
