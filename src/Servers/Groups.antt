-- ===== src/Servers/Groups.antt =====
-- The groups of ui/src/components/ServerSidebar.tsx share out the servers found.
use opsup.Prelude.{
  ℕ, suc, ◌+◌, ◌≡◌, ◌≢◌, refl, sym, inl, inr, String, Bool, true, List, [], ◌∷◌, arith, All,
  All-append, length, length-append, Bool-cases, str_eq,
}
use text.Mathlib.TextEquality.{eq_iff}
use opsup.Types.{Server}
use opsup.Servers.Sidebar.{matches, filtered, group_name, Group, place, place_all, group_map}

abbrev IsOf : (Server → Bool) → Group → Type 0
IsOf keep g = All (λ s. (group_name s ≡ g.name) × (keep s ≡ true)) g.members

-- No two groups have one name.
abbrev pub Distinct : List Group → Type 0
Distinct [] = Unit
Distinct (g ∷ gs) = All (λ h. h.name ≢ g.name) gs × Distinct gs

abbrev pub total : List Group → ℕ
total [] = 0
total (g ∷ gs) = length g.members + total gs

-- The groups have distinct names, and their members those names, and the property `keep`.
abbrev pub Shares : (Server → Bool) → List Group → Type 0
Shares keep gs = Distinct gs × All (IsOf keep) gs

place-total : (s : Server) (gs : List Group) → total (place s gs) ≡ suc (total gs)
unfolding place
place-total s [] = refl
place-total s (g ∷ gs) = elim (Bool-cases (str_eq g.name (group_name s))) [
  | inl e ↦ rw (e, place) (omega (arith, length-append g.members (s ∷ [])))
  | inr e ↦ rw (e, place) (omega (arith, place-total s gs))
]

place-All :
    (P : String → Type 0) (s : Server) (gs : List Group)
    → P (group_name s)
    → All (λ g. P g.name) gs
    → All (λ g. P g.name) (place s gs)
unfolding place
place-All P s [] p h = (p, tt)
place-All P s (g ∷ gs) p h = elim (Bool-cases (str_eq g.name (group_name s))) [
  | inl e ↦ rw (e, place) (h.0, h.1)
  | inr e ↦ rw (e, place) (h.0, place-All P s gs p h.1)
]

place-Distinct : (s : Server) (gs : List Group) → Distinct gs → Distinct (place s gs)
unfolding place
place-Distinct s [] d = (tt, tt)
place-Distinct s (g ∷ gs) d = elim (Bool-cases (str_eq g.name (group_name s))) [
  | inl e ↦ rw (e, place) (d.0, d.1)
  | inr e ↦
      let apart : group_name s ≢ g.name = λ p. cc (e, (eq_iff g.name (group_name s)).1 (sym p)) in
      rw (e, place) (place-All (λ n. n ≢ g.name) s gs apart d.0, place-Distinct s gs d.1)
]

place-IsOf :
    (keep : Server → Bool) (s : Server) (gs : List Group)
    → keep s ≡ true
    → All (IsOf keep) gs
    → All (IsOf keep) (place s gs)
unfolding place
place-IsOf keep s [] k h = (((refl, k), tt), tt)
place-IsOf keep s (g ∷ gs) k h = elim (Bool-cases (str_eq g.name (group_name s))) [
  | inl e ↦
      let own = sym ((eq_iff g.name (group_name s)).0 e) in
      rw (e, place)
        (
          All-append (λ t. (group_name t ≡ g.name) × (keep t ≡ true)) g.members (s ∷ []) h.0
              ((own, k), tt),
          h.1,
        )
  | inr e ↦ rw (e, place) (h.0, place-IsOf keep s gs k h.1)
]

filtered-All :
    (keep : Server → Bool) (ss : List Server) → All (λ s. keep s ≡ true) (filtered keep ss)
unfolding filtered
filtered-All keep [] = tt
filtered-All keep (s ∷ ss) = elim (Bool-cases (keep s)) [
  | inl e ↦ rw (e, filtered) (e, filtered-All keep ss)
  | inr e ↦ rw (e, filtered) (filtered-All keep ss)
]

place_all-Shares :
    (keep : Server → Bool) (ss : List Server) (gs : List Group)
    → All (λ s. keep s ≡ true) ss
    → Shares keep gs
    → Shares keep (place_all ss gs) × (total (place_all ss gs) ≡ length ss + total gs)
unfolding place_all
place_all-Shares keep [] gs k h = (h, omega arith)
place_all-Shares keep (s ∷ ss) gs k h =
    let rest =
      place_all-Shares keep ss (place s gs) k.1
        (place-Distinct s gs h.0, place-IsOf keep s gs k.0 h.1) in
    (rest.0, omega (arith, rest.1, place-total s gs))

-- For every search and every list of servers: the groups have distinct names, each member of a group
-- matches the search and has the group's name, and the groups have as many members together as
-- servers were found.
pub group_map-Shares :
    (lower : String → String) (search : String) (servers : List Server)
    → let gs = group_map lower search servers in
      Shares (matches lower search) gs
      × (total gs ≡ length (filtered (matches lower search) servers))
unfolding group_map
group_map-Shares lower search servers =
    let keep = matches lower search in
    let h = place_all-Shares keep (filtered keep servers) [] (filtered-All keep servers) (tt, tt) in
    (h.0, omega (arith, h.1))
