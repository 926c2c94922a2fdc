-- ===== src/Servers/Shown.antt =====
-- What the sidebar shows of the groups, after any clicks on their buttons.
use opsup.Prelude.{
  ◌≡◌, String, Bool, true, false, not, List, [], ◌∷◌, length, str_eq, if◌then◌else◌,
}
use opsup.Servers.Sidebar.{Group}
use opsup.Servers.Folding.{Section}
use opsup.Servers.Ordered.{count}

-- Whether the button with this name is pressed an odd number of times.
abbrev pub pressed_odd : String → List String → Bool
pressed_odd name [] = false
pressed_odd name (click ∷ clicks) =
    if str_eq name click then not (pressed_odd name clicks) else pressed_odd name clicks

abbrev flip : Bool → Bool → Bool
flip true b = not b
flip false b = b

-- An even number of clicks shows the group's members, an odd number hides them; the count stays.
abbrev pub IsSection : List String → Group → Section → Type 0
IsSection clicks g s =
    (s.name ≡ g.name)
    × (s.count ≡ length g.members)
    × (s.expanded ≡ not (pressed_odd g.name clicks))
    × (s.cards ≡ (if pressed_odd g.name clicks then [] else g.members))

abbrev pub AreSections : List String → List Group → List Section → Type 0
AreSections clicks [] [] = Unit
AreSections clicks [] (s ∷ ss) = ⊥
AreSections clicks (g ∷ gs) [] = ⊥
AreSections clicks (g ∷ gs) (s ∷ ss) = IsSection clicks g s × AreSections clicks gs ss
