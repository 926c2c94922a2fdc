-- ===== src/Servers/Folding.antt =====
-- ui/src/components/ServerSidebar.tsx, lines 84 to 105: the order of the groups, and which of them are
-- open. `collate` is `a.localeCompare(b, 'zh')`.
use opsup.Prelude.{
  ℕ, suc, zero, String, Bool, true, false, not, List, [], ◌∷◌, length, str_eq, if◌then◌else◌,
}
use opsup.Prelude.Int.{ℤ, pos, negsuc}
use opsup.Types.{Server}
use opsup.Servers.Sidebar.{Group}

-- `'未分组'`
abbrev pub ungrouped : String
ungrouped = "未分组"

-- `a === '未分组' ? 1 : b === '未分组' ? -1 : a.localeCompare(b, 'zh')`
unfoldable pub compare_names : (String → String → ℤ) → String → String → ℤ
compare_names collate a b =
    if str_eq a ungrouped then pos 1 else if str_eq b ungrouped then negsuc 0 else collate a b

-- Whether an answer of the comparison puts its first argument behind the second.
abbrev pub is_behind : ℤ → Bool
is_behind (pos zero) = false
is_behind (pos (suc n)) = true
is_behind (negsuc n) = false

-- `.sort(…)`, which is stable: a group goes before the first that it is not behind.
unfoldable pub insert : (String → String → ℤ) → Group → List Group → List Group
unfolding compare_names
insert collate g [] = g ∷ []
insert collate g (h ∷ gs) =
    let further = insert collate g gs in
    if is_behind (compare_names collate g.name h.name) then h ∷ further else g ∷ h ∷ gs

unfoldable pub sort : (String → String → ℤ) → List Group → List Group
unfolding insert
sort collate [] = []
sort collate (g ∷ gs) = insert collate g (sort collate gs)

-- `collapsed`, where a name that is not there is `undefined`, and the button of a group.
abbrev pub Collapsed : Type 0
Collapsed = String → Bool

unfoldable pub toggle : String → Collapsed → Collapsed
toggle name collapsed n = if str_eq n name then not (collapsed name) else collapsed n

unfoldable pub toggle_all : List String → Collapsed → Collapsed
unfolding toggle
toggle_all [] collapsed = collapsed
toggle_all (name ∷ names) collapsed = toggle_all names (toggle name collapsed)

-- A group as it is shown: its button with the count, and its cards.
pub record Section : Type 0 where
  pub name : String
  pub expanded : Bool
  pub count : ℕ
  pub cards : List Server

unfoldable pub section_of : Collapsed → Group → Section
section_of collapsed g = record {
  name = g.name;
  expanded = not (collapsed g.name);
  count = length g.members;
  cards = if not (collapsed g.name) then g.members else [];
}

unfoldable pub sections_of : Collapsed → List Group → List Section
unfolding section_of
sections_of collapsed [] = []
sections_of collapsed (g ∷ gs) = section_of collapsed g ∷ sections_of collapsed gs
