-- ===== src/Tabs/Workspace.antt =====
-- ui/src/pages/MainPage.tsx, lines 15 to 61, and ui/src/components/TerminalTabs.tsx, lines 38 to 44
-- and 67 to 77. The state updater of `setTabs` runs when it is queued, so a `setActiveKey` after it
-- is the later one. A key is the list of its code points.
use opsup.Prelude.{
  ℕ, ◌+◌, ◌-◌, ◌%◌, Bool, true, false, ◌&&◌, ◌||◌, Option, none, some, List, [], ◌∷◌, ◌++◌, ◌==◌,
  if◌then◌else◌, length, get_elem?,
}
use opsup.Prelude.Decimal.{decimal}
use opsup.Types.{Server}

pub record TabInfo : Type 0 where
  pub key : List ℕ
  pub server : Server

pub record Workspace : Type 0 where
  pub drawer_open : Bool
  pub tabs : List TabInfo
  pub active_key : List ℕ

abbrev pub first_workspace : Workspace
first_workspace = record { drawer_open = false; tabs = []; active_key = [] }

-- `===` on keys.
abbrev pub key_eq : List ℕ → List ℕ → Bool
key_eq [] [] = true
key_eq [] (y ∷ ys) = false
key_eq (x ∷ xs) [] = false
key_eq (x ∷ xs) (y ∷ ys) = (x == y) && key_eq xs ys

-- `${server.id}-${Date.now()}`
unfoldable pub make_key : ℕ → ℕ → List ℕ
make_key id now = decimal id ++ (b'-' ∷ decimal now)

-- `previous.find(tab => tab.server.id === server.id)`
unfoldable pub find_server : ℕ → List TabInfo → Option TabInfo
find_server id [] = none
find_server id (t ∷ ts) = if t.server.id == id then some t else find_server id ts

-- `openTerminal(server)`, at the time `now`.
unfoldable pub open_terminal : Server → ℕ → Workspace → Workspace
open_terminal server now w =
    let key = make_key server.id now in
    elim (find_server server.id w.tabs) [
      | some t ↦ record w { drawer_open = false; active_key = t.key }
      | none ↦ record {
        drawer_open = false;
        tabs = w.tabs ++ record { key = key; server = server } ∷ [];
        active_key = key;
      }
    ]

-- `previous.filter(tab => tab.key !== targetKey)`
unfoldable pub without : List ℕ → List TabInfo → List TabInfo
without key [] = []
without key (t ∷ ts) = let rest = without key ts in if key_eq t.key key then rest else t ∷ rest

-- The last element of `t ∷ ts`.
unfoldable pub last_tab : TabInfo → List TabInfo → TabInfo
last_tab t [] = t
last_tab t (u ∷ us) = last_tab u us

-- `closeTerminal(targetKey)`
unfoldable pub close_terminal : List ℕ → Workspace → Workspace
close_terminal key w = elim (without key w.tabs) [
  | [] ↦ record w { tabs = []; active_key = [] }
  | t ∷ ts ↦ record w {
    tabs = t ∷ ts;
    active_key = if key_eq w.active_key key then (last_tab t ts).key else w.active_key;
  }
]

-- `onSelect(key)`
abbrev pub select : List ℕ → Workspace → Workspace
select key w = record w { active_key = key }

-- `tabs[index + 1] || tabs[index - 1]`, where `index` is the place of the key; `before` is the tab
-- in front of the list.
unfoldable pub neighbour : List ℕ → Option TabInfo → List TabInfo → Option TabInfo
neighbour key before [] = none
neighbour key before (t ∷ ts) =
    let further = neighbour key (some t) ts in
    if key_eq t.key key then elim ts [ [] ↦ before | u ∷ _ ↦ some u ] else further

unfoldable pub has_key : List ℕ → List TabInfo → Bool
has_key key [] = false
has_key key (t ∷ ts) = key_eq t.key key || has_key key ts

-- `next` of `closeTab`; where the key is not there, `index` is -1.
abbrev pub next_tab : List ℕ → List TabInfo → Option TabInfo
next_tab key ts = if has_key key ts then neighbour key none ts else get_elem? ts 0

-- `closeTab(key)` of `TerminalTabs`.
unfoldable pub close_tab : List ℕ → Workspace → Workspace
close_tab key w = elim (next_tab key w.tabs) [
  | none ↦ close_terminal key w
  | some t ↦ select t.key (close_terminal key w)
]

-- The keys that a tab's label handles, without `Delete`.
pub data Arrow : Type 0 where
  arrow_right arrow_left home end : Arrow

-- `target`, for `count` tabs.
unfoldable pub target_index : Arrow → ℕ → ℕ → ℕ
target_index arrow_right index count = (index + 1) % count
target_index arrow_left index count = (index + count - 1) % count
target_index home index count = 0
target_index end index count = count - 1

-- `focusTab(tabs[target].key)`
unfoldable pub press : Arrow → ℕ → Workspace → Workspace
press arrow index w = elim (get_elem? w.tabs (target_index arrow index (length w.tabs))) [
  | none ↦ w
  | some t ↦ select t.key w
]
