-- ===== src/Servers/Sidebar.antt =====
-- ui/src/components/ServerSidebar.tsx, lines 76 to 83: the search and the groups of servers
-- in the order in which their names come up. A text is searched by its code points.
use opsup.Prelude.{
  ℕ, String, Bool, true, false, not, ◌&&◌, ◌||◌, List, [], ◌∷◌, ◌++◌, ◌==◌, any, codes, str_eq,
  truthy, or_text, if◌then◌else◌,
}
use opsup.Types.{Server}

-- `text.includes(part)`
abbrev pub starts_with : List ℕ → List ℕ → Bool
starts_with [] text = true
starts_with (p ∷ ps) [] = false
starts_with (p ∷ ps) (c ∷ cs) = (p == c) && starts_with ps cs

abbrev pub includes : List ℕ → List ℕ → Bool
includes part [] = starts_with part []
includes part (c ∷ cs) = starts_with part (c ∷ cs) || includes part cs

-- `!query || [server.name, server.host, server.group || ''].some(…)`; `lower` is `toLowerCase`.
unfoldable pub matches : (String → String) → String → Server → Bool
matches lower search s =
    let query = lower search in
    not (truthy query)
    || any (λ value. includes (codes query) (codes (lower value))) (s.name ∷ s.host ∷ s.group ∷ [])

unfoldable pub filtered : (Server → Bool) → List Server → List Server
filtered keep [] = []
filtered keep (s ∷ ss) = let rest = filtered keep ss in if keep s then s ∷ rest else rest

-- `server.group || '未分组'`
abbrev pub group_name : Server → String
group_name s = or_text s.group "未分组"

-- An entry of `groupMap`.
pub record Group : Type 0 where
  pub name : String
  pub members : List Server

-- One round of the loop: the server's group is made if it is not there, and the server is pushed.
unfoldable pub place : Server → List Group → List Group
place s [] = record { name = group_name s; members = s ∷ [] } ∷ []
place s (g ∷ gs) =
    let further = place s gs in
    if str_eq g.name (group_name s)
    then record g { members = g.members ++ s ∷ [] } ∷ gs
    else g ∷ further

unfoldable pub place_all : List Server → List Group → List Group
place_all [] gs = gs
place_all (s ∷ ss) gs = place_all ss (place s gs)

-- `groupMap`, for a search among the servers.
unfoldable pub group_map : (String → String) → String → List Server → List Group
group_map lower search servers = place_all (filtered (matches lower search) servers) []
