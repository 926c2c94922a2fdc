-- ===== src/Store/Records.antt =====
-- internal/models/server.go: the table of servers, and the statements on it. Texts that the backend
-- rewrites are lists of code points. A statement that fails is a fault of the caller's.
use opsup.Prelude.{ℕ, suc, String, Option, none, some, List, [], ◌∷◌, ◌++◌, ◌==◌, if◌then◌else◌}
use opsup.Types.{Protocol}

-- `models.Server`
pub record Row : Type 0 where
  pub protocol : Protocol
  pub rdp_domain : String
  pub rdp_cert_fingerprint : List ℕ
  pub id : ℕ
  pub name : String
  pub host : String
  pub port : ℕ
  pub username : String
  pub auth_type : String
  pub host_key : List ℕ
  pub private_key : String
  pub password : String
  pub description : String
  pub group : String
  pub jump_server_id : Option ℕ
  pub created_at : String
  pub updated_at : String

-- `models.ServerListItem`: what a response shows of a server.
pub record ListItem : Type 0 where
  pub protocol : Protocol
  pub rdp_domain : String
  pub rdp_cert_fingerprint : List ℕ
  pub id : ℕ
  pub name : String
  pub host : String
  pub port : ℕ
  pub username : String
  pub auth_type : String
  pub host_key : List ℕ
  pub description : String
  pub group : String
  pub jump_server_id : Option ℕ
  pub created_at : String
  pub updated_at : String

-- `ToListItem()`
unfoldable pub to_list_item : Row → ListItem
to_list_item s = record {
  protocol = s.protocol;
  rdp_domain = s.rdp_domain;
  rdp_cert_fingerprint = s.rdp_cert_fingerprint;
  id = s.id;
  name = s.name;
  host = s.host;
  port = s.port;
  username = s.username;
  auth_type = s.auth_type;
  host_key = s.host_key;
  description = s.description;
  group = s.group;
  jump_server_id = s.jump_server_id;
  created_at = s.created_at;
  updated_at = s.updated_at;
}

-- The table, in the order of insertion, and the last id that `AUTOINCREMENT` gave.
pub record Table : Type 0 where
  pub rows : List Row
  pub last_id : ℕ

-- `SELECT … WHERE id = ?`
unfoldable pub find_row : ℕ → List Row → Option Row
find_row id [] = none
find_row id (s ∷ rows) = let further = find_row id rows in if s.id == id then some s else further

-- `UPDATE servers SET … WHERE id=?`; `created_at` is not set.
unfoldable pub replace_row : Row → String → List Row → List Row
replace_row s now [] = []
replace_row s now (old ∷ rows) =
    let rest = replace_row s now rows in
    (if old.id == s.id then record s { created_at = old.created_at; updated_at = now } else old)
    ∷ rest

-- `DELETE FROM servers WHERE id = ?`
unfoldable pub remove_row : ℕ → List Row → List Row
remove_row id [] = []
remove_row id (s ∷ rows) = let rest = remove_row id rows in if s.id == id then rest else s ∷ rest

-- `CreateServer(db, s)`: the server has its id then.
unfoldable pub create_server : Row → String → Table → Row × Table
create_server s now t =
    let id = suc t.last_id in
    (
      record s { id = id },
      record {
        rows = t.rows ++ record s { id = id; created_at = now; updated_at = now } ∷ [];
        last_id = id;
      },
    )

-- `UpdateServer(db, s)`
unfoldable pub update_server : Row → String → Table → Table
update_server s now t = record t { rows = replace_row s now t.rows }

-- `DeleteServer(db, id)`
unfoldable pub delete_server : ℕ → Table → Table
delete_server id t = record t { rows = remove_row id t.rows }
