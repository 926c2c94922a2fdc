-- ===== src/Store/Saving.antt =====
-- internal/api/server_handler.go, lines 153 to 240: `saveServer` and `DeleteServer`. A response is its
-- status with what it shows.
use opsup.Prelude.{ℕ, zero, suc, String, ◌⊎◌, inl, inr, Option, none, some, ◌==◌, if◌then◌else◌}
use opsup.Types.{ssh, rdp}
use opsup.Servers.Backend.{Valid, ServerRequest, validate, Stored, resolve_credentials}
use opsup.Store.Records.{
  Row, ListItem, to_list_item, Table, find_row, create_server, update_server, delete_server,
}

pub data Body : Type 0 where
  failure : String → Body
  item : ListItem → Body
  message : String → Body

pub record Response : Type 0 where
  pub status : ℕ
  pub body : Body

abbrev pub refuse : ℕ → String → Response
refuse status text = record { status = status; body = failure text }

-- Which statements of a request fail, with their errors.
pub record Faults : Type 0 where
  pub get_current : Option String
  pub get_jump : Option String
  pub get_source : Option String
  pub write : Option String

-- `models.GetServer(db, id)`
abbrev pub get_server : Option String → ℕ → Table → String ⊎ Option Row
get_server (some error) id t = inl error
get_server none id t = inr (find_row id t.rows)

-- The credentials of what is found.
abbrev pub stored : Row → Stored
stored s = record { private_key = s.private_key; password = s.password }

abbrev pub to_stored : String ⊎ Option Row → String ⊎ Option Stored
to_stored (inl error) = inl error
to_stored (inr none) = inr none
to_stored (inr (some s)) = inr (some (stored s))

-- `*req.JumpServerID == id`, and the server that is found; on the left is the response's text.
unfoldable pub check_jump : Faults → ℕ → Option ℕ → Table → String ⊎ Unit {0}
check_jump f id none t = inr tt
check_jump f id (some j) t =
    if j == id then inl "server cannot jump through itself" else elim (get_server f.get_jump j t) [
      | inl error ↦ inl "jump server not found"
      | inr none ↦ inl "jump server not found"
      | inr (some jump) ↦ elim jump.protocol [ rdp ↦ inl "jump server not found" | ssh ↦ inr tt ]
    ]

-- The record that is written.
unfoldable pub row_of : ServerRequest → Valid → Stored → ℕ → Row
row_of r v s id = record {
  protocol = v.protocol;
  rdp_domain = v.rdp_domain;
  rdp_cert_fingerprint = v.fingerprint;
  id = id;
  name = r.name;
  host = r.host;
  port = v.port;
  username = r.username;
  auth_type = v.auth_type;
  host_key = v.host_key;
  private_key = s.private_key;
  password = s.password;
  description = r.description;
  group = r.group;
  jump_server_id = v.jump_server_id;
  created_at = "";
  updated_at = "";
}

-- The id of the server that is updated, and 0 for a new one.
abbrev pub id_of : Option Row → ℕ
id_of none = 0
id_of (some c) = c.id

-- From the record on: the statement, and the response.
unfoldable pub commit : Faults → String → Row → Option Row → Table → Response × Table
commit f now s current t = elim f.write [
  | some error ↦ (refuse 500 error, t)
  | none ↦ elim current [
    | none ↦
        let (created, t') = create_server s now t in
        (record { status = 201; body = item (to_list_item created) }, t')
    | some c ↦ (record { status = 200; body = item (to_list_item s) }, update_server s now t)
  ]
]

-- `encrypt` is `crypto.Encrypt` with the key.
module _ (encrypt : String → String ⊎ String) where
  -- `resolveCredentials` on the table.
  unfoldable pub resolve : Faults → ServerRequest → Valid → Option Row → Table → String ⊎ Stored
  resolve f r v current t =
      resolve_credentials encrypt (λ j. to_stored (get_server f.get_source j t)) v r
        (elim current [ none ↦ none | some c ↦ some (stored c) ])

  -- From the check of the jump server on, for a request that `validate` took; `current` is the server
  -- that is updated.
  unfoldable pub write :
      Faults → String → ServerRequest → Valid → Option Row → Table → Response × Table
  write f now r v current t = elim (check_jump f (id_of current) v.jump_server_id t) [
    | inl error ↦ (refuse 400 error, t)
    | inr _ ↦ elim (resolve f r v current t) [
      | inl error ↦ (refuse 400 error, t)
      | inr s ↦ commit f now (row_of r v s (id_of current)) current t
    ]
  ]

  -- `saveServer(encKey, false)` and `saveServer(encKey, true)`; the request is what `ShouldBindJSON`
  -- gives, an error or the record, and the id is `none` where it is no number.
  unfoldable pub create : Faults → String → String ⊎ ServerRequest → Table → Response × Table
  unfolding write
  create f now (inl error) t = (refuse 400 error, t)
  create f now (inr r) t = elim (validate r) [
    | inl error ↦ (refuse 400 error, t)
    | inr v ↦ write f now r v none t
  ]

  unfoldable pub update :
      Faults → String → Option ℕ → String ⊎ ServerRequest → Table → Response × Table
  unfolding write
  update f now param (inl error) t = (refuse 400 error, t)
  update f now param (inr r) t = elim (validate r) [
    | inl error ↦ (refuse 400 error, t)
    | inr v ↦ elim param [
      | none ↦ (refuse 400 "invalid id", t)
      | some zero ↦ (refuse 400 "invalid id", t)
      | some (suc n) ↦ elim (get_server f.get_current (suc n) t) [
        | inl error ↦ (refuse 500 error, t)
        | inr none ↦ (refuse 404 "server not found", t)
        | inr (some c) ↦ write f now r v (some c) t
      ]
    ]
  ]

-- `DeleteServer`
unfoldable pub delete : Option String → Option ℕ → Table → Response × Table
delete fault none t = (refuse 400 "invalid id", t)
delete fault (some zero) t = (refuse 400 "invalid id", t)
delete fault (some (suc n)) t = elim fault [
  | some error ↦ (refuse 500 error, t)
  | none ↦ (record { status = 200; body = message "deleted" }, delete_server (suc n) t)
]
