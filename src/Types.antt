-- ===== src/Types.antt =====
-- ui/src/types/index.ts. An optional property, and one that may be `null`, is an `Option`.
use opsup.Prelude.{ℕ, String, Bool, true, false, Option, none, some}

pub data Protocol : Type 0 where
  ssh rdp : Protocol

pub record Server : Type 0 where
  pub id : ℕ
  pub protocol : Option Protocol
  pub rdp_domain : Option String
  pub rdp_cert_fingerprint : Option String
  pub name : String
  pub host_key : String
  pub host : String
  pub port : ℕ
  pub username : String
  pub auth_type : String
  pub description : String
  pub group : String
  pub jump_server_id : Option ℕ
  pub created_at : String
  pub updated_at : String

pub record ServerForm : Type 0 where
  pub protocol : Option Protocol
  pub rdp_domain : Option String
  pub rdp_cert_fingerprint : Option String
  pub name : String
  pub host_key : String
  pub host : String
  pub port : ℕ
  pub username : String
  pub auth_type : String
  pub private_key : String
  pub password : String
  pub copy_key_from : ℕ
  pub jump_server_id : Option ℕ
  pub group : String
  pub description : String

-- `server.protocol === 'rdp'`
abbrev pub is_rdp : Option Protocol → Bool
is_rdp none = false
is_rdp (some ssh) = false
is_rdp (some rdp) = true
