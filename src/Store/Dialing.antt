-- ===== src/Store/Dialing.antt =====
-- internal/api/connection.go, and `hostKeyCallback`, `makeConfig` and the order of `Dial` and
-- `DialViaJump` of internal/sshclient/client.go, up to the network: which hosts are dialled, with which
-- configurations.
use opsup.Prelude.{
  ℕ, zero, suc, String, ◌⊎◌, inl, inr, Bool, true, false, not, Option, none, some, List, [], ◌∷◌,
  ◌==◌, str_eq, truthy, if◌then◌else◌,
}
use opsup.Types.{ssh, rdp}
use opsup.Servers.Texts.{is_nil}
use opsup.Store.Records.{Row, Table}
use opsup.Store.Saving.{get_server}

-- `sshclient.Config`
pub record Config : Type 0 where
  pub host : String
  pub port : ℕ
  pub username : String
  pub auth_type : String
  pub private_key : List ℕ
  pub password : String
  pub host_key : List ℕ

-- The errors: of the context, of the database, of a decryption, and the function's own.
pub data DialError (E : Type 0) : Type 0 where
  cancelled : String → DialError E
  not_found rdp_server self_jump jump_not_found two_jumps : DialError E
  load_jump : String → DialError E
  decrypt_private_key decrypt_password : ℕ → E → DialError E
  of_jump : DialError E → DialError E
  no_password : DialError E
  parse_key : String → DialError E
  unsupported_auth : String → DialError E

pub data Method (K : Type 0) : Type 0 where
  by_password : String → Method K
  by_key : K → Method K

-- A connection that is dialled: `ssh.ClientConfig` with its address; `pin` is what the callback of the
-- host key was made with.
pub record Hop (K : Type 0) : Type 0 where
  pub host : String
  pub port : ℕ
  pub user : String
  pub method : Method K
  pub pin : List ℕ

-- `sshclient.Dial` and `sshclient.DialViaJump`, with the connections in their order.
pub data Plan (K : Type 0) : Type 0 where
  direct : Hop K → Plan K
  via : Hop K → Hop K → Plan K

-- `hostKeyCallback(pin)`: whether the key with this fingerprint is taken.
abbrev pub same_bytes : List ℕ → List ℕ → Bool
same_bytes [] [] = true
same_bytes [] (d ∷ ds) = false
same_bytes (c ∷ cs) [] = false
same_bytes (c ∷ cs) (d ∷ ds) = if c == d then same_bytes cs ds else false

unfoldable pub host_key_callback : List ℕ → List ℕ → Bool
host_key_callback pin observed =
    if is_nil pin then false else if not (same_bytes pin observed) then false else true

-- `loadConnectionServer`: the columns that a connection needs; the others have their zero values.
unfoldable pub connection_columns : Row → Row
connection_columns s = record s {
  rdp_domain = "";
  rdp_cert_fingerprint = [];
  name = "";
  description = "";
  group = "";
  created_at = "";
  updated_at = "";
}

unfoldable pub load_connection_server : Option String → ℕ → Table → String ⊎ Option Row
unfolding connection_columns
load_connection_server fault id t = elim (get_server fault id t) [
  | inl error ↦ inl error
  | inr none ↦ inr none
  | inr (some s) ↦ inr (some (connection_columns s))
]

-- `decrypt` is `crypto.Decrypt` with the key of the backend, and `text` is Go's conversion of bytes to a
-- string.
module _ {E : Type 0} (decrypt : String → E ⊎ List ℕ) (text : List ℕ → String) where
  -- The two optional decryptions of `connectionConfig`.
  unfoldable pub key_bytes : Row → DialError E ⊎ List ℕ
  key_bytes s =
      if truthy s.private_key
      then elim (decrypt s.private_key) [
        | inl error ↦ inl (decrypt_private_key s.id error)
        | inr bytes ↦ inr bytes
      ]
      else inr []

  unfoldable pub password_text : Row → DialError E ⊎ String
  password_text s =
      if truthy s.password
      then elim (decrypt s.password) [
        | inl error ↦ inl (decrypt_password s.id error)
        | inr bytes ↦ inr (text bytes)
      ]
      else inr ""

  unfoldable pub connection_config : Row → DialError E ⊎ Config
  unfolding key_bytes password_text
  connection_config s = elim s.protocol [
    | rdp ↦ inl rdp_server
    | ssh ↦ elim (key_bytes s) [
      | inl error ↦ inl error
      | inr key ↦ elim (password_text s) [
        | inl error ↦ inl error
        | inr password ↦ inr (record {
          host = s.host;
          port = s.port;
          username = s.username;
          auth_type = s.auth_type;
          private_key = key;
          password = password;
          host_key = s.host_key;
        })
      ]
    ]
  ]

-- `id != nil && *id != 0`
abbrev pub names_jump : Option ℕ → Bool
names_jump none = false
names_jump (some zero) = false
names_jump (some (suc k)) = true

-- `parse` is `ssh.ParsePrivateKey`.
module _ {E K : Type 0} (parse : List ℕ → String ⊎ K) where
  -- `makeConfig`
  unfoldable pub make_method : Config → DialError E ⊎ Method K
  make_method c =
      if str_eq c.auth_type "password"
      then (if truthy c.password then inr (by_password c.password) else inl no_password)
      else if str_eq c.auth_type "key"
      then elim (parse c.private_key) [
        | inl error ↦ inl (parse_key error)
        | inr signer ↦ inr (by_key signer)
      ]
      else inl (unsupported_auth c.auth_type)

  unfoldable pub make_config : Config → DialError E ⊎ Hop K
  unfolding make_method
  make_config c = elim (make_method c) [
    | inl error ↦ inl error
    | inr method ↦ inr (record {
      host = c.host;
      port = c.port;
      user = c.username;
      method = method;
      pin = c.host_key;
    })
  ]

  unfoldable pub dial : Config → DialError E ⊎ Plan K
  unfolding make_config
  dial target = elim (make_config target) [ inl error ↦ inl error | inr hop ↦ inr (direct hop) ]

  unfoldable pub dial_via_jump : Config → Config → DialError E ⊎ Plan K
  unfolding make_config
  dial_via_jump jump target = elim (make_config target) [
    | inl error ↦ inl error
    | inr hop ↦ elim (make_config jump) [
      | inl error ↦ inl (of_jump error)
      | inr first ↦ inr (via first hop)
    ]
  ]

module _ {E K : Type 0} (decrypt : String → E ⊎ List ℕ) (text : List ℕ → String)
    (parse : List ℕ → String ⊎ K) where
  -- From the configuration of the jump server on. `late` is the error of the context by then.
  unfoldable pub jump_from : Option String → Config → DialError E ⊎ Config → DialError E ⊎ Plan K
  unfolding dial_via_jump
  jump_from late target (inl error) = inl (of_jump error)
  jump_from (some error) target (inr jump) = inl (cancelled error)
  jump_from none target (inr jump) = dial_via_jump parse jump target

  -- From the record of the jump server on.
  unfoldable pub dial_through : Option String → Row → Config → DialError E ⊎ Plan K
  unfolding connection_config jump_from
  dial_through late jump target =
      if names_jump jump.jump_server_id
      then inl two_jumps
      else jump_from late target (connection_config decrypt text jump)

  -- `dialServer(ctx, db, server, encKey)`
  unfoldable pub dial_server :
      Option String → Option String → Option String → Table → Option Row → DialError E ⊎ Plan K
  unfolding connection_config dial load_connection_server dial_through
  dial_server (some error) late fault t server = inl (cancelled error)
  dial_server none late fault t none = inl not_found
  dial_server none late fault t (some s) = elim (connection_config decrypt text s) [
    | inl error ↦ inl error
    | inr target ↦ elim s.jump_server_id [
      | none ↦ dial parse target
      | some zero ↦ dial parse target
      | some (suc k) ↦
          if suc k == s.id then inl self_jump else elim (load_connection_server fault (suc k) t) [
            | inl error ↦ inl (load_jump error)
            | inr none ↦ inl jump_not_found
            | inr (some jump) ↦ dial_through late jump target
          ]
    ]
  ]
