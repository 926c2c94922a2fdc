-- ===== src/Servers/Backend.antt =====
-- What the server does with a request: what JSON makes of the form's record, and `validate` and
-- `resolveCredentials` of internal/api/server_handler.go. Errors are their texts. A text is the list of its code points.
use opsup.Prelude.{
  ℕ, zero, suc, String, ◌⊎◌, inl, inr, true, false, not, ◌&&◌, ◌||◌, Option, none, some, List, [],
  codes, str_eq, truthy, if◌then◌else◌,
}
use opsup.Prelude.Int.{ℤ, pos, negsuc, pos_part, eq_ℤ, lt_ℤ}
use opsup.Types.{Protocol, ssh, rdp, ServerForm}
use opsup.Servers.Texts.{is_nil, trim_space, is_host_key, normal_fingerprint, is_digest}

abbrev pub text_of : Option String → String
text_of none = ""
text_of (some text) = text

-- `serverCreateReq`: any texts and numbers.
pub record ServerRequest : Type 0 where
  pub protocol : String
  pub rdp_domain : String
  pub rdp_cert_fingerprint : String
  pub name : String
  pub host : String
  pub port : ℤ
  pub username : String
  pub auth_type : String
  pub host_key : String
  pub private_key : String
  pub password : String
  pub copy_key_from : ℤ
  pub jump_server_id : Option ℤ
  pub group : String
  pub description : String

abbrev pub protocol_text : Option Protocol → String
protocol_text none = ""
protocol_text (some ssh) = "ssh"
protocol_text (some rdp) = "rdp"

-- The form's record through JSON: a text that is missing is the empty one, a number that is missing
-- no pointer.
abbrev pub decode : ServerForm → ServerRequest
decode r = record {
  protocol = protocol_text r.protocol;
  rdp_domain = text_of r.rdp_domain;
  rdp_cert_fingerprint = text_of r.rdp_cert_fingerprint;
  name = r.name;
  host = r.host;
  port = pos r.port;
  username = r.username;
  auth_type = r.auth_type;
  host_key = r.host_key;
  private_key = r.private_key;
  password = r.password;
  copy_key_from = pos r.copy_key_from;
  jump_server_id = elim r.jump_server_id [ none ↦ none | some j ↦ some (pos j) ];
  group = r.group;
  description = r.description;
}

-- What `validate` leaves in the request, with the fields that it changes or bounds.
pub record Valid : Type 0 where
  pub protocol : Protocol
  pub rdp_domain : String
  pub port : ℕ
  pub auth_type : String
  pub fingerprint : List ℕ
  pub host_key : List ℕ
  pub jump_server_id : Option ℕ

-- The protocol that a text stands for, SSH for the empty one.
unfoldable pub protocol_of : String → Option Protocol
protocol_of text =
    if not (truthy text) || str_eq text "ssh"
    then some ssh
    else if str_eq text "rdp"
    then some rdp
    else none

abbrev pub default_port : Protocol → ℤ → ℤ
default_port ssh (pos zero) = pos 22
default_port rdp (pos zero) = pos 3389
default_port p (pos (suc n)) = pos (suc n)
default_port p (negsuc n) = negsuc n

-- The id of a jump server as a number of the table; no id of the table is below 1.
abbrev pub jump_of : Option ℤ → Option ℕ
jump_of none = none
jump_of (some j) = some (pos_part j)

unfoldable pub validate_rdp : ServerRequest → ℕ → String ⊎ Valid
validate_rdp r port =
    let f = normal_fingerprint (codes r.rdp_cert_fingerprint) in
    if truthy r.password
      || (truthy r.private_key
          || (not (eq_ℤ r.copy_key_from (pos 0))
              || (truthy r.host_key || elim r.jump_server_id [ none ↦ false | some j ↦ true ])))
    then inl "RDP V1 does not store credentials or support SSH settings"
    else if not (is_nil f) && not (is_digest f)
    then inl "RDP certificate fingerprint must be SHA256 (64 hex digits)"
    else inr (record {
      protocol = rdp;
      rdp_domain = r.rdp_domain;
      port = port;
      auth_type = "password";
      fingerprint = f;
      host_key = codes r.host_key;
      jump_server_id = jump_of r.jump_server_id;
    })

unfoldable pub validate_ssh : ServerRequest → ℕ → String ⊎ Valid
validate_ssh r port =
    let auth_type = if truthy r.auth_type then r.auth_type else "key" in
    let host_key = trim_space (codes r.host_key) in
    if not (str_eq auth_type "key") && not (str_eq auth_type "password")
    then inl "auth_type must be key or password"
    else if not (is_nil host_key) && not (is_host_key host_key)
    then inl "host_key must be an SHA256 SSH host fingerprint"
    else if elim r.jump_server_id [ none ↦ false | some j ↦ not (lt_ℤ (pos 0) j) ]
    then inl "invalid jump_server_id"
    else inr (record {
      protocol = ssh;
      rdp_domain = "";
      port = port;
      auth_type = auth_type;
      fingerprint = [];
      host_key = host_key;
      jump_server_id = jump_of r.jump_server_id;
    })

-- `validate()`
unfoldable pub validate : ServerRequest → String ⊎ Valid
unfolding validate_rdp validate_ssh protocol_of
validate r = elim (protocol_of r.protocol) [
  | none ↦ inl "protocol must be ssh or rdp"
  | some protocol ↦
      let port = default_port protocol r.port in
      if lt_ℤ port (pos 1) || lt_ℤ (pos 65535) port
      then inl "port must be between 1 and 65535"
      else elim protocol [
        | rdp ↦ validate_rdp r (pos_part port)
        | ssh ↦ validate_ssh r (pos_part port)
      ]
]

-- The credentials of a stored server, encrypted.
pub record Stored : Type 0 where
  pub private_key : String
  pub password : String

-- `resolveCredentials`, for a valid request. `encrypt` is `crypto.Encrypt` with the key, and
-- `find` is `models.GetServer`; on the left is an error.
module _ (encrypt : String → String ⊎ String) (find : ℕ → String ⊎ Option Stored) where
  abbrev pub required : String → String → Stored → String ⊎ Stored
  required secret text s = if truthy secret then inr s else inl text

  unfoldable pub resolve_password : String → Stored → String ⊎ Stored
  resolve_password text s =
      if truthy text
      then elim (encrypt text) [
        | inl failure ↦ inl failure
        | inr secret ↦
            required secret "password is required for password auth"
              (record s { password = secret })
      ]
      else required s.password "password is required for password auth" s

  unfoldable pub resolve_key : String → ℤ → Stored → String ⊎ Stored
  resolve_key text copy_from s =
      if truthy text
      then elim (encrypt text) [
        | inl failure ↦ inl failure
        | inr secret ↦
            required secret "private_key or copy_key_from is required"
              (record s { private_key = secret })
      ]
      else if lt_ℤ (pos 0) copy_from
      then elim (find (pos_part copy_from)) [
        | inl failure ↦ inl failure
        | inr none ↦ inl "source server has no private key"
        | inr (some source) ↦
            if truthy source.private_key
            then inr (record s { private_key = source.private_key })
            else inl "source server has no private key"
      ]
      else required s.private_key "private_key or copy_key_from is required" s

  abbrev pub nothing_stored : Stored
  nothing_stored = record { private_key = ""; password = "" }

  unfoldable pub resolve_credentials : Valid → ServerRequest → Option Stored → String ⊎ Stored
  unfolding resolve_password resolve_key
  resolve_credentials v r current = elim v.protocol [
    | rdp ↦ inr nothing_stored
    | ssh ↦
        let s : Stored = elim current [ none ↦ nothing_stored | some c ↦ c ] in
        if str_eq v.auth_type "password"
        then resolve_password r.password s
        else resolve_key r.private_key r.copy_key_from s
  ]
