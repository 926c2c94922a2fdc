-- ===== src/Servers/Accepted.antt =====
-- The server accepts what the form sends: `handleSubmit` of ui/src/components/ServerRequestModal.tsx meets
-- `validate` of internal/api/server_handler.go.
use opsup.Prelude.{ℕ, String, Bool, ◌&&◌, ◌||◌, Option, none, List, [], codes, truthy}
use opsup.Prelude.Int.{ℤ, pos, pos_part, lt_ℤ}
use opsup.Types.{Protocol, ssh, rdp}
use opsup.Files.Paths.{trim}
use opsup.Servers.Form.{Modal, Values, AuthType, Credentials, auth_text, or_empty, record_of}
use opsup.Servers.Patterns.{fits, host_key_pattern, is_fingerprint, passes}
use opsup.Servers.Backend.{Valid, ServerRequest, decode, default_port, jump_of}
use opsup.Servers.Texts.{trim_space, normal_fingerprint}

-- What is left of a request for a shell, and of one for a desktop.
abbrev shell : ServerRequest → ℕ → AuthType → Valid
shell r port a = record {
  protocol = ssh;
  rdp_domain = "";
  port = port;
  auth_type = auth_text a;
  fingerprint = [];
  host_key = trim_space (codes r.host_key);
  jump_server_id = jump_of r.jump_server_id;
}

abbrev stored_fingerprint : ServerRequest → List ℕ
stored_fingerprint r = normal_fingerprint (codes r.rdp_cert_fingerprint)

abbrev desktop : ServerRequest → ℕ → Valid
desktop r port = record {
  protocol = rdp;
  rdp_domain = r.rdp_domain;
  port = port;
  auth_type = "password";
  fingerprint = stored_fingerprint r;
  host_key = [];
  jump_server_id = none;
}

-- The port of a form, as `validate` leaves it.
abbrev port_of : Protocol → ℕ → ℕ
port_of p n = pos_part (default_port p (pos n))

abbrev refused_port : ℤ → Bool
refused_port port = lt_ℤ port (pos 1) || lt_ℤ (pos 65535) port

-- The two parts of the rules.
abbrev named : Values → Bool
named v = truthy v.name && (truthy v.host && truthy v.username)

abbrev field_fits : Protocol → Values → Bool
field_fits ssh v = passes (fits host_key_pattern) (codes (or_empty v.host_key))
field_fits rdp v = passes is_fingerprint (codes (or_empty v.rdp_cert_fingerprint))

-- The request of a form, for a shell and for a desktop.
module _ (m : Modal) (v : Values) (pk : Option String) (c : Credentials) where
  abbrev request : ServerRequest
  request = decode (record_of trim m v c)
