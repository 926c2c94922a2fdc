-- ===== src/Servers/Opening.antt =====
-- ui/src/components/ServerFormModal.tsx, lines 60 to 100: what opening the form sets, and the fields
-- that are on the page, lines 203 to 241.
use opsup.Prelude.{String, Option, none, some, [], ◌∷◌, str_eq, if◌then◌else◌}
use opsup.Types.{Protocol, ssh, rdp, Server}
use opsup.Servers.Form.{Values, Modal, AuthType, key, password, new, reuse, chosen}

-- `server?.protocol || 'ssh'`
abbrev pub protocol_of : Option Protocol → Protocol
protocol_of none = ssh
protocol_of (some p) = p

-- `(server.auth_type as AuthType) || 'key'`; the API stores one of the two names.
abbrev pub auth_of : String → AuthType
auth_of text = if str_eq text "password" then password else key

abbrev or_nothing : Option String → Option String
or_nothing none = some ""
or_nothing (some text) = some text

-- `form.setFieldsValue` for a server that is edited.
unfoldable pub edited_values : Server → Values
edited_values s = record {
  rdp_domain = or_nothing s.rdp_domain;
  rdp_cert_fingerprint = or_nothing s.rdp_cert_fingerprint;
  name = s.name;
  host_key = some s.host_key;
  host = s.host;
  port = s.port;
  username = s.username;
  private_key = some "";
  password = some "";
  group = some s.group;
  description = some s.description;
}

-- The effect on the modal's state. `setExistingServers` comes later, by the answer of the API.
unfoldable pub open_modal : Option Server → Modal → Modal
open_modal none m = record m {
  server = none;
  protocol = ssh;
  auth_type = key;
  key_source = elim m.existing_servers [ [] ↦ new | _ ∷ _ ↦ reuse ];
  reuse_server_id = none;
  private_key_value = "";
  jump_server_id = none;
}
open_modal (some s) m = record m {
  server = some s;
  protocol = protocol_of s.protocol;
  auth_type = auth_of s.auth_type;
  key_source = new;
  reuse_server_id = none;
  private_key_value = "";
  jump_server_id = chosen s.jump_server_id;
}

-- The fields on the page, which are those that antd's `validateFields` collects: the domain and the
-- certificate of a desktop, the host key of a shell, and the password where it is the way to log in.
unfoldable pub mounted : Modal → Values → Values
mounted m v = elim m.protocol [
  | rdp ↦ record v { host_key = none; private_key = none; password = none }
  | ssh ↦ record v {
    rdp_domain = none;
    rdp_cert_fingerprint = none;
    private_key = none;
    password = elim m.auth_type [ key ↦ none | password ↦ v.password ];
  }
]
