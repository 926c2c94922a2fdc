-- ===== src/Servers/Form.antt =====
-- ui/src/components/ServerFormModal.tsx, lines 24 to 25, 28 to 40 and 102 to 158: the state of the
-- form, `handleSubmit` and `reuseOptions`. A field that the form does not hold is `none`.
use opsup.Prelude.{
  ℕ, zero, suc, String, Bool, true, false, not, ◌&&◌, Option, none, some, List, [], ◌∷◌, ◌++◌, ◌==◌,
  truthy, or_text, if◌then◌else◌, ◌⊎◌, inl, inr,
}
use opsup.Types.{Protocol, ssh, rdp, Server, ServerForm, is_rdp}

pub data KeySource : Type 0 where
  new reuse : KeySource

pub data AuthType : Type 0 where
  key password : AuthType

-- The values of the form by the names of their fields; one that the form does not have is `none`.
-- `protocol`, `auth_type`, `copy_key_from` and `jump_server_id` are set by the submission and never
-- read from the form.
pub record Values : Type 0 where
  pub rdp_domain : Option String
  pub rdp_cert_fingerprint : Option String
  pub name : String
  pub host_key : Option String
  pub host : String
  pub port : ℕ
  pub username : String
  pub private_key : Option String
  pub password : Option String
  pub group : Option String
  pub description : Option String

-- The state that the component keeps beside the form.
pub record Modal : Type 0 where
  pub server : Option Server
  pub protocol : Protocol
  pub auth_type : AuthType
  pub key_source : KeySource
  pub existing_servers : List Server
  pub reuse_server_id : Option ℕ
  pub private_key_value : String
  pub jump_server_id : Option ℕ
  pub loading : Bool

-- What a submission does, in order.
pub data Call : Type 0 where
  sets_loading : Bool → Call
  creates : ServerForm → Call
  updates : ℕ → ServerForm → Call
  succeeds errs : String → Call
  on_ok : Call

-- How the server answers: it accepts, it refuses with a response whose `error` may be missing, or
-- it does not answer at all.
pub data Answer : Type 0 where
  accepted : Answer
  refused : Option String → Answer
  unreachable : Answer

abbrev pub auth_text : AuthType → String
auth_text key = "key"
auth_text password = "password"

abbrev pub is_edit : Modal → Bool
is_edit m = elim m.server [ none ↦ false | some s ↦ true ]

-- The truth value of `reuseServerId`, with its number: `null` and 0 are false.
abbrev pub chosen : Option ℕ → Option ℕ
chosen none = none
chosen (some zero) = none
chosen (some (suc n)) = some (suc n)

-- Where the credentials of the record to send come from.
pub record Credentials : Type 0 where
  pub auth_type : AuthType
  pub password : String
  pub private_key : String
  pub copy_key_from : ℕ

-- `text || ''`
abbrev pub or_empty : Option String → String
or_empty none = ""
or_empty (some text) = text

-- The tests of lines 109 to 136, for the values of the form and `pk`; on the left is the message of
-- an early return.
unfoldable pub credentials_of : Modal → Values → Option String → String ⊎ Credentials
credentials_of m v pk = elim m.protocol [
  | rdp ↦ inr (record { auth_type = password; password = ""; private_key = ""; copy_key_from = 0 })
  | ssh ↦ elim m.auth_type [
    | password ↦
        if not (is_edit m) && not (truthy (or_empty v.password))
        then inl "请输入密码"
        else inr (record {
          auth_type = password;
          password = or_empty v.password;
          private_key = "";
          copy_key_from = 0;
        })
    | key ↦
        let pasted =
          if not (is_edit m) && not (truthy (or_empty pk))
          then inl "请输入SSH私钥或选择复用已有密钥"
          else inr (record {
            auth_type = key;
            password = "";
            private_key = or_empty pk;
            copy_key_from = 0;
          }) in
        elim m.key_source [
          | new ↦ pasted
          | reuse ↦ elim (chosen m.reuse_server_id) [
            | none ↦ pasted
            | some id ↦
                inr
                  (record { auth_type = key; password = ""; private_key = ""; copy_key_from = id })
          ]
        ]
  ]
]

-- The record to send; a text that the form does not have is written as the empty one. `trim` is `String.prototype.trim`.
unfoldable pub record_of : (String → String) → Modal → Values → Credentials → ServerForm
record_of trim m v c = record {
  protocol = some m.protocol;
  rdp_domain = v.rdp_domain;
  rdp_cert_fingerprint = v.rdp_cert_fingerprint;
  name = v.name;
  host_key = elim m.protocol [ rdp ↦ "" | ssh ↦ trim (or_empty v.host_key) ];
  host = v.host;
  port = v.port;
  username = v.username;
  auth_type = auth_text c.auth_type;
  private_key = c.private_key;
  password = c.password;
  copy_key_from = c.copy_key_from;
  jump_server_id = elim m.protocol [ rdp ↦ none | ssh ↦ m.jump_server_id ];
  group = or_empty v.group;
  description = or_empty v.description;
}

-- The call of the API, by `isEdit`.
unfoldable pub save : Modal → ServerForm → Call
save m f = elim m.server [ none ↦ creates f | some s ↦ updates s.id f ]

abbrev pub after : Modal → Answer → List Call
after m accepted = succeeds (if is_edit m then "更新成功" else "添加成功") ∷ on_ok ∷ []
after m (refused error) = errs (elim error [ none ↦ "操作失败" | some text ↦ or_text text "操作失败" ]) ∷ []
after m unreachable = []

-- `handleSubmit`, for the values that passed the form's rules; `none` is a form whose rules fail,
-- an exception without a `response`.
unfoldable pub handle_submit :
    (String → String) → Modal → Option Values → Option String → Answer → List Call
handle_submit trim m none pk answer = sets_loading false ∷ []
handle_submit trim m (some v) pk answer = elim (credentials_of m v pk) [
  | inl text ↦ errs text ∷ sets_loading false ∷ []
  | inr c ↦
      sets_loading true ∷ save m (record_of trim m v c) ∷ after m answer ++ sets_loading false ∷ []
]

-- `!server || s.id !== server.id`
abbrev pub is_other : Option Server → Server → Bool
is_other none s = true
is_other (some server) s = not (s.id == server.id)

-- `reuseOptions`
unfoldable pub reuse_options : Option Server → List Server → List Server
reuse_options server [] = []
reuse_options server (s ∷ ss) =
    let rest = reuse_options server ss in
    if not (is_rdp s.protocol) && is_other server s then s ∷ rest else rest
