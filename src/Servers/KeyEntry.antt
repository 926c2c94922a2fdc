-- ===== src/Servers/KeyEntry.antt =====
-- ui/src/components/ServerFormModal.tsx, lines 42 to 58 and the inputs of lines 174 to 319 that are no
-- fields of the form: the key that is typed or read from a file, and the choices beside it. The box
-- of the key shows `privateKeyValue`; a submission reads `private_key` from the form's store.
use opsup.Prelude.{
  ℕ, zero, suc, ◌≡◌, refl, ◌∙◌, String, inr, Option, none, some, List, [], ◌∷◌, arith,
}
use opsup.Types.{Protocol, ssh, rdp, Server}
use opsup.Files.Paths.{trim}
use opsup.Servers.Form.{
  Modal, Values, AuthType, key, KeySource, new, Credentials, or_empty, credentials_of,
}
use opsup.Servers.Opening.{open_modal}

pub data Note : Type 0 where
  success failure : String → Note

-- The modal with what the form's store holds at `private_key` and at `port`; `reading` is how many
-- files are still being read.
pub record Entry : Type 0 where
  pub modal : Modal
  pub private_key : Option String
  pub port : ℕ
  pub reading : ℕ
  pub notes : List Note

-- The effect on opening; `resetFields` leaves no private key.
unfoldable pub opened : Option Server → Modal → Entry
opened server m = record {
  modal = open_modal server m;
  private_key = elim server [ none ↦ none | some s ↦ some "" ];
  port = elim server [ none ↦ 22 | some s ↦ s.port ];
  reading = 0;
  notes = [];
}

pub data Event : Type 0 where
  lists : Option (List Server) → Event
  types_key : String → Event
  picks_file : Event
  file_read : Option String → Event
  chooses_auth : AuthType → Event
  chooses_source : KeySource → Event
  chooses_server : ℕ → Event
  chooses_protocol : Protocol → Event
  chooses_jump : Option ℕ → Event

-- `setPrivateKeyValue(text)` and `form.setFieldValue('private_key', text)`
unfoldable pub set_key : String → Entry → Entry
set_key text e = record e {
  modal = record (e.modal) { private_key_value = text };
  private_key = some text;
}

-- `reader.onload` with the text of the file, and `reader.onerror`.
unfoldable pub on_read : Option String → Entry → Entry
unfolding set_key
on_read none e = record e { notes = failure "读取文件失败" ∷ e.notes }
on_read (some text) e =
    let typed = set_key (trim text) e in
    record typed {
      modal = record (typed.modal) { key_source = new };
      notes = success "密钥文件已导入" ∷ typed.notes;
    }

unfoldable pub react : Event → Entry → Entry
unfolding set_key on_read
react (lists none) e = record e { notes = failure "加载服务器列表失败" ∷ e.notes }
react (lists (some ss)) e = record e { modal = record (e.modal) { existing_servers = ss } }
react (types_key text) e = set_key text e
react picks_file e = record e { reading = suc e.reading }
react (file_read text) e = elim e.reading [
  | zero ↦ e
  | suc n ↦ on_read text (record e { reading = n })
]
react (chooses_auth a) e = record e { modal = record (e.modal) { auth_type = a } }
react (chooses_source s) e = record e { modal = record (e.modal) { key_source = s } }
react (chooses_server id) e = record e { modal = record (e.modal) { reuse_server_id = some id } }
react (chooses_protocol p) e = record e {
  modal = record (e.modal) { protocol = p };
  port = elim p [ rdp ↦ 3389 | ssh ↦ 22 ];
}
react (chooses_jump j) e = record e { modal = record (e.modal) { jump_server_id = j } }

unfoldable pub run : List Event → Entry → Entry
run [] e = e
run (x ∷ xs) e = run xs (react x e)

-- The box shows what the form's store holds.
abbrev IsShown : Entry → Type 0
IsShown e = or_empty e.private_key ≡ e.modal.private_key_value

on_read-IsShown : (text : Option String) (e : Entry) → IsShown e → IsShown (on_read text e)
unfolding on_read set_key
on_read-IsShown none e h = h
on_read-IsShown (some text) e h = refl

react-IsShown : (x : Event) (e : Entry) → IsShown e → IsShown (react x e)
unfolding react set_key
react-IsShown (lists none) e h = h
react-IsShown (lists (some ss)) e h = h
react-IsShown (types_key text) e h = refl
react-IsShown picks_file e h = h
react-IsShown (file_read text) e h = go e.reading
  where
    go : (n : ℕ) → IsShown (elim n [ zero ↦ e | suc n ↦ on_read text (record e { reading = n }) ])
    go zero = h
    go (suc n) = on_read-IsShown text (record e { reading = n }) h
react-IsShown (chooses_auth a) e h = h
react-IsShown (chooses_source s) e h = h
react-IsShown (chooses_server id) e h = h
react-IsShown (chooses_protocol p) e h = h
react-IsShown (chooses_jump j) e h = h

run-IsShown : (xs : List Event) (e : Entry) → IsShown e → IsShown (run xs e)
unfolding run
run-IsShown [] e h = h
run-IsShown (x ∷ xs) e h = run-IsShown xs (react x e) (react-IsShown x e h)

opened-IsShown : (server : Option Server) (m : Modal) → IsShown (opened server m)
unfolding opened open_modal
opened-IsShown none m = refl
opened-IsShown (some s) m = refl

credentials_of-pasted :
    (m : Modal) (v : Values) (pk : Option String) (c : Credentials)
    → m.protocol ≡ ssh
    → m.auth_type ≡ key
    → m.key_source ≡ new
    → credentials_of m v pk ≡ inr c
    → (c.private_key ≡ or_empty pk) × (c.copy_key_from ≡ 0) × (c.password ≡ "")
unfolding credentials_of
credentials_of-pasted m v pk c p a k q = (ground arith, ground arith, ground arith)

-- Since the form was opened, for a new server or for an edit, whatever was typed, chosen and read from
-- files, in any order: where a shell is to log in by a new key, the credentials that pass the tests of
-- `handleSubmit` are the key that the box shows, and no other.
pub opened-credentials_of :
    (server : Option Server) (m : Modal) (xs : List Event) (v : Values) (c : Credentials)
    → let e = run xs (opened server m) in
      e.modal.protocol ≡ ssh
      → e.modal.auth_type ≡ key
      → e.modal.key_source ≡ new
      → credentials_of e.modal v e.private_key ≡ inr c
      → (c.private_key ≡ e.modal.private_key_value) × (c.copy_key_from ≡ 0) × (c.password ≡ "")
opened-credentials_of server m xs v c p a k q =
    let e = run xs (opened server m) in
    let (sent, no_copy, no_password) = credentials_of-pasted e.modal v e.private_key c p a k q in
    (sent ∙ run-IsShown xs (opened server m) (opened-IsShown server m), no_copy, no_password)
