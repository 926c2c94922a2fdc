-- ===== src/Servers/Tests.antt =====
-- The form on concrete servers and values.
use opsup.Prelude.{
  String, ℕ, ◌⊎◌, inr, codes, Option, ◌≡◌, refl, true, false, none, some, [], ◌∷◌, All, List,
  length,
}
use opsup.Types.{ssh, rdp, Server}
use opsup.Servers.Form.{
  Modal, key, password, reuse, handle_submit, credentials_of, record_of, save, reuse_options,
  sets_loading, errs, accepted, unreachable,
}
use opsup.Servers.Form.{Values, Credentials}
use opsup.Files.Paths.{trim}
use opsup.Servers.Patterns.{is_base64, fits, host_key_pattern}
use opsup.Servers.Backend.{Valid, decode, Stored, resolve_credentials}
use opsup.Servers.Stored.{blank_edit-resolve_credentials}
use opsup.Servers.Opening.{open_modal, edited_values, mounted}
use opsup.Servers.Credentials.{IsSent, Updates, handle_submit-IsSent, edit_unchanged}
use opsup.Servers.Sidebar.{matches, filtered, place, place_all, group_map}
use opsup.Servers.Folding.{ungrouped}
use opsup.Prelude.Int.{ℤ, sub_ℕ}
use opsup.Servers.LongPress.{
  Press, touch_start, touch_end, timer_fires, menu_changes, clicks, react, run, lifts,
  long_press_click,
}
use opsup.Servers.Actions.{
  lists, tests, test, delete, offers, choose, answers, chooses, confirms, delete_answers,
  react as react_list, run as run_list, mount as empty_list,
}
use opsup.Servers.KeyEntry.{
  picks_file, file_read, set_key, on_read, opened, react as react_entry, run as run_entry,
  opened-credentials_of,
}
use opsup.Servers.Shells.{IsSound, run-mount-IsSound}

abbrev stored : Server
stored = record {
  id = 4;
  protocol = some ssh;
  rdp_domain = none;
  rdp_cert_fingerprint = none;
  name = "db";
  host_key = "";
  host = "10.0.0.7";
  port = 22;
  username = "root";
  auth_type = "password";
  description = "";
  group = "prod";
  jump_server_id = some 0;
  created_at = "";
  updated_at = "";
}

abbrev desktop : Server
desktop = record stored { id = 5; protocol = some rdp }

abbrev empty : Modal
empty = record {
  server = none;
  protocol = ssh;
  auth_type = key;
  key_source = reuse;
  existing_servers = stored ∷ [];
  reuse_server_id = some 4;
  private_key_value = "";
  jump_server_id = none;
  loading = false;
}

abbrev trimmed : String → String
trimmed text = text

all_steps : Unit {0}
unfolding handle_submit credentials_of record_of save reuse_options open_modal edited_values mounted
all_steps = tt

handle_submit-IsSent_example :
    All IsSent (handle_submit trimmed empty (some (edited_values stored)) none accepted)
handle_submit-IsSent_example =
    handle_submit-IsSent trimmed empty (some (edited_values stored)) none accepted

no_password :
    handle_submit trimmed
      (record empty { auth_type = password })
      (some (edited_values stored))
      none
      accepted
    ≡ errs "请输入密码" ∷ sets_loading false ∷ []
unfolding all_steps
no_password = refl

edit_unchanged_example : Updates trimmed stored (open_modal (some stored) empty) unreachable
edit_unchanged_example = edit_unchanged trimmed stored empty unreachable

-- A desktop has no key, and no server copies its own.
only_others : length (reuse_options (some desktop) (desktop ∷ stored ∷ [])) ≡ 1
unfolding all_steps
only_others = refl

-- The two servers share a group, which is counted once.
abbrev servers : List Server
servers = stored ∷ desktop ∷ record stored { id = 6; name = "web"; group = "" } ∷ []

searched : length (group_map trimmed "" servers) ≡ 2
unfolding group_map place_all place filtered matches
searched = refl

-- Names by their lengths.
abbrev by_length : String → String → ℤ
by_length a b = sub_ℕ (length (codes a)) (length (codes b))

abbrev pressed : List String
pressed = "prod" ∷ ungrouped ∷ "prod" ∷ []

abbrev untouched : Press
untouched = record { touch_menu_id = none; timer = none; fired = false }

long_press_click_example :
    let held = run (touch_start 4 1 ∷ timer_fires ∷ []) untouched in
    let first = react (clicks 4) (run (touch_end ∷ menu_changes 4 false ∷ []) held) in
    (held.touch_menu_id ≡ some 4) × (first.1 ≡ none) × ((react (clicks 5) first.0).1 ≡ some 5)
unfolding lifts
long_press_click_example =
    long_press_click untouched 4 0 (touch_end ∷ menu_changes 4 false ∷ []) 4 5 refl

-- One digit less is refused.
short_key :
    fits host_key_pattern (codes "SHA256:AbCdEfGhIjKlMnOpQrStUvWxYz0123456789+/ABCD") ≡ false
unfolding is_base64
short_key = refl

-- A new shell that copies the key of server 4.
abbrev filled : Values
filled = record (edited_values stored) {
  host_key = some "SHA256:AbCdEfGhIjKlMnOpQrStUvWxYz0123456789+/ABCDE";
}

abbrev copied : Credentials
copied = record { auth_type = key; password = ""; private_key = ""; copy_key_from = 4 }

abbrev sealed : String → String ⊎ String
sealed text = inr "secret"

abbrev keys : ℕ → String ⊎ Option Stored
keys id = inr (some (record { private_key = "key"; password = "" }))

-- An edit of server 4 that leaves the password empty.
abbrev untyped : Credentials
untyped = record { auth_type = password; password = ""; private_key = ""; copy_key_from = 0 }

abbrev held : Stored
held = record { private_key = ""; password = "secret" }

abbrev checked : Valid
checked = record {
  protocol = ssh;
  rdp_domain = "";
  port = 22;
  auth_type = "password";
  fingerprint = [];
  host_key = [];
  jump_server_id = none;
}

blank_edit-resolve_credentials_example :
    let r =
      decode (record_of trim (open_modal (some stored) empty) (edited_values stored) untyped) in
    resolve_credentials sealed keys checked r (some held) ≡ inr held
unfolding all_steps
blank_edit-resolve_credentials_example =
    blank_edit-resolve_credentials sealed keys (open_modal (some stored) empty)
      (edited_values stored) none untyped held refl refl refl refl refl refl checked refl refl refl

run-mount-IsSound_example : IsSound (
    run_list
      (answers (some (some (stored ∷ desktop ∷ [])))
        ∷ chooses test stored
        ∷ chooses test desktop
        ∷ chooses delete stored
        ∷ confirms true
        ∷ delete_answers
        ∷ [])
      empty_list)
run-mount-IsSound_example = run-mount-IsSound _

-- The desktop was not tested.
calls_made :
    (run_list (chooses test desktop ∷ chooses test stored ∷ []) empty_list).made
    ≡ lists ∷ tests stored ∷ []
unfolding run_list empty_list react_list offers choose
calls_made = refl

-- A key that is read from a file for a new shell, with white space around it.
abbrev imported : Credentials
imported = record { auth_type = key; password = ""; private_key = "KEY"; copy_key_from = 0 }

opened-credentials_of_example :
    let e = run_entry (picks_file ∷ file_read (some " KEY\n") ∷ []) (opened none empty) in
    (imported.private_key ≡ e.modal.private_key_value)
    × (imported.copy_key_from ≡ 0)
    × (imported.password ≡ "")
unfolding all_steps opened run_entry react_entry on_read set_key trim
opened-credentials_of_example =
    opened-credentials_of none empty (picks_file ∷ file_read (some " KEY\n") ∷ []) filled imported
      refl refl refl refl
