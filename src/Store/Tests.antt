-- ===== src/Store/Tests.antt =====
-- Tables, requests on them, and instances of the theorems.
use Prim.Native.Char.{code}
use opsup.Prelude.{
  ℕ, zero, suc, ◌+◌, ◌≡◌, refl, sym, ap, ◌∙◌, String, ◌⊎◌, inl, inr, none, some, List, [], ◌∷◌,
  ◌++◌, ◌==◌, codes, arith, length, if◌then◌else◌,
}
use opsup.Prelude.Int.{pos, negsuc}
use opsup.Types.{ssh}
use opsup.Servers.Backend.{
  Valid, ServerRequest, protocol_of, validate, validate_ssh, validate_rdp, resolve_credentials,
  resolve_key, resolve_password,
}
use opsup.Servers.Texts.{
  drop_spaces, drop_end, trim_space, without, all, lower_all, decodes_32, is_host_key,
  normal_fingerprint, is_digest,
}
use opsup.Store.Records.{
  Row, Table, to_list_item, find_row, replace_row, update_server, remove_row, delete_server,
  create_server,
}
use opsup.Store.Saving.{
  failure, Faults, check_jump, row_of, commit, resolve, write, create, update, delete,
}
use opsup.Store.Rows.{ids}
use opsup.Store.Sound.{IsSound}
use opsup.Store.Answers.{IsProper, saved-IsProper}
use opsup.Store.Requests.{Request, creates, updates, deletes, serve, run, run-IsSound}
use opsup.Store.Secrets.{Library, IsLibrary, CryptoError, cipher_of, encrypt, open_data, decrypt}
use opsup.Store.Dialing.{
  Hop, by_password, direct, via, connection_columns, load_connection_server, key_bytes,
  password_text, connection_config, make_method, make_config, dial, dial_via_jump, jump_from,
  dial_through, dial_server,
}
use opsup.Store.Dialled.{IsPlanOf, dial_server-IsPlanOf}
use opsup.Store.RoundTrip.{enc_of, dec_of, Login, typed_password, create-dial_server}

abbrev fine : Faults
fine = record { get_current = none; get_jump = none; get_source = none; write = none }

abbrev form : ServerRequest
form = record {
  protocol = "";
  rdp_domain = "";
  rdp_cert_fingerprint = "";
  name = "web";
  host_key = "";
  host = "10.0.0.1";
  port = pos 0;
  username = "root";
  auth_type = "password";
  private_key = "";
  password = "hunter2";
  copy_key_from = pos 0;
  jump_server_id = none;
  group = "";
  description = "";
}

abbrev desktop : ServerRequest
desktop = record form { protocol = "rdp"; auth_type = ""; password = "" }

abbrev behind : ServerRequest
behind = record form { name = "db"; host = "10.0.0.2"; jump_server_id = some (pos 1) }

abbrev checked : Valid
checked = record {
  protocol = ssh;
  rdp_domain = "";
  port = 22;
  auth_type = "password";
  fingerprint = [];
  host_key = [];
  jump_server_id = none;
}

abbrev sealed : String → String ⊎ String
sealed secret = inr "ciphertext"

abbrev empty : Table
empty = record { rows = []; last_id = 0 }

all_steps : Unit {0}
unfolding protocol_of validate validate_ssh validate_rdp drop_spaces drop_end trim_space without all
    lower_all decodes_32 is_host_key normal_fingerprint is_digest resolve_credentials resolve_key
    resolve_password to_list_item find_row replace_row update_server remove_row delete_server
    create_server check_jump row_of commit resolve write create update delete serve run cipher_of
    encrypt open_data decrypt connection_columns load_connection_server key_bytes password_text
    connection_config make_method make_config dial dial_via_jump jump_from dial_through dial_server
all_steps = tt

-- A server, a desktop, a server behind the first, an edit that would jump through itself, a deletion,
-- and servers with a port, a protocol and a jump server that there are not.
abbrev requests : List Request
requests =
    creates fine "t1" (inr form)
    ∷ creates fine "t2" (inr desktop)
    ∷ creates fine "t3" (inr behind)
    ∷ updates fine "t4" (some 3) (inr (record behind { jump_server_id = some (pos 3) }))
    ∷ deletes none (some 2)
    ∷ creates fine "t5" (inr (record form { port = negsuc 0 }))
    ∷ creates fine "t6" (inr (record form { protocol = "vnc" }))
    ∷ creates fine "t7" (inr (record form { jump_server_id = some (negsuc 0) }))
    ∷ []

served : length (run sealed requests empty).rows ≡ 2
unfolding all_steps
served = refl

through_itself :
    (update sealed fine "t"
      (some 1)
      (inr (record form { jump_server_id = some (pos 1) }))
      (run sealed requests empty)).0.body
    ≡ failure "server cannot jump through itself"
unfolding all_steps
through_itself = refl

run-IsSound_example : IsSound (run sealed requests empty)
unfolding ids
run-IsSound_example =
    run-IsSound sealed requests empty (record { lawful = tt; known = tt; apart = tt; linked = tt })

-- The server behind the first is taken.
saved-IsProper_example : IsProper behind
unfolding all_steps
saved-IsProper_example =
    saved-IsProper sealed fine "t" none behind (run sealed requests empty) (inl refl)

-- A key's bytes are its own signer.
abbrev opened : String → String ⊎ List ℕ
opened ciphertext = inr (codes "hunter2")

abbrev shown : List ℕ → String
shown bytes = "hunter2"

abbrev parsed : List ℕ → String ⊎ List ℕ
parsed bytes = inr bytes

abbrev hop : String → Hop (List ℕ)
hop host = record {
  host = host;
  port = 22;
  user = "root";
  method = by_password "hunter2";
  pin = [];
}

-- The server with this id, where there is one.
abbrev at_id : ℕ → Row
at_id id = elim (find_row id (run sealed requests empty).rows) [
  | none ↦ row_of form checked (record { private_key = ""; password = "" }) 0
  | some s ↦ s
]

dial_server-IsPlanOf_example :
    IsPlanOf (run sealed requests empty) (at_id 3) (via (hop "10.0.0.1") (hop "10.0.0.2"))
unfolding all_steps
dial_server-IsPlanOf_example =
    dial_server-IsPlanOf opened shown parsed none none none (run sealed requests empty) (at_id 3)
      (via (hop "10.0.0.1") (hop "10.0.0.2")) refl

-- Bytes as digits and separators.
abbrev digits : ℕ → String → String
digits zero t = String.◌∷◌ ";" t
digits (suc n) t = String.◌∷◌ "1" (digits n t)

abbrev written : List ℕ → String
written [] = ""
written (n ∷ bytes) = digits n (written bytes)

abbrev scanned : ℕ → String → List ℕ
scanned k String.[] = []
scanned k (String.◌∷◌ c s) =
    let next = scanned 0 s in let on = scanned (suc k) s in if code c == 59 then k ∷ next else on

scanned-digits : (k n : ℕ) (t : String) → scanned k (digits n t) ≡ (k + n) ∷ scanned 0 t
scanned-digits k zero t = ap (λ j. j ∷ scanned 0 t) (omega arith)
scanned-digits k (suc n) t = scanned-digits (suc k) n t ∙ ap (λ j. j ∷ scanned 0 t) (omega arith)

scanned-written : (bytes : List ℕ) → scanned 0 (written bytes) ≡ bytes
scanned-written [] = refl
scanned-written (n ∷ bytes) =
    scanned-digits 0 n (written bytes)
    ∙ ap (λ j. j ∷ scanned 0 (written bytes)) (omega arith)
    ∙ ap (◌∷◌ n) (scanned-written bytes)

abbrev stamp : ℕ → List ℕ
stamp zero = []
stamp (suc n) = 9 ∷ stamp n

length-stamp : (n : ℕ) → length (stamp n) ≡ n
length-stamp zero = refl
length-stamp (suc n) = ap suc (length-stamp n)

abbrev fixed : ℕ → String ⊎ List ℕ
fixed n = inr (stamp n)

-- A mode that leaves the text as it is.
abbrev library : Library (List ℕ) (List ℕ)
library = record {
  decode_hex = λ s. inr (scanned 0 s);
  encode_hex = written;
  new_cipher = λ key. inr key;
  new_gcm = λ block. inr block;
  nonce_size = λ gcm. 2;
  seal = λ gcm nonce text. text;
  open_sealed = λ gcm nonce body. inr body;
}

library-IsLibrary : IsLibrary library fixed
library-IsLibrary = record {
  hex = λ bytes. ap inr (scanned-written bytes);
  size = λ n nonce e. let same : stamp n ≡ nonce = cc e in ap length (sym same) ∙ length-stamp n;
  opens = λ gcm nonce plaintext h. refl;
}

abbrev secret_text : String
secret_text = written (stamp 2 ++ codes "hunter2")

abbrev show : CryptoError → String
show error = "encryption failed"

login : Login library fixed "key" codes shown show parsed form checked (by_password "hunter2")
unfolding all_steps
login = typed_password secret_text refl refl refl refl refl refl

create-dial_server_example :
    let (answer, after) =
      create (enc_of library fixed "key" codes show) fine "t1" (inr form) empty in
    (answer.status ≡ 201)
    × (dial_server (dec_of library "key") shown parsed none none none after (find_row 1 after.rows)
        ≡ inr (direct (hop "10.0.0.1")))
unfolding all_steps ids
create-dial_server_example =
    create-dial_server library fixed "key" codes shown show parsed library-IsLibrary fine "t1" form
      checked (by_password "hunter2") empty
      (record { lawful = tt; known = tt; apart = tt; linked = tt }) refl refl refl login refl
