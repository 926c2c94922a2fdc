-- ===== src/Api/Calls.antt =====
-- ui/src/api/servers.ts, ui/src/api/files.ts and ui/src/api/auth.ts: the requests of the client. A path
-- is the list of its parts between the slashes, and a text the list of its code points.
use opsup.Prelude.{ℕ, Option, none, some, List, [], ◌∷◌, String, codes}
use opsup.Prelude.Decimal.{decimal}
use opsup.Types.{ServerForm}

pub data Method : Type 0 where
  get post put delete : Method

-- What a request carries; `file` stands for the file of a form.
pub data Payload : Type 0 where
  nothing : Payload
  server : ServerForm → Payload
  credentials : String → String → Payload
  path_of : List ℕ → Payload
  upload : List ℕ → ℕ → Payload

pub record Request : Type 0 where
  pub method : Method
  pub path : List (List ℕ)
  pub query : Option (List ℕ)
  pub payload : Payload

-- The exported functions of ui/src/api/servers.ts, ui/src/api/files.ts and ui/src/api/auth.ts, with
-- their arguments.
pub data ServerCall : Type 0 where
  list_servers : ServerCall
  get_server : ℕ → ServerCall
  create_server : ServerForm → ServerCall
  update_server : ℕ → ServerForm → ServerCall
  delete_server : ℕ → ServerCall
  test_connection : ℕ → ServerCall

pub data FileCall : Type 0 where
  list_files : ℕ → List ℕ → FileCall
  upload_file : ℕ → List ℕ → ℕ → FileCall
  download_file : ℕ → List ℕ → FileCall
  create_dir : ℕ → List ℕ → FileCall
  delete_file : ℕ → List ℕ → FileCall

pub data AuthCall : Type 0 where
  get_auth_status : AuthCall
  setup : String → String → AuthCall
  login : String → String → AuthCall

pub data Call : Type 0 where
  of_servers : ServerCall → Call
  of_files : FileCall → Call
  of_auth : AuthCall → Call

-- A request of the client, whose `baseURL` is `/api`.
abbrev pub send : Method → List (List ℕ) → Option (List ℕ) → Payload → Request
send method parts query payload = record {
  method = method;
  path = codes "api" ∷ parts;
  query = query;
  payload = payload;
}

-- `/servers/${id}` with what follows
abbrev pub of_server : ℕ → List (List ℕ) → List (List ℕ)
of_server id parts = codes "servers" ∷ decimal id ∷ parts

unfoldable pub server_request : ServerCall → Request
server_request list_servers = send get (codes "servers" ∷ []) none nothing
server_request (get_server id) = send get (of_server id []) none nothing
server_request (create_server r) = send post (codes "servers" ∷ []) none (server r)
server_request (update_server id r) = send put (of_server id []) none (server r)
server_request (delete_server id) = send delete (of_server id []) none nothing
server_request (test_connection id) = send post (of_server id (codes "test" ∷ [])) none nothing

unfoldable pub file_request : FileCall → Request
file_request (list_files id path) = send get (of_server id (codes "files" ∷ [])) (some path) nothing
file_request (upload_file id dir file) =
    send post (of_server id (codes "files" ∷ codes "upload" ∷ [])) none (upload dir file)
file_request (download_file id path) =
    send get (of_server id (codes "files" ∷ codes "download" ∷ [])) (some path) nothing
file_request (create_dir id path) =
    send post (of_server id (codes "files" ∷ codes "mkdir" ∷ [])) none (path_of path)
file_request (delete_file id path) =
    send delete (of_server id (codes "files" ∷ [])) (some path) nothing

unfoldable pub auth_request : AuthCall → Request
auth_request get_auth_status = send get (codes "auth" ∷ codes "status" ∷ []) none nothing
auth_request (setup user password) =
    send post (codes "auth" ∷ codes "setup" ∷ []) none (credentials user password)
auth_request (login user password) =
    send post (codes "auth" ∷ codes "login" ∷ []) none (credentials user password)

unfoldable pub request : Call → Request
unfolding server_request file_request auth_request
request (of_servers c) = server_request c
request (of_files c) = file_request c
request (of_auth c) = auth_request c
