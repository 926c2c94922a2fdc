-- ===== src/Api/Routes.antt =====
-- internal/api/router.go, lines 53 to 77: the routes of the backend, with the middleware of each group.
use opsup.Prelude.{ℕ, Bool, true, false, List, [], ◌∷◌, codes}
use opsup.Api.Calls.{Method, get, post, put, delete}

-- A part of a pattern: itself, or a parameter.
pub data Part : Type 0 where
  fixed : List ℕ → Part
  param : Part

pub data Handler : Type 0 where
  auth_status auth_setup auth_login : Handler
  list_servers create_server get_server update_server delete_server test_connection : Handler
  sftp_list sftp_upload sftp_download sftp_mkdir sftp_delete : Handler
  terminal rdp : Handler

-- `protected` has the middleware that asks for a token, `limited` the one that limits the rate.
pub record Route : Type 0 where
  pub method : Method
  pub pattern : List Part
  pub protected : Bool
  pub limited : Bool
  pub handler : Handler

abbrev pub auth_route : Method → List Part → Bool → Handler → Route
auth_route method parts limited handler = record {
  method = method;
  pattern = fixed (codes "api") ∷ fixed (codes "auth") ∷ parts;
  protected = false;
  limited = limited;
  handler = handler;
}

abbrev pub server_route : Method → List Part → Handler → Route
server_route method parts handler = record {
  method = method;
  pattern = fixed (codes "api") ∷ fixed (codes "servers") ∷ parts;
  protected = true;
  limited = false;
  handler = handler;
}

-- These two look at the token themselves.
abbrev pub socket_route : List ℕ → Handler → Route
socket_route name handler = record {
  method = get;
  pattern = fixed (codes "api") ∷ fixed name ∷ param ∷ [];
  protected = false;
  limited = false;
  handler = handler;
}

abbrev pub files : List Part → List Part
files parts = param ∷ fixed (codes "files") ∷ parts

abbrev pub routes : List Route
routes =
    auth_route get (fixed (codes "status") ∷ []) false auth_status
    ∷ auth_route post (fixed (codes "setup") ∷ []) true auth_setup
    ∷ auth_route post (fixed (codes "login") ∷ []) true auth_login
    ∷ server_route get [] list_servers
    ∷ server_route post [] create_server
    ∷ server_route get (param ∷ []) get_server
    ∷ server_route put (param ∷ []) update_server
    ∷ server_route delete (param ∷ []) delete_server
    ∷ server_route post (param ∷ fixed (codes "test") ∷ []) test_connection
    ∷ server_route get (files []) sftp_list
    ∷ server_route post (files (fixed (codes "upload") ∷ [])) sftp_upload
    ∷ server_route get (files (fixed (codes "download") ∷ [])) sftp_download
    ∷ server_route post (files (fixed (codes "mkdir") ∷ [])) sftp_mkdir
    ∷ server_route delete (files []) sftp_delete
    ∷ socket_route (codes "terminal") terminal
    ∷ socket_route (codes "rdp") rdp
    ∷ []
