-- ===== src/Api/Reaching.antt =====
-- Each request of the client reaches the handler that is meant. The router is gin's, by what it
-- documents: a path that fits one route only goes to that route, with the parts that stand for the
-- parameters.
use opsup.Prelude.{
  ℕ, zero, suc, ◌≡◌, refl, ap, sym, Bool, true, false, not, ◌&&◌, Option, some, List, [], ◌∷◌, ◌==◌,
  ◌∙◌, map, codes, arith, if◌then◌else◌,
}
use opsup.Prelude.Decimal.{decimal, read_digits, read_digits-decimal}
use opsup.Servers.Texts.{is_nil}
use opsup.Api.Calls.{
  Method, get, post, put, delete, Call, of_servers, of_files, of_auth, Request, server_request,
  file_request, auth_request, request,
}
use opsup.Api.Calls as Calls
use opsup.Api.Routes.{Part, fixed, param, Handler, Route, auth_route, server_route, files, routes}
use opsup.Api.Routes as Routes

abbrev pub same_method : Method → Method → Bool
same_method get get = true
same_method get post = false
same_method get put = false
same_method get delete = false
same_method post get = false
same_method post post = true
same_method post put = false
same_method post delete = false
same_method put get = false
same_method put post = false
same_method put put = true
same_method put delete = false
same_method delete get = false
same_method delete post = false
same_method delete put = false
same_method delete delete = true

abbrev pub same_text : List ℕ → List ℕ → Bool
same_text [] [] = true
same_text [] (d ∷ ds) = false
same_text (c ∷ cs) [] = false
same_text (c ∷ cs) (d ∷ ds) = (c == d) && same_text cs ds

-- Whether a path fits a pattern; a parameter is not empty.
abbrev pub fits_part : Part → List ℕ → Bool
fits_part (fixed name) text = same_text name text
fits_part param text = not (is_nil text)

abbrev pub fits : List Part → List (List ℕ) → Bool
fits [] [] = true
fits [] (t ∷ ts) = false
fits (p ∷ ps) [] = false
fits (p ∷ ps) (t ∷ ts) = fits_part p t && fits ps ts

abbrev pub fitting : Method → List (List ℕ) → List Route → List Route
fitting method path [] = []
fitting method path (r ∷ rs) =
    let rest = fitting method path rs in
    if same_method r.method method && fits r.pattern path then r ∷ rest else rest

abbrev pub params : List Part → List (List ℕ) → List (List ℕ)
params [] ts = []
params (p ∷ ps) [] = []
params (fixed name ∷ ps) (t ∷ ts) = params ps ts
params (param ∷ ps) (t ∷ ts) = t ∷ params ps ts

abbrev pub Dispatch : Type 0
Dispatch = List Route → Method → List (List ℕ) → Option (Route × List (List ℕ))

pub record IsRouter (dispatch : Dispatch) : Type 0 where
  pub finds :
      (rs : List Route) (method : Method) (path : List (List ℕ)) (r : Route)
      → fitting method path rs ≡ r ∷ []
      → dispatch rs method path ≡ some (r, params r.pattern path)

-- The handler and the ids that a call is meant for, and whether it needs a token.
abbrev pub meant : Call → Handler × List ℕ × Bool
meant (of_servers Calls.list_servers) = (Routes.list_servers, [], true)
meant (of_servers (Calls.get_server id)) = (Routes.get_server, id ∷ [], true)
meant (of_servers (Calls.create_server r)) = (Routes.create_server, [], true)
meant (of_servers (Calls.update_server id r)) = (Routes.update_server, id ∷ [], true)
meant (of_servers (Calls.delete_server id)) = (Routes.delete_server, id ∷ [], true)
meant (of_servers (Calls.test_connection id)) = (Routes.test_connection, id ∷ [], true)
meant (of_files (Calls.list_files id path)) = (Routes.sftp_list, id ∷ [], true)
meant (of_files (Calls.upload_file id dir file)) = (Routes.sftp_upload, id ∷ [], true)
meant (of_files (Calls.download_file id path)) = (Routes.sftp_download, id ∷ [], true)
meant (of_files (Calls.create_dir id path)) = (Routes.sftp_mkdir, id ∷ [], true)
meant (of_files (Calls.delete_file id path)) = (Routes.sftp_delete, id ∷ [], true)
meant (of_auth Calls.get_auth_status) = (Routes.auth_status, [], false)
meant (of_auth (Calls.setup user password)) = (Routes.auth_setup, [], false)
meant (of_auth (Calls.login user password)) = (Routes.auth_login, [], false)

is_nil-decimal : (n : ℕ) → is_nil (decimal n) ≡ false
unfolding decimal read_digits
is_nil-decimal zero = refl
is_nil-decimal (suc n) = go (decimal (suc n)) (read_digits-decimal (suc n))
  where
    go : (text : List ℕ) → read_digits 0 text ≡ suc n → is_nil text ≡ false
    go [] e = absurd (ground (arith, e))
    go (c ∷ cs) e = refl

module _ (dispatch : Dispatch) (w : IsRouter dispatch) where
  -- A route's handler gets the call, with the ids.
  abbrev pub Reaches : Call → Request → Type 0
  Reaches c q =
      (r : Route) × ((ps : List (List ℕ)) × ((dispatch routes q.method q.path ≡ some (r, ps))
          × (r.handler ≡ (meant c).0)
          × (map (read_digits 0) ps ≡ (meant c).1)
          × (r.protected ≡ (meant c).2)))

  reach :
      (c : Call) (q : Request) (r : Route)
      → fitting q.method q.path routes ≡ r ∷ []
      → r.handler ≡ (meant c).0
      → map (read_digits 0) (params r.pattern q.path) ≡ (meant c).1
      → r.protected ≡ (meant c).2
      → Reaches c q
  reach c q r e h i p =
      (r, (params r.pattern q.path, (w.finds routes q.method q.path r e, h, i, p)))

  -- On the path of a server, the id is written and read again.
  reach_server :
      (c : Call) (q : Request) (r : Route) (id : ℕ)
      → fitting q.method q.path routes ≡ r ∷ []
      → r.handler ≡ (meant c).0
      → params r.pattern q.path ≡ decimal id ∷ []
      → (meant c).1 ≡ id ∷ []
      → r.protected ≡ (meant c).2
      → Reaches c q
  reach_server c q r id e h i m p =
      reach c q r e h
        (ap (map (read_digits 0)) i ∙ ap (λ n. n ∷ []) (read_digits-decimal id) ∙ sym m) p

  -- Each function of the client that calls the API has its request dispatched to the route whose handler
  -- is meant for it; the parameter that the handler reads is the id that the function was given; and the
  -- route asks for a token, except for the status, the setup and the signing in. The router is one that
  -- dispatches a path which fits one route only to that route.
  pub request-Reaches : (c : Call) → Reaches c (request c)
  unfolding request
  request-Reaches (of_servers Calls.list_servers) =
      reach (of_servers Calls.list_servers) (request (of_servers Calls.list_servers))
        (server_route get [] Routes.list_servers) refl refl refl refl
  request-Reaches (of_servers (Calls.get_server id)) =
      let c = (of_servers (Calls.get_server id)) in
      reach_server c (request c) (server_route get (param ∷ []) Routes.get_server) id
        (rw (is_nil-decimal id) refl) refl refl refl refl
  request-Reaches (of_servers (Calls.create_server r)) =
      reach (of_servers (Calls.create_server r)) (request (of_servers (Calls.create_server r)))
        (server_route post [] Routes.create_server) refl refl refl refl
  request-Reaches (of_servers (Calls.update_server id r)) =
      let c = (of_servers (Calls.update_server id r)) in
      reach_server c (request c) (server_route put (param ∷ []) Routes.update_server) id
        (rw (is_nil-decimal id) refl) refl refl refl refl
  request-Reaches (of_servers (Calls.delete_server id)) =
      let c = (of_servers (Calls.delete_server id)) in
      reach_server c (request c) (server_route delete (param ∷ []) Routes.delete_server) id
        (rw (is_nil-decimal id) refl) refl refl refl refl
  request-Reaches (of_servers (Calls.test_connection id)) =
      let c = (of_servers (Calls.test_connection id)) in
      reach_server c (request c)
        (server_route post (param ∷ fixed (codes "test") ∷ []) Routes.test_connection) id
        (rw (is_nil-decimal id) refl) refl refl refl refl
  request-Reaches (of_files (Calls.list_files id path)) =
      let c = (of_files (Calls.list_files id path)) in
      reach_server c (request c) (server_route get (files []) Routes.sftp_list) id
        (rw (is_nil-decimal id) refl) refl refl refl refl
  request-Reaches (of_files (Calls.upload_file id dir file)) =
      let c = (of_files (Calls.upload_file id dir file)) in
      reach_server c (request c)
        (server_route post (files (fixed (codes "upload") ∷ [])) Routes.sftp_upload) id
        (rw (is_nil-decimal id) refl) refl refl refl refl
  request-Reaches (of_files (Calls.download_file id path)) =
      let c = (of_files (Calls.download_file id path)) in
      reach_server c (request c)
        (server_route get (files (fixed (codes "download") ∷ [])) Routes.sftp_download) id
        (rw (is_nil-decimal id) refl) refl refl refl refl
  request-Reaches (of_files (Calls.create_dir id path)) =
      let c = (of_files (Calls.create_dir id path)) in
      reach_server c (request c)
        (server_route post (files (fixed (codes "mkdir") ∷ [])) Routes.sftp_mkdir) id
        (rw (is_nil-decimal id) refl) refl refl refl refl
  request-Reaches (of_files (Calls.delete_file id path)) =
      let c = (of_files (Calls.delete_file id path)) in
      reach_server c (request c) (server_route delete (files []) Routes.sftp_delete) id
        (rw (is_nil-decimal id) refl) refl refl refl refl
  request-Reaches (of_auth Calls.get_auth_status) =
      reach (of_auth Calls.get_auth_status) (request (of_auth Calls.get_auth_status))
        (auth_route get (fixed (codes "status") ∷ []) false Routes.auth_status) refl refl refl refl
  request-Reaches (of_auth (Calls.setup user password)) =
      reach (of_auth (Calls.setup user password)) (request (of_auth (Calls.setup user password)))
        (auth_route post (fixed (codes "setup") ∷ []) true Routes.auth_setup) refl refl refl refl
  request-Reaches (of_auth (Calls.login user password)) =
      reach (of_auth (Calls.login user password)) (request (of_auth (Calls.login user password)))
        (auth_route post (fixed (codes "login") ∷ []) true Routes.auth_login) refl refl refl refl
