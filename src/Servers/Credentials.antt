-- ===== src/Servers/Credentials.antt =====
-- What `handleSubmit` of ui/src/components/ServerFormModal.tsx sends, by protocol and way to log in.
use opsup.Prelude.{
  String, ◌≡◌, ◌≢◌, refl, ◌⊎◌, inl, inr, true, false, not, ◌&&◌, Option, none, some, List, [], ◌∷◌,
  arith, truthy, Bool-cases, All, All-append,
}
use opsup.Types.{Protocol, ssh, rdp, Server, ServerForm, is_rdp}
use opsup.Servers.Form.{
  Values, Modal, AuthType, key, password, new, chosen, Credentials, credentials_of, record_of, save,
  handle_submit, reuse_options, is_other, Call, creates, updates, sets_loading, Answer, accepted,
  refused, unreachable, after, is_edit,
}
use opsup.Servers.Opening.{open_modal, protocol_of, auth_of, edited_values, mounted}

-- One source of credentials at most, of the kind that the record names.
abbrev pub OneSource : ServerForm → Type 0
OneSource f =
    ((f.auth_type ≡ "password") × (f.private_key ≡ "") × (f.copy_key_from ≡ 0))
    ⊎ ((f.auth_type ≡ "key") × (f.password ≡ "") × ((f.private_key ≡ "") ⊎ (f.copy_key_from ≡ 0)))

-- A desktop's record holds nothing secret and nothing of a shell's.
abbrev BareFor : Option Protocol → ServerForm → Type 0
BareFor (some rdp) f =
    (f.password ≡ "")
    × (f.private_key ≡ "")
    × (f.copy_key_from ≡ 0)
    × (f.host_key ≡ "")
    × (f.jump_server_id ≡ none)
BareFor _ f = Unit

-- A record of a new shell has a credential.
abbrev FurnishedFor : Option Protocol → ServerForm → Type 0
FurnishedFor (some ssh) f =
    (truthy f.password ≡ true) ⊎ (truthy f.private_key ≡ true) ⊎ (f.copy_key_from ≢ 0)
FurnishedFor _ f = Unit

abbrev pub Bare : ServerForm → Type 0
Bare f = BareFor f.protocol f

abbrev pub Furnished : ServerForm → Type 0
Furnished f = FurnishedFor f.protocol f

-- What is asked of each call that a submission makes.
abbrev pub IsSent : Call → Type 0
IsSent (creates f) = OneSource f × Bare f × Furnished f
IsSent (updates id f) = OneSource f × Bare f
IsSent _ = Unit

credentials_of-OneSource :
    (trim : String → String) (m : Modal) (v : Values) (pk : Option String) (c : Credentials)
    → credentials_of m v pk ≡ inr c
    → OneSource (record_of trim m v c) × Bare (record_of trim m v c)
unfolding credentials_of record_of
credentials_of-OneSource trim m v pk c e = ground arith

credentials_of-Furnished :
    (trim : String → String) (m : Modal) (v : Values) (pk : Option String) (c : Credentials)
    → is_edit m ≡ false
    → credentials_of m v pk ≡ inr c
    → Furnished (record_of trim m v c)
unfolding credentials_of record_of
credentials_of-Furnished trim m v pk c n e = ground arith

save-IsSent :
    (trim : String → String) (m : Modal) (v : Values) (pk : Option String) (c : Credentials)
    → credentials_of m v pk ≡ inr c
    → IsSent (save m (record_of trim m v c))
unfolding save
save-IsSent trim m v pk c e =
    let (one, bare) = credentials_of-OneSource trim m v pk c e in go m.server refl one bare
  where
    go :
        (s : Option Server)
        → m.server ≡ s
        → OneSource (record_of trim m v c)
        → Bare (record_of trim m v c)
        → IsSent (save m (record_of trim m v c))
    go none q one bare =
        rw (q, save) (one, bare, credentials_of-Furnished trim m v pk c (rw (q, is_edit)) e)
    go (some s) q one bare = rw (q, save) (one, bare)

after-IsSent : (m : Modal) (answer : Answer) → All IsSent (after m answer)
after-IsSent m accepted = (tt, (tt, tt))
after-IsSent m (refused error) = (tt, tt)
after-IsSent m unreachable = tt

-- Whatever the state of the form and the values that its fields gave: each record that a submission
-- sends names one way to log in and holds a credential of that way only, a desktop's record holds
-- no credential, host key or jump server, and that of a new shell has a password, a key or the id
-- of the server whose key it copies.
pub handle_submit-IsSent :
    (trim : String → String) (m : Modal) (values : Option Values) (pk : Option String)
    (answer : Answer)
    → All IsSent (handle_submit trim m values pk answer)
unfolding handle_submit
handle_submit-IsSent trim m none pk answer = (tt, tt)
handle_submit-IsSent trim m (some v) pk answer = go (credentials_of m v pk) refl
  where
    go :
        (r : String ⊎ Credentials)
        → credentials_of m v pk ≡ r
        → All IsSent (handle_submit trim m (some v) pk answer)
    go (inl text) e = rw (e, handle_submit) (tt, (tt, tt))
    go (inr c) e =
        rw (e, handle_submit)
          (
            tt,
            (
              save-IsSent trim m v pk c e,
              All-append IsSent (after m answer) (sets_loading false ∷ []) (after-IsSent m answer)
                  (tt, tt),
            ),
          )

-- A server whose key can be reused, and which can be jumped over: a shell, and not the server itself.
abbrev pub IsReusable : Option Server → Server → Type 0
IsReusable server s = (is_rdp s.protocol ≡ false) × (is_other server s ≡ true)

-- Of the list of servers, those offered for their key and as jump servers are shells, and none is the
-- edited server itself.
pub reuse_options-IsReusable :
    (server : Option Server) (ss : List Server) → All (IsReusable server) (reuse_options server ss)
unfolding reuse_options
reuse_options-IsReusable server [] = tt
reuse_options-IsReusable server (s ∷ ss) =
    elim (Bool-cases (not (is_rdp s.protocol) && is_other server s)) [
      | inl kept ↦
          rw (kept, reuse_options) (ground (arith, kept), reuse_options-IsReusable server ss)
      | inr dropped ↦ rw (dropped, reuse_options) (reuse_options-IsReusable server ss)
    ]

-- The record of an edited server whose form nobody touched.
abbrev Unchanged : Server → ServerForm → Type 0
Unchanged s f =
    (f.name ≡ s.name)
    × (f.host ≡ s.host)
    × (f.port ≡ s.port)
    × (f.username ≡ s.username)
    × (f.group ≡ s.group)
    × (f.description ≡ s.description)
    × (f.password ≡ "")
    × (f.private_key ≡ "")
    × (f.copy_key_from ≡ 0)

abbrev opened : Server → Protocol → AuthType → Modal → Modal
opened s p a m = record m {
  server = some s;
  protocol = p;
  auth_type = a;
  key_source = new;
  reuse_server_id = none;
  private_key_value = "";
  jump_server_id = chosen s.jump_server_id;
}

-- A submission that updates the server with what it has.
abbrev pub Updates : (String → String) → Server → Modal → Answer → Type 0
Updates trim s m answer =
    (f : ServerForm) × (rest : List Call) × (handle_submit trim m
        (some (mounted m (edited_values s))) (some "") answer
      ≡ sets_loading true ∷ updates s.id f ∷ rest)
    × Unchanged s f

opened-Updates :
    (trim : String → String) (s : Server) (p : Protocol) (a : AuthType) (m : Modal)
    (answer : Answer)
    → Updates trim s (opened s p a m) answer
unfolding handle_submit mounted edited_values credentials_of record_of save
opened-Updates trim s rdp a m answer =
    (_, _, refl, (refl, refl, refl, refl, refl, refl, refl, refl, refl))
opened-Updates trim s ssh key m answer =
    (_, _, refl, (refl, refl, refl, refl, refl, refl, refl, refl, refl))
opened-Updates trim s ssh password m answer =
    (_, _, refl, (refl, refl, refl, refl, refl, refl, refl, refl, refl))

-- Opening the form for a server and submitting what is on the page, with no field touched, updates
-- that server with its own name, address, port, user, group and description and with no
-- credential in the record.
pub edit_unchanged :
    (trim : String → String) (s : Server) (m : Modal) (answer : Answer)
    → Updates trim s (open_modal (some s) m) answer
unfolding open_modal
edit_unchanged trim s m answer =
    opened-Updates trim s (protocol_of s.protocol) (auth_of s.auth_type) m answer
