-- ===== src/Auth/Signing.antt =====
-- Who is signed in, after any events.
use opsup.Prelude.{
  ℕ, String, ◌≡◌, refl, ap, sym, ◌∙◌, none, some, List, [], ◌∷◌, ◌==◌, truthy, template,
  if◌then◌else◌, Bool-cases, inl, inr,
}
use opsup.Auth.Storage.{
  Storage, Hook, Tab, item, mount, load, sign_in, hook_logout, page_logout, authorization, on_error,
  children, navigates, private_route, is_logged_in, Event, signs_in, hook_logs_out, page_logs_out,
  fails, opens, react, run,
}

-- The token in force, from the events alone: that of the last signing in, unless a signing out or a
-- 401 came after it; `before` is the token in force before the events.
abbrev pub in_force : String → List Event → String
in_force before [] = before
in_force before (signs_in res ∷ es) = in_force res.token es
in_force before (hook_logs_out ∷ es) = in_force "" es
in_force before (page_logs_out ∷ es) = in_force "" es
in_force before (fails none ∷ es) = in_force before es
in_force before (fails (some status) ∷ es) = in_force (if status == 401 then "" else before) es
in_force before (opens path ∷ es) = in_force before es

-- The hook shows what is stored.
abbrev pub Agrees : Tab → Type 0
Agrees tab = mount tab.storage ≡ tab.hook

react-Agrees : (e : Event) (tab : Tab) → Agrees tab → Agrees (react e tab)
unfolding react sign_in hook_logout page_logout on_error load mount
react-Agrees (signs_in res) tab h = refl
react-Agrees hook_logs_out tab h = refl
react-Agrees page_logs_out tab h = refl
react-Agrees (fails none) tab h = h
react-Agrees (fails (some status)) tab h = elim (Bool-cases (status == 401)) [
  | inl e ↦ rw (e, on_error) refl
  | inr e ↦ rw (e, on_error) h
]
react-Agrees (opens path) tab h = refl

on_error-token :
    (status : ℕ) (tab : Tab)
    → item (on_error (some status) tab).storage.token
      ≡ (if status == 401 then "" else item tab.storage.token)
unfolding on_error load
on_error-token status tab = elim (Bool-cases (status == 401)) [
  | inl e ↦ rw (e, on_error)
  | inr e ↦ rw (e, on_error)
]

stored_token :
    (es : List Event) (tab : Tab)
    → item (run es tab).storage.token ≡ in_force (item tab.storage.token) es
unfolding run react sign_in hook_logout page_logout on_error load
stored_token [] tab = refl
stored_token (signs_in res ∷ es) tab = stored_token es (sign_in res tab)
stored_token (hook_logs_out ∷ es) tab = stored_token es (hook_logout tab)
stored_token (page_logs_out ∷ es) tab = stored_token es (page_logout tab)
stored_token (fails none ∷ es) tab = stored_token es tab
stored_token (fails (some status) ∷ es) tab =
    stored_token es (on_error (some status) tab)
    ∙ ap (λ t. in_force t es) (on_error-token status tab)
stored_token (opens path ∷ es) tab = stored_token es (load path tab.storage)

run-Agrees : (es : List Event) (tab : Tab) → Agrees tab → Agrees (run es tab)
unfolding run
run-Agrees [] tab h = h
run-Agrees (e ∷ es) tab h = run-Agrees es (react e tab) (react-Agrees e tab h)

-- A request's header, what a private path shows and the hook's answer, for a token, which is the
-- empty text where nobody is signed in.
abbrev pub Serves : String → Tab → Type 0
Serves token tab =
    (authorization tab.storage
      ≡ (if truthy token then some (template ("Bearer " ∷ token ∷ [])) else none))
    × (private_route tab.storage ≡ (if truthy token then children else navigates "/login"))
    × (is_logged_in tab.hook ≡ truthy token)

-- After any events on a page that was loaded with some storage, with `token` the one of the last
-- signing in, if neither a signing out nor a response 401 came after it, and else the empty text
-- (the stored one where no event of the four was there): requests carry `Bearer` with that token, or
-- no such header where it is empty, and private paths and `isLoggedIn` go by it as well.
pub run-Serves :
    (path : String) (s : Storage) (es : List Event)
    → Serves (in_force (item s.token) es) (run es (load path s))
unfolding authorization private_route load mount
run-Serves path s es =
    let e = stored_token es (load path s) in
    let h = run-Agrees es (load path s) refl in
    (
      rw (← e, authorization) refl,
      rw (← e, private_route) refl,
      ap (λ (k : Hook). truthy k.token) (sym h) ∙ ap truthy e,
    )
