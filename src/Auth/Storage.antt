-- ===== src/Auth/Storage.antt =====
-- ui/src/hooks/useAuth.ts, ui/src/api/client.ts, `PrivateRoute` of ui/src/App.tsx and `logout` of
-- ui/src/pages/MainPage.tsx: the two entries of the browser's storage, and who reads and writes them.
use opsup.Prelude.{
  ℕ, String, Bool, Option, none, some, List, [], ◌∷◌, ◌==◌, truthy, template, if◌then◌else◌,
}

-- The parts of `LoginResponse` that are stored.
pub record LoginResponse : Type 0 where
  pub token : String
  pub username : String

-- `localStorage` at `opsup_token` and `opsup_username`.
pub record Storage : Type 0 where
  pub token : Option String
  pub username : Option String

-- The state of `useAuth`.
pub record Hook : Type 0 where
  pub token : String
  pub username : String

-- A tab of the browser: its storage, the hook, and the path of the page.
pub record Tab : Type 0 where
  pub storage : Storage
  pub hook : Hook
  pub path : String

-- `localStorage.getItem(key) || ''`
abbrev pub item : Option String → String
item none = ""
item (some text) = text

-- The first values of the hook's two states.
unfoldable pub mount : Storage → Hook
mount s = record { token = item s.token; username = item s.username }

-- A page that is loaded anew, as by `window.location.href = path`.
unfoldable pub load : String → Storage → Tab
unfolding mount
load path s = record { storage = s; hook = mount s; path = path }

-- `doLogin` and `doSetup` after their request, and the `navigate('/')` of the page that calls them.
unfoldable pub sign_in : LoginResponse → Tab → Tab
sign_in res tab = record {
  storage = record { token = some res.token; username = some res.username };
  hook = record { token = res.token; username = res.username };
  path = "/";
}

abbrev pub nothing : Storage
nothing = record { token = none; username = none }

-- `logout` of `useAuth`.
unfoldable pub hook_logout : Tab → Tab
hook_logout tab = record tab { storage = nothing; hook = record { token = ""; username = "" } }

-- `logout` of `MainPage`.
unfoldable pub page_logout : Tab → Tab
unfolding load
page_logout tab = load "/login" nothing

-- The request interceptor: the header `Authorization`, if it is set.
unfoldable pub authorization : Storage → Option String
authorization s =
    let token = item s.token in
    if truthy token then some (template ("Bearer " ∷ token ∷ [])) else none

-- The response interceptor for an error; `none` is an error without a response.
unfoldable pub on_error : Option ℕ → Tab → Tab
unfolding load
on_error none tab = tab
on_error (some status) tab =
    if status == 401 then load "/login" (record (tab.storage) { token = none }) else tab

-- What `PrivateRoute` shows: its children, or the page at another path.
pub data Shown : Type 0 where
  children : Shown
  navigates : String → Shown

unfoldable pub private_route : Storage → Shown
private_route s = if truthy (item s.token) then children else navigates "/login"

-- `isLoggedIn`
abbrev pub is_logged_in : Hook → Bool
is_logged_in h = truthy h.token

pub data Event : Type 0 where
  signs_in : LoginResponse → Event
  hook_logs_out page_logs_out : Event
  fails : Option ℕ → Event
  opens : String → Event

unfoldable pub react : Event → Tab → Tab
react (signs_in res) tab = sign_in res tab
react hook_logs_out tab = hook_logout tab
react page_logs_out tab = page_logout tab
react (fails status) tab = on_error status tab
react (opens path) tab = load path tab.storage

unfoldable pub run : List Event → Tab → Tab
run [] tab = tab
run (e ∷ es) tab = run es (react e tab)
