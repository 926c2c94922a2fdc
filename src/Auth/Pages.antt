-- ===== src/Auth/Pages.antt =====
-- ui/src/pages/LoginPage.tsx, lines 14 to 38, and ui/src/pages/SetupPage.tsx, lines 12 to 34: the two
-- pages that sign in, on the tab of the browser. An answer that fails goes through the response
-- interceptor of ui/src/api/client.ts first.
use opsup.Prelude.{
  ℕ, String, Bool, true, false, Option, none, some, List, [], ◌∷◌, or_text, ◌==◌, if◌then◌else◌,
}
use opsup.Auth.Storage.{LoginResponse, Tab, sign_in, on_error}

-- An error as axios gives it: the status of its response, if there is one, and the `error` of the body.
pub record Failure : Type 0 where
  pub status : Option ℕ
  pub error : Option String

-- The two pages; the states of `LoginPage` and `SetupPage` are the fields, and `notices` are the calls
-- of `message`. Only the login page has `initialized`.
pub data Kind : Type 0 where
  login setup : Kind

pub record Page : Type 0 where
  pub kind : Kind
  pub loading : Bool
  pub initialized : Option Bool
  pub tab : Tab
  pub notices : List String

abbrev pub mount : Kind → Tab → Page
mount kind tab = record {
  kind = kind;
  loading = false;
  initialized = none;
  tab = tab;
  notices = [];
}

-- `navigate(path)`
abbrev pub navigate : String → Tab → Tab
navigate path tab = record tab { path = path }

-- The answer to `getAuthStatus`.
unfoldable pub on_status : Bool → Page → Page
on_status initialized p = elim p.kind [
  | login ↦ record p {
    initialized = some initialized;
    tab = if initialized then p.tab else navigate "/setup" p.tab;
  }
  | setup ↦ if initialized then record p { tab = navigate "/login" p.tab } else p
]

-- A response 401: the interceptor loads `/login`, so the page and its notices are gone.
abbrev pub is_unauthorized : Failure → Bool
is_unauthorized e = elim e.status [ none ↦ false | some status ↦ status == 401 ]

abbrev pub reload : Failure → Page → Page
reload e p = mount login (on_error e.status p.tab)

unfoldable pub on_status_failure : Failure → Page → Page
on_status_failure e p =
    if is_unauthorized e
    then reload e p
    else elim p.kind [ login ↦ record p { initialized = some true } | setup ↦ p ]

-- `onFinish`, up to its `await`; and after it.
abbrev pub on_finish : Page → Page
on_finish p = record p { loading = true }

abbrev pub success_text : Kind → String
success_text login = "登录成功"
success_text setup = "管理员创建成功"

abbrev pub failure_text : Kind → String
failure_text login = "登录失败"
failure_text setup = "创建失败"

unfoldable pub on_success : LoginResponse → Page → Page
on_success res p = record p {
  loading = false;
  tab = sign_in res p.tab;
  notices = success_text p.kind ∷ p.notices;
}

unfoldable pub on_failure : Failure → Page → Page
on_failure e p = if is_unauthorized e then reload e p else record p {
  loading = false;
  notices =
      (elim e.error [ none ↦ failure_text p.kind | some text ↦ or_text text (failure_text p.kind) ])
      ∷ p.notices;
}

-- Whether the page is drawn: the login page is not where it leads on to the setup.
abbrev pub is_drawn : Page → Bool
is_drawn p = elim p.initialized [ some false ↦ false | _ ↦ true ]

pub data Happening : Type 0 where
  answers_status : Bool → Happening
  fails_status : Failure → Happening
  submits : Happening
  accepts : LoginResponse → Happening
  refuses : Failure → Happening

unfoldable pub step : Happening → Page → Page
unfolding on_status on_status_failure on_success on_failure
step (answers_status initialized) p = on_status initialized p
step (fails_status e) p = on_status_failure e p
step submits p = on_finish p
step (accepts res) p = on_success res p
step (refuses e) p = on_failure e p

unfoldable pub steps : List Happening → Page → Page
steps [] p = p
steps (h ∷ hs) p = steps hs (step h p)
