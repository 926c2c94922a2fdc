-- ===== src/Rdp/Client.antt =====
-- ui/src/rdp/client.ts: the page inside the frame of a desktop's tab. A callback is a function from
-- the page to the page and the calls that it makes of the browser and of the RDP module, in order.
-- The submit handler stops at two `await`s, so what follows each is a callback of its own: `Waits`
-- says which one is awaited. The text of the status line stands for the call that shows it.
use opsup.Prelude.{
  ℕ, ◌*◌, ◌/◌, min, max, String, Bool, true, false, not, ◌&&◌, ◌||◌, Option, none, some, List, [],
  ◌∷◌, ◌++◌, ◌==◌, any, codes, if◌then◌else◌,
}
use opsup.Prelude.Decimal.{decimal}
use opsup.Types.{Server}
use opsup.Terminal.State.{Status, connecting, connected, error}

-- `DesktopSize`
pub record Extent : Type 0 where
  pub width : ℕ
  pub height : ℕ

-- What the submit handler gives to `configBuilder`; the destination is a list of code points, and
-- the proxy's address is `/api/rdp/` and the id on the page's own host, with `wss:` or `ws:`.
pub record Config : Type 0 where
  pub username : String
  pub password : String
  pub domain : String
  pub destination : List ℕ
  pub secure : Bool
  pub server_id : ℕ
  pub auth_token : String
  pub desktop_size : Extent

pub data Call : Type 0 where
  posts_status : String → Status → Call
  shows_text : String → Call
  connects : Config → Call
  resizes : Extent → Call
  sets_visibility enables_auto_clipboard enables_clipboard : Bool → Call
  shuts_down blurs reloads : Call
  sends_clipboard saves_clipboard ctrl_alt_del requests_fullscreen : Call

-- The `await` at which the submit handler stands.
pub data Waits : Type 0 where
  idle for_session for_end : Waits

pub record Page : Type 0 where
  pub server : Option Server
  pub token : String
  pub active : Bool
  pub api : Bool
  pub is_connected : Bool
  pub is_connecting : Bool
  pub waits : Waits
  pub timer : Bool
  pub client : Extent
  pub username : String
  pub domain : String
  pub password : String
  pub connect_disabled : Bool
  pub cancel_hidden : Bool
  pub login_hidden : Bool
  pub tools_hidden : Bool

-- The page as ui/rdp.html and the module's variables start it.
abbrev pub first_page : Page
first_page = record {
  server = none;
  token = "";
  active = true;
  api = false;
  is_connected = false;
  is_connecting = false;
  waits = idle;
  timer = false;
  client = record { width = 0; height = 0 };
  username = "";
  domain = "";
  password = "";
  connect_disabled = true;
  cancel_hidden = true;
  login_hidden = false;
  tools_hidden = true;
}

-- `size()`
unfoldable pub size : Page → Extent
size p = record {
  width = max 320 (min 3840 (p.client.width / 2 * 2));
  height = max 200 (min 2160 (p.client.height / 2 * 2));
}

-- The data of a message `opsup-rdp-init`.
pub record Init : Type 0 where
  pub server : Server
  pub token : String
  pub active : Bool

abbrev pub text_of : Option String → String
text_of none = ""
text_of (some text) = text

unfoldable pub pin : Server → Page → Page
pin s p = elim p.server [
  | some _ ↦ p
  | none ↦ record p { server = some s; username = s.username; domain = text_of s.rdp_domain }
]

-- `if (connected && active) { const s = size(); api?.resize(s.width, s.height) }`
unfoldable pub resize : Page → List Call
unfolding size
resize p = if p.is_connected && p.active && p.api then resizes (size p) ∷ [] else []

-- The listener of messages; `trusted` says that the source is the parent, the origin the page's own
-- and the type that of an init.
unfoldable pub on_message : Bool → Init → Page → Page × List Call
on_message trusted m p =
    if not trusted
    then (p, [])
    else (let q = record (pin m.server p) { token = m.token; active = m.active } in
        (q, (if m.active then [] else blurs ∷ []) ++ resize q))

-- The listener of the component's `ready`.
unfoldable pub on_ready : Page → Page × List Call
on_ready p = (
  record p { api = true; connect_disabled = false },
  enables_auto_clipboard false ∷ enables_clipboard true ∷ posts_status "请输入密码连接" connecting ∷ [],
)

abbrev pub on_load_error : Page → Page × List Call
on_load_error p = (p, posts_status "客户端加载失败；请使用 HTTPS 并刷新重试" error ∷ [])

-- `server.host.includes(':') ? `[${server.host}]` : server.host`, and the port.
unfoldable pub destination : Server → List ℕ
destination s =
    let host = codes s.host in
    let bracketed = if any (◌==◌ b':') host then b'[' ∷ host ++ (b']' ∷ []) else host in
    bracketed ++ (b':' ∷ decimal s.port)

-- What `submit` builds, on a page of `https:` or not.
unfoldable pub config : Bool → Server → Page → Config
config is_https s p = record {
  username = p.username;
  password = p.password;
  domain = p.domain;
  destination = destination s;
  secure = is_https;
  server_id = s.id;
  auth_token = p.token;
  desktop_size = size p;
}

-- The submit handler up to its first `await`.
unfoldable pub on_submit : Bool → Page → Page × List Call
on_submit is_https p = elim p.server [
  | none ↦ (p, [])
  | some s ↦ if not p.api || p.is_connecting || p.is_connected then (p, []) else (
    record p {
      is_connecting = true;
      connect_disabled = true;
      cancel_hidden = false;
      password = "";
      waits = for_session;
    },
    posts_status "正在连接…" connecting ∷ connects (config is_https s p) ∷ [],
  )
]

-- After `const session = await pending`, up to `await run`.
unfoldable pub on_session : Page → Page × List Call
unfolding size
on_session p = (
  record p {
    is_connected = true;
    is_connecting = false;
    cancel_hidden = true;
    login_hidden = true;
    tools_hidden = false;
    waits = for_end;
  },
  sets_visibility true ∷ posts_status "已连接" connected ∷ resizes (size p) ∷ [],
)

-- The `finally` block.
unfoldable pub finish : Page → Page
finish p = record p {
  is_connected = false;
  is_connecting = false;
  login_hidden = false;
  tools_hidden = true;
  connect_disabled = false;
  cancel_hidden = true;
  waits = idle;
}

abbrev pub ending : List Call
ending = shuts_down ∷ sets_visibility false ∷ []

-- After `await run`, and the `catch` block with what follows it.
unfoldable pub on_end : Page → Page × List Call
on_end p = (finish p, posts_status "连接已断开，请重新输入密码" error ∷ ending)

unfoldable pub on_failure : Page → Page × List Call
on_failure p = (finish p, posts_status "连接失败：请检查网络、NLA、账号密码及证书指纹" error ∷ ending)

-- `api?.shutdown()` and the like.
abbrev pub with_api : Page → Call → List Call
with_api p c = if p.api then c ∷ [] else []

-- What can happen to the page. The outcomes of the two `await`s are events of their own, which can
-- only come while the handler stands there. `warned` is a warning of the clipboard, or the rejection
-- of what a button of the toolbar started.
pub data Event : Type 0 where
  messaged : Bool → Init → Event
  readied load_failed : Event
  typed_username typed_domain typed_password : String → Event
  submitted : Bool → Event
  session_given session_refused run_ended run_failed : Event
  disconnect cancel cad fullscreen paste copy : Event
  warned : String → Event
  resized : Extent → Event
  timer_fired page_hidden : Event

unfoldable pub react : Event → Page → Page × List Call
unfolding resize on_message on_ready on_submit on_session on_end on_failure
react (messaged trusted m) p = on_message trusted m p
react readied p = on_ready p
react load_failed p = on_load_error p
react (typed_username text) p = (record p { username = text }, [])
react (typed_domain text) p = (record p { domain = text }, [])
react (typed_password text) p = (record p { password = text }, [])
react (submitted is_https) p = on_submit is_https p
react session_given p = elim p.waits [ for_session ↦ on_session p | _ ↦ (p, []) ]
react session_refused p = elim p.waits [ for_session ↦ on_failure p | _ ↦ (p, []) ]
react run_ended p = elim p.waits [ for_end ↦ on_end p | _ ↦ (p, []) ]
react run_failed p = elim p.waits [ for_end ↦ on_failure p | _ ↦ (p, []) ]
react disconnect p = (p, with_api p shuts_down)
react cancel p = (p, reloads ∷ [])
react fullscreen p = (p, requests_fullscreen ∷ [])
react (warned text) p = (p, shows_text text ∷ [])
react cad p = (p, with_api p ctrl_alt_del)
react paste p = (p, if p.active then with_api p sends_clipboard else [])
react copy p = (p, if p.active then with_api p saves_clipboard else [])
react (resized client) p = (record p { client = client; timer = true }, [])
react timer_fired p =
    if p.timer then (record p { timer = false }, resize (record p { timer = false })) else (p, [])
react page_hidden p = (record p { password = ""; token = "" }, with_api p shuts_down)

-- The page after a list of events, with all calls made on the way.
unfoldable pub run : List Event → Page → Page × List Call
run [] p = (p, [])
run (e ∷ es) p = let (q, calls) = react e p in let (r, more) = run es q in (r, calls ++ more)
