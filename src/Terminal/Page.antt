-- ===== src/Terminal/Page.antt =====
-- ui/src/hooks/useTerminalConnection.ts, lines 38 to 79 and 115 to 174: `connect`, the cleanup of a
-- connection, and the events that reach it. `conn` is the connection that `cleanupRef`, `sendRef`,
-- `wsRef`, `termRef` and `fitRef` belong to; it is `none` while these are empty. `retired` keeps the
-- connections that were cleaned up, the last one first.
use opsup.Prelude.{
  ℕ, suc, String, Bool, true, false, not, ◌||◌, Option, none, some, List, [], ◌∷◌, truthy, template,
  if◌then◌else◌,
}
use opsup.Terminal.State.{Status, connecting, error, Size, Browser, Hook, Conn, Session, current}
use opsup.Terminal.Handlers.{
  Message, fail, send_data, fit_and_resize, take_size, on_message, on_timer, on_animation_frame,
  socket_closed, socket_error,
}

abbrev pub not_signed_in : String
not_signed_in = "未登录，请重新登录"

pub record Page (S : Type 0) : Type 0 where
  pub hook : Hook
  pub open hook use *
  pub conn : Option (Conn S)
  pub retired : List (Conn S)

-- `location.protocol === 'https:'`, `location.host` and the number of the server, as a numeral.
pub record Address : Type 0 where
  pub is_https : Bool
  pub host : String
  pub server_id : String

-- What the environment makes happen at a connection.
pub data Event (S : Type 0) : Type 0 where
  typed : List ℕ → Event S
  resized : Size → Event S
  observed : Event S
  received : Message → Event S
  closed : Event S
  errored : Event S
  timer : ℕ → Event S
  animation_frame : Event S
  socket_moved : S → Event S

pub data Action (S : Type 0) : Type 0 where
  connects : Address → String → Action S
  unmounts : Action S
  happens : Event S → Action S
  lays_out : Bool → Bool → ℕ → ℕ → Action S

-- `useRef` and `useState` of the first render.
abbrev pub first_page : {S : Type 0} → Page S
first_page = record {
  hook = record {
    generation = 0;
    status = connecting;
    error_msg = "";
    is_active = true;
    mounted = false;
    client_width = 0;
    client_height = 0;
  };
  conn = none;
  retired = [];
}

module _ {S : Type 0} (b : Browser S) where
  unfoldable pub socket_url : Address → String → String
  socket_url a token = template (
      (if a.is_https then "wss:" else "ws:")
      ∷ "//"
      ∷ a.host
      ∷ "/api/terminal/"
      ∷ a.server_id
      ∷ "?token="
      ∷ b.encode_component token
      ∷ [])

  -- The variables of a call of `connect`, once its socket is made.
  unfoldable pub fresh : ℕ → S → Conn S
  fresh id ws = record {
    id = id;
    connected = false;
    failed = false;
    queue = [];
    queue_index = 0;
    timers = [];
    next_timer = 1;
    pump_timer = none;
    resize_timer = none;
    raf = true;
    size = b.terminal_size;
    ws = ws;
    attached = true;
    sent = [];
    written = [];
  }

  -- What the cleanup does to its connection: the callbacks go, and every timer is cleared.
  unfoldable pub retire : Conn S → Conn S
  retire c = record c {
    connected = false;
    attached = false;
    ws = b.close c.ws;
    timers = [];
    raf = false;
    queue = [];
  }

  -- `cleanupRef.current()`
  unfoldable pub cleanup : Page S → Page S
  cleanup p = elim p.conn [
    | none ↦ p
    | some c ↦ record p {
      hook = record (p.hook) { generation = suc p.generation };
      conn = none;
      retired = retire c ∷ p.retired;
    }
  ]

  -- `connect()`, with the token of `localStorage`, or `""` if there is none.
  unfoldable pub connect : Address → String → Page S → Page S
  connect address token p₀ =
      let p = cleanup p₀ in
      let id = suc p.generation in
      let shown = λ (status : Status) (message : String). record (p.hook) {
        generation = id;
        status = status;
        error_msg = message;
      } in
      if not (truthy token) || not p.mounted
      then record p { hook = shown error not_signed_in }
      else record p {
        hook = shown connecting "";
        conn = some (fresh id (b.new_socket (socket_url address token)));
      }

  -- The callback that an event calls. `socket_moved` is the browser's own step: data leaves the
  -- buffer, or the state of the socket changes.
  unfoldable pub react : Event S → Session S → Session S
  react (typed input) s = if current s then send_data b input s else s
  react (resized d) s = take_size b d s
  react observed s = if current s then fit_and_resize b s else s
  react (received m) s = on_message b m s
  react closed s = fail b socket_closed s
  react errored s = fail b socket_error s
  react (timer t) s = on_timer b t s
  react animation_frame s = on_animation_frame b s
  react (socket_moved ws') s = record s { conn = record (s.conn) { ws = ws' } }

  abbrev pub put_back : Page S → Session S → Page S
  put_back p s = record p { hook = s.hook; conn = some s.conn }

  -- An event reaches the connection whose callbacks are in place, if there is one.
  unfoldable pub deliver : Event S → Page S → Page S
  deliver e p = elim p.conn [
    | none ↦ p
    | some c ↦ put_back p (react e (record { hook = p.hook; conn = c }))
  ]

  -- What happens to the hook: a mount or a click on "reconnect", an unmount, an event, or a new
  -- layout (the tab is shown or hidden, the container appears, or changes its size).
  unfoldable pub act : Action S → Page S → Page S
  act (connects address token) p = connect address token p
  act unmounts p = cleanup p
  act (happens e) p = deliver e p
  act (lays_out active mounted width height) p = record p {
    hook = record (p.hook) {
      is_active = active;
      mounted = mounted;
      client_width = width;
      client_height = height;
    };
  }

  unfoldable pub run : List (Action S) → Page S → Page S
  run [] p = p
  run (a ∷ rest) p = run rest (act a p)
