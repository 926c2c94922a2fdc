-- ===== src/Terminal/Handlers.antt =====
-- ui/src/hooks/useTerminalConnection.ts, lines 33 to 36 and 80 to 151: the callbacks of a connection.
use Prim.Native.String
use opsup.Prelude.{
  ℕ, zero, suc, ◌*◌, String, Bool, true, false, not, ◌&&◌, ◌||◌, Option, none, some, List, [], ◌∷◌,
  ◌++◌, codes, ltb, ◌==◌, if◌then◌else◌, length, get_elem?, or_text,
}
use opsup.Prelude.Decimal.{decimal}
use opsup.Terminal.Frames.{Frame, encode, input_frames}
use opsup.Terminal.State.{
  connected, error, Task, pumps, resizes, fits, Size, StatusValue, Browser, Conn, Session,
  find_timer, remove_timer, clear_timer, current, later,
}

-- `ws.bufferedAmount < 256 * 1024`
abbrev pub high_water : ℕ
high_water = 256 * 1024

abbrev pub input_lost_notice : String
input_lost_notice = "；连接中断，部分输入可能未送达，请检查后重试"

abbrev pub send_failed : String
send_failed = "发送输入失败"

abbrev pub resize_failed : String
resize_failed = "发送终端尺寸失败"

abbrev pub session_ended : String
session_ended = "会话已结束"

abbrev pub socket_closed : String
socket_closed = "SSH 连接已断开"

abbrev pub socket_error : String
socket_error = "WebSocket 连接失败"

-- `JSON.stringify({ cols: term.cols, rows: term.rows })`
unfoldable pub stringify_size : Size → List ℕ
stringify_size d =
    codes "{\"cols\":" ++ (decimal d.cols ++ (codes ",\"rows\":" ++ (decimal d.rows ++ codes "}")))

-- `event.data`
pub data Message : Type 0 where
  text : String → Message
  binary : List ℕ → Message

module _ {S : Type 0} (b : Browser S) where
  pub has_unsent : Session S → Bool
  has_unsent s = ltb s.queue_index (length s.queue) || ltb 0 (b.buffered s.ws)

  -- `fail(message)`
  unfoldable pub fail : String → Session S → Session S
  unfolding has_unsent
  fail message s = if not (current s) || s.failed then s else record s {
    hook = record (s.hook) {
      status = error;
      error_msg = if has_unsent s then String.◌++◌ message input_lost_notice else message;
    };
    conn = record (s.conn) {
      failed = true;
      connected = false;
      queue = [];
      queue_index = 0;
      ws = b.close s.ws;
    };
  }

  -- The frame that the loop of `pump` sends next, while its test holds.
  abbrev pub next_frame : Conn S → Option Frame
  next_frame c = if ltb (b.buffered c.ws) high_water then get_elem? c.queue c.queue_index else none

  -- The loop of `pump`, one fuel a frame; the second part tells whether `ws.send` threw. The index
  -- moves on before the call of `ws.send`.
  unfoldable pub pump_loop : ℕ → Conn S → Conn S × Bool
  pump_loop zero c = (c, false)
  pump_loop (suc fuel) c = elim (next_frame c) [
    | none ↦ (c, false)
    | some frame ↦ elim (b.send c.ws frame) [
      | none ↦ (record c { queue_index = suc c.queue_index }, true)
      | some ws' ↦
          pump_loop fuel
            (record c { queue_index = suc c.queue_index; ws = ws'; sent = c.sent ++ frame ∷ [] })
    ]
  ]

  -- `!current() || !connected || ws.readyState !== WebSocket.OPEN`
  abbrev pub is_blocked : Session S → Bool
  is_blocked s = not (current s) || (not s.connected || not (b.is_open s.ws))

  -- The rest of `pump`, after its loop.
  unfoldable pub after_loop : Session S → Conn S × Bool → Session S
  after_loop s (c, true) = fail send_failed (record s { conn = c })
  after_loop s (c, false) =
      if ltb c.queue_index (length c.queue)
      then later pumps (record s { conn = record c { pump_timer = some c.next_timer } })
      else record s { conn = record c { queue = []; queue_index = 0 } }

  -- `pump()`; a frame of the queue takes one round of the loop, so its length is fuel enough.
  unfoldable pub pump : Session S → Session S
  pump s₀ =
      let s = record s₀ { conn = record (s₀.conn) { pump_timer = none } } in
      if is_blocked s then s else after_loop s (pump_loop (length s.queue) s.conn)

  -- `sendRef.current(data)`
  unfoldable pub send_data : List ℕ → Session S → Session S
  send_data typed s₀ =
      if is_blocked s₀
      then s₀
      else let s = record s₀ {
        conn = record (s₀.conn) { queue = s₀.queue ++ input_frames typed };
      } in
        elim s.pump_timer [ none ↦ pump s | some _ ↦ s ]

  -- Type 1, and the size of the terminal as JSON.
  abbrev pub resize_frame : Session S → Frame
  resize_frame s = 1 ∷ encode (stringify_size s.size)

  -- `sendResize()`
  unfoldable pub send_resize : Session S → Session S
  send_resize s = if is_blocked s then s else elim (b.send s.ws (resize_frame s)) [
    | none ↦ fail resize_failed s
    | some ws' ↦ record s {
      conn = record (s.conn) { ws = ws'; sent = s.sent ++ resize_frame s ∷ [] };
    }
  ]

  -- `term.onResize(…)`
  unfoldable pub on_resize : Session S → Session S
  on_resize s =
      if not (current s)
      then s
      else later resizes (record s {
        conn = record (s.conn) {
          timers = clear_timer s.resize_timer s.timers;
          resize_timer = some s.next_timer;
        };
      })

  -- The terminal takes a size, and calls `onResize` if it is another one.
  unfoldable pub take_size : Size → Session S → Session S
  take_size d s =
      if (d.cols == s.size.cols) && (d.rows == s.size.rows)
      then s
      else on_resize (record s { conn = record (s.conn) { size = d } })

  -- `doFit()`
  unfoldable pub do_fit : Session S → Session S
  do_fit s =
      if not s.is_active || (not s.mounted || ((s.client_width == 0) || (s.client_height == 0)))
      then s
      else elim (b.fit s.client_width s.client_height) [ none ↦ s | some d ↦ take_size d s ]

  abbrev pub fit_and_resize : Session S → Session S
  fit_and_resize s = send_resize (do_fit s)

  -- A status frame: `value.connected === false` fails with `value.message || '会话已结束'`.
  unfoldable pub on_status : Option StatusValue → Session S → Session S
  on_status none s = s
  on_status (some v) s =
      if v.connected_is_false
      then fail (elim v.message [ none ↦ session_ended | some m ↦ or_text m session_ended ]) s
      else s

  -- Frame 0x04: the server has a shell.
  unfoldable pub on_ready : Session S → Session S
  on_ready s₀ =
      let s = record s₀ {
        hook = record (s₀.hook) { status = connected };
        conn = record (s₀.conn) { connected = true };
      } in
      later fits (later fits (fit_and_resize s))

  abbrev pub write : List ℕ → Session S → Session S
  write payload s = record s { conn = record (s.conn) { written = s.written ++ payload ∷ [] } }

  -- The `switch` on the first byte.
  unfoldable pub on_frame : ℕ → List ℕ → Session S → Session S
  on_frame zero payload s = write payload s
  on_frame (suc zero) payload s = write payload s
  on_frame (suc (suc zero)) payload s = fail (b.decode payload) s
  on_frame (suc (suc (suc zero))) payload s = on_status (b.parse (b.decode payload)) s
  on_frame (suc (suc (suc (suc zero)))) payload s = on_ready s
  on_frame _ payload s = s

  -- `ws.onmessage`
  unfoldable pub on_message : Message → Session S → Session S
  on_message (text _) s = s
  on_message (binary []) s = s
  on_message (binary (first ∷ payload)) s =
      if not (current s) || s.failed then s else on_frame first payload s

  unfoldable pub run_task : Task → Session S → Session S
  run_task pumps s = pump s
  run_task resizes s = send_resize s
  run_task fits s = fit_and_resize s

  -- A timer of `later` runs out; one that was cleared does not.
  unfoldable pub on_timer : ℕ → Session S → Session S
  on_timer t s₀ = elim (find_timer t s₀.timers) [
    | none ↦ s₀
    | some task ↦
        let s = record s₀ { conn = record (s₀.conn) { timers = remove_timer t s₀.timers } } in
        if current s then run_task task s else s
  ]

  -- The first animation frame after `connect`.
  unfoldable pub on_animation_frame : Session S → Session S
  on_animation_frame s₀ =
      let s = record s₀ { conn = record (s₀.conn) { raf = false } } in
      if not s₀.raf then s₀ else (if current s then do_fit s else s)
