-- ===== src/Terminal/Tests.antt =====
-- A socket that counts what it buffers, runs of the callbacks on it, and instances of the theorems.
use opsup.Prelude.{
  ℕ, ◌+◌, ◌≡◌, refl, Bool, true, false, none, some, Option, List, [], ◌∷◌, ◌⊎◌, inr, arith, length,
  if◌then◌else◌, ltb, codes,
}
use opsup.Prelude.Decimal.{decimal}
use opsup.Terminal.Frames.{Frame, encode, input_frames, keystrokes, keystrokes-input_frames}
use opsup.Terminal.State.{
  connecting, Browser, Hook, Session, find_timer, remove_timer, pumps, clear_timer,
}
use opsup.Terminal.Handlers.{
  binary, next_frame, stringify_size, fail, pump_loop, after_loop, pump, send_data, send_resize,
  on_resize, take_size, do_fit, on_status, on_ready, on_frame, on_message, run_task, on_timer,
  on_animation_frame, socket_closed, send_failed,
}
use opsup.Terminal.Page.{
  Address, Event, Action, typed, received, closed, socket_moved, connects, happens, lays_out,
  first_page, socket_url, fresh, retire, cleanup, connect, react, deliver, act, run,
}
use opsup.Terminal.Queue.{Streams}
use opsup.Terminal.Queue.{pump_loop-ends}
use opsup.Terminal.Quiet.{IsUnseen, react_all, react_all-quiet}
use opsup.Terminal.Delivery.{accepted_all, react_all-Streams}
use opsup.Terminal.Lifecycle.{IsSound, run-first_page-IsSound}
use opsup.Terminal.Progress.{NeverReopens, Waits}
use opsup.Terminal.Wakeup.{started, waiting_has_timer}
use opsup.Terminal.Palette.{hex_to_rgb, parse_hex, parse_rest, number_text}
use opsup.Terminal.Failure.{last_send_throws}

-- Frames longer than `limit` bytes make `send` throw.
record Socket : Type 0 where
  is_up : Bool
  held : ℕ
  limit : ℕ

abbrev send_on : Socket → Frame → Option Socket
send_on w f = if ltb w.limit (length f) then none else some (record w { held = w.held + length f })

abbrev browser : Browser Socket
browser = record {
  new_socket = λ _. record { is_up = true; held = 0; limit = 100 };
  is_open = λ w. w.is_up;
  buffered = λ w. w.held;
  send = send_on;
  close = λ w. record w { is_up = false };
  terminal_size = record { cols = 80; rows = 24 };
  fit = λ w h. some (record { cols = 100; rows = 30 });
  decode = λ _. "decoded";
  parse = λ _. none;
  encode_component = λ s. s;
}

browser-NeverReopens : NeverReopens browser
browser-NeverReopens = record { by_send = λ ws f ws' e h. ground arith; by_close = λ ws. refl }

all_callbacks : Unit {0}
unfolding stringify_size decimal encode input_frames keystrokes find_timer remove_timer clear_timer
    fail pump_loop after_loop pump send_data send_resize on_resize take_size do_fit on_status
    on_ready on_frame on_message run_task on_timer on_animation_frame socket_url fresh retire
    cleanup connect react deliver act run react_all accepted_all
all_callbacks = tt

abbrev hook : Hook
hook = record {
  generation = 1;
  status = connecting;
  error_msg = "";
  is_active = true;
  mounted = true;
  client_width = 640;
  client_height = 480;
}

abbrev full : Socket
full = record { is_up = true; held = 262144; limit = 100 }

-- The shell comes up, "hi" is typed and sent, the buffer fills, "é" waits, and the timer is set.
abbrev story : List (Event Socket)
story = received (binary (4 ∷ [])) ∷ typed (codes "hi") ∷ socket_moved full ∷ typed (codes "é") ∷ []

abbrev start : Session Socket
start = started browser hook (browser.new_socket "")

story_waits : Waits browser (react_all browser story start).conn
unfolding all_callbacks
story_waits = (refl, refl, omega arith)

story_streams : (accepted_all browser story start ≡ 0x68 ∷ 0x69 ∷ 0xc3 ∷ 0xa9 ∷ [])
unfolding all_callbacks
story_streams = refl

size_text : stringify_size (record { cols = 120; rows = 7 }) ≡ codes "{\"cols\":120,\"rows\":7}"
unfolding all_callbacks
size_text = refl

keystrokes-input_frames_example :
    keystrokes (input_frames (0x4f60 ∷ 0x1f600 ∷ [])) ≡ encode (0x4f60 ∷ 0x1f600 ∷ [])
keystrokes-input_frames_example = keystrokes-input_frames (0x4f60 ∷ 0x1f600 ∷ [])

abbrev failed_session : Session Socket
failed_session = record start { conn = record (start.conn) { failed = true } }

react_all-quiet_example : IsUnseen failed_session (react_all browser story failed_session)
unfolding all_callbacks
react_all-quiet_example = react_all-quiet browser story failed_session (inr (refl, refl))

react_all-Streams_example :
    Streams (accepted_all browser story start) (react_all browser story start).conn
unfolding all_callbacks
react_all-Streams_example =
    react_all-Streams browser story start []
      (record { rest = []; whole = refl; kept = λ _. refl; bound = omega arith; alive = λ _. refl })

abbrev address : Address
address = record { is_https = true; host = "ops.example"; server_id = "7" }

abbrev life : List (Action Socket)
life =
    lays_out true true 640 480
    ∷ connects address "token"
    ∷ happens (received (binary (4 ∷ [])))
    ∷ connects address "token"
    ∷ happens closed
    ∷ []

run-first_page-IsSound_example : IsSound browser (run browser life first_page)
run-first_page-IsSound_example = run-first_page-IsSound browser life

life_ends : (run browser life first_page).error_msg ≡ socket_closed
unfolding all_callbacks
life_ends = refl

waiting_has_timer_example :
    let c = (react_all browser story start).conn in
    (t : ℕ) × (c.pump_timer ≡ some t) × (find_timer t c.timers ≡ some pumps)
unfolding all_callbacks
waiting_has_timer_example =
    waiting_has_timer browser browser-NeverReopens hook (browser.new_socket "") story
      (tt, (tt, ((λ _ _. refl), (tt, tt)))) story_waits

-- A connection that is ready, with one frame that its socket refuses.
abbrev refusing : Session Socket
refusing = record start {
  conn = record (start.conn) {
    connected = true;
    queue = (0 ∷ 0x68 ∷ []) ∷ [];
    ws = record { is_up = true; held = 0; limit = 1 };
  };
}

pump_loop-ends_example :
    let r = pump_loop browser 1 refusing.conn in (r.1 ≡ true) ⊎ (next_frame browser r.0 ≡ none)
unfolding fresh
pump_loop-ends_example = pump_loop-ends browser 1 refusing.conn (omega arith)

last_send_throws_example : (pump browser refusing).error_msg ≡ send_failed
unfolding fresh
last_send_throws_example =
    (last_send_throws browser refusing (0 ∷ 0x68 ∷ []) refl refl refl refl refl refl).0

blue_selection : hex_to_rgb (codes "#1677ff") ≡ codes "22,119,255"
unfolding hex_to_rgb parse_hex parse_rest number_text decimal
blue_selection = refl
