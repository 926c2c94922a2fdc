-- ===== src/Relay/Tests.antt =====
-- A shell that counts the bytes it is given, runs of the relay on it, and instances of the theorems.
use opsup.Prelude.{
  ℕ, ◌+◌, ◌≡◌, refl, true, none, some, List, [], ◌∷◌, ◌++◌, length, codes, ltb, if◌then◌else◌,
}
use opsup.Prelude.Int.{pos}
use opsup.Prelude.Decimal.{decimal}
use opsup.Terminal.Frames.{encode, input_frames, keystrokes}
use opsup.Terminal.State.{connecting, Browser, Hook, Session, find_timer, remove_timer, clear_timer}
use opsup.Terminal.Handlers.{
  binary, stringify_size, fail, pump_loop, after_loop, pump, send_data, send_resize, on_resize,
  take_size, do_fit, on_status, on_ready, on_frame, on_message, run_task, on_timer,
  on_animation_frame,
}
use opsup.Terminal.Page.{Event, typed, received, fresh, react}
use opsup.Terminal.Quiet.{react_all}
use opsup.Terminal.Delivery.{accepted_all}
use opsup.Terminal.Wakeup as Wakeup
use opsup.Relay.Shell.{
  Shell, Relay, reads, takes, cancels, writer_leaves, leave_reader, read, resize, handle,
  take_input, run, started,
}
use opsup.Relay.Shell as Relayed
use opsup.Relay.Order.{Ordered, run-started-Ordered}
use opsup.Relay.EndToEnd.{arrival, arrivals, Begins, typed-written}

-- A socket that takes every frame.
abbrev browser : Browser ℕ
browser = record {
  new_socket = λ _. 0;
  is_open = λ w. true;
  buffered = λ w. 0;
  send = λ w f. some (w + length f);
  close = λ w. w;
  terminal_size = record { cols = 80; rows = 24 };
  fit = λ w h. some (record { cols = 100; rows = 30 });
  decode = λ _. "decoded";
  parse = λ _. none;
  encode_component = λ s. s;
}

abbrev hook : Hook
hook = record {
  generation = 1;
  status = connecting;
  error_msg = "";
  is_active = true;
  mounted = true;
  client_width = 640;
  client_height = 480;
}

-- The shell is full at ten bytes, and every size is 120 times 7.
abbrev shell : Shell ℕ
shell = record {
  write = λ n bytes. if ltb 10 (n + length bytes) then none else some (n + length bytes);
  window_change = λ n rows cols. some n;
  parse = λ _. some (pos 120, pos 7);
}

abbrev client : Session ℕ
client = Wakeup.started browser hook 0

-- The shell is ready, and "hi" and "é" are typed.
abbrev story : List (Event ℕ)
story = received (binary (4 ∷ [])) ∷ typed (codes "hi") ∷ typed (codes "é") ∷ []

-- The relay gets the three frames, and the writer takes two of them.
abbrev relayed : List Relayed.Event
relayed =
    reads true (1 ∷ codes "{\"cols\":100,\"rows\":30}")
    ∷ takes
    ∷ reads true (0 ∷ 0x68 ∷ 0x69 ∷ [])
    ∷ takes
    ∷ reads true (0 ∷ 0xc3 ∷ 0xa9 ∷ [])
    ∷ cancels
    ∷ []

all_callbacks : Unit {0}
unfolding stringify_size decimal encode input_frames keystrokes find_timer remove_timer clear_timer
    fail pump_loop after_loop pump send_data send_resize on_resize take_size do_fit on_status
    on_ready on_frame on_message run_task on_timer on_animation_frame fresh react react_all
    accepted_all arrival arrivals read resize handle take_input Relayed.react run
all_callbacks = tt

relayed_part : (run shell relayed (started 0)).written ≡ 0x68 ∷ 0x69 ∷ []
unfolding all_callbacks
relayed_part = refl

-- A message of the resize type, and a type that there is not.
relayed_size :
    (run shell
      (reads true (1 ∷ 0x7b ∷ []) ∷ takes ∷ reads true (7 ∷ []) ∷ takes ∷ [])
      (started 0)).windows
    ≡ (120, 7) ∷ []
unfolding all_callbacks
relayed_size = refl

-- More columns than `Resize` takes end the writer.
abbrev wide : Shell ℕ
wide = record shell { parse = λ _. some (pos 1001, pos 50) }

wide_ends : (run wide (reads true (1 ∷ 0x7b ∷ []) ∷ takes ∷ []) (started 0)).writer_done ≡ true
unfolding all_callbacks
wide_ends = refl

run-started-Ordered_example : Ordered (run shell relayed (started 0))
run-started-Ordered_example = run-started-Ordered shell relayed 0

came : arrivals relayed ++ [] ≡ (react_all browser story client).sent
unfolding all_callbacks
came = refl

typed-written_example :
    Begins (run shell relayed (started 0)).written (accepted_all browser story client)
typed-written_example = typed-written browser shell hook 0 story 0 relayed [] came
