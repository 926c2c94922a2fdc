-- ===== src/Terminal/Delivery.antt =====
-- Typed text reaches the socket once and in order.
use opsup.Prelude.{
  ℕ, zero, suc, ◌≡◌, inl, inr, true, false, not, ◌||◌, Option, none, some, List, [], ◌∷◌, ◌++◌,
  append-nil, append_assoc, arith, if◌then◌else◌, drop, Bool-cases, Option-cases, drop-append,
  length-append,
}
use opsup.Terminal.Frames.{
  encode, input_frames, keystrokes, keystrokes-append, keystrokes-input_frames,
}
use opsup.Terminal.State.{
  connected, StatusValue, Task, pumps, resizes, fits, Browser, Conn, Session, current, find_timer,
  remove_timer,
}
use opsup.Terminal.Handlers.{
  Message, text, binary, fail, is_blocked, write, send_data, send_resize, do_fit, on_status,
  on_ready, on_frame, on_message, run_task, on_timer, stringify_size,
}
use opsup.Terminal.Page.{
  Event, typed, resized, observed, received, closed, errored, timer, animation_frame, socket_moved,
  react,
}
use opsup.Terminal.Queue.{Streams, fail-Streams, pump-Streams}
use opsup.Terminal.Quiet.{
  IsUnseen, take_size-IsUnseen, do_fit-IsUnseen, on_animation_frame-IsUnseen, react_all,
}

module _ {S : Type 0} (b : Browser S) where
  Streams-unseen :
      (s t : Session S) {bytes : List ℕ}
      → IsUnseen s t
      → Streams bytes s.conn
      → Streams bytes t.conn
  Streams-unseen s t u v = record {
    rest = v.rest;
    whole = ground arith;
    kept = ground arith;
    bound = ground arith;
    alive = ground arith;
  }

  send_resize-Streams :
      (s : Session S) {bytes : List ℕ} → Streams bytes s.conn → Streams bytes (send_resize b s).conn
  unfolding send_resize fail keystrokes
  send_resize-Streams s v = record {
    rest = v.rest;
    whole = ground (
      arith,
      keystrokes-append s.sent ((1 ∷ encode (stringify_size s.size)) ∷ []),
      append-nil (keystrokes s.sent),
    );
    kept = ground arith;
    bound = ground arith;
    alive = ground arith;
  }

  -- What the connection takes of a typed text: all of it, unless it is not ready for input.
  abbrev pub accepted : Event S → Session S → List ℕ
  accepted (typed input) s = if is_blocked b s then [] else encode input
  accepted _ s = []

  enqueue-Streams :
      (c : Conn S) (input bytes : List ℕ)
      → Streams bytes c
      → c.failed ≡ false
      → Streams (bytes ++ encode input) (record c { queue = c.queue ++ input_frames input })
  unfolding keystrokes
  enqueue-Streams c input bytes v f = record {
    rest = v.rest ++ encode input;
    whole = ground (arith, append_assoc (keystrokes c.sent) v.rest (encode input));
    kept = λ _. ground (
      arith,
      v.kept f,
      drop-append c.queue_index c.queue (input_frames input) v.bound,
      keystrokes-append (drop c.queue_index c.queue) (input_frames input),
      keystrokes-input_frames input,
    );
    bound = omega (arith, v.bound, length-append c.queue (input_frames input));
    alive = λ _. f;
  }

  send_data-Streams :
      (input : List ℕ) (s : Session S) {bytes : List ℕ}
      → Streams bytes s.conn
      → Streams (bytes ++ accepted (typed input) s) (send_data b input s).conn
  unfolding send_data
  send_data-Streams input s {bytes} v = elim (Bool-cases (is_blocked b s)) [
    | inl blocked ↦ rw (blocked, send_data, append-nil bytes) v
    | inr free ↦
        let f : s.failed ≡ false = ground (arith, v.alive) in
        let w = enqueue-Streams s.conn input bytes v f in
        elim (Option-cases s.pump_timer) [
          | inl idle ↦ rw (free, idle, send_data) (pump-Streams b _ w)
          | inr (t, waits) ↦ rw (free, waits, send_data) w
        ]
  ]

  on_ready-Streams :
      (s : Session S) {bytes : List ℕ}
      → s.failed ≡ false
      → Streams bytes s.conn
      → Streams bytes (on_ready b s).conn
  unfolding on_ready
  on_ready-Streams s {bytes} f v =
      let t : Session S = record s {
        hook = record (s.hook) { status = connected };
        conn = record (s.conn) { connected = true };
      } in
      let w : Streams bytes t.conn = record {
        rest = v.rest;
        whole = v.whole;
        kept = v.kept;
        bound = v.bound;
        alive = λ _. f;
      } in
      let u =
        send_resize-Streams (do_fit b t) (Streams-unseen t (do_fit b t) (do_fit-IsUnseen b t) w) in
      record { rest = u.rest; whole = u.whole; kept = u.kept; bound = u.bound; alive = u.alive }

  on_status-Streams :
      (o : Option StatusValue) (s : Session S) {bytes : List ℕ}
      → Streams bytes s.conn
      → Streams bytes (on_status b o s).conn
  unfolding on_status
  on_status-Streams none s v = v
  on_status-Streams (some r) s v = elim (Bool-cases r.connected_is_false) [
    | inl ended ↦ rw (ended, on_status) (fail-Streams b _ s v)
    | inr alive ↦ rw (alive, on_status) v
  ]

  write-Streams :
      (payload : List ℕ) (s : Session S) {bytes : List ℕ}
      → Streams bytes s.conn
      → Streams bytes (write b payload s).conn
  write-Streams payload s v = record {
    rest = v.rest;
    whole = v.whole;
    kept = v.kept;
    bound = v.bound;
    alive = v.alive;
  }

  on_frame-Streams :
      (first : ℕ) (payload : List ℕ) (s : Session S) {bytes : List ℕ}
      → s.failed ≡ false
      → Streams bytes s.conn
      → Streams bytes (on_frame b first payload s).conn
  unfolding on_frame
  on_frame-Streams zero payload s f v = write-Streams payload s v
  on_frame-Streams (suc zero) payload s f v = write-Streams payload s v
  on_frame-Streams (suc (suc zero)) payload s f v = fail-Streams b _ s v
  on_frame-Streams (suc (suc (suc zero))) payload s f v = on_status-Streams _ s v
  on_frame-Streams (suc (suc (suc (suc zero)))) payload s f v = on_ready-Streams s f v
  on_frame-Streams (suc (suc (suc (suc (suc n))))) payload s f v = v

  run_task-Streams :
      (t : Task) (s : Session S) {bytes : List ℕ}
      → Streams bytes s.conn
      → Streams bytes (run_task b t s).conn
  unfolding run_task
  run_task-Streams pumps s v = pump-Streams b s v
  run_task-Streams resizes s v = send_resize-Streams s v
  run_task-Streams fits s v =
      send_resize-Streams (do_fit b s) (Streams-unseen s (do_fit b s) (do_fit-IsUnseen b s) v)

  on_message-Streams :
      (m : Message) (s : Session S) {bytes : List ℕ}
      → Streams bytes s.conn
      → Streams bytes (on_message b m s).conn
  unfolding on_message
  on_message-Streams (text m) s v = v
  on_message-Streams (binary []) s v = v
  on_message-Streams (binary (first ∷ payload)) s v =
      elim (Bool-cases (not (current s) || s.failed)) [
        | inl ignored ↦ rw (ignored, on_message) v
        | inr taken ↦ rw (taken, on_message) (on_frame-Streams first payload s (ground arith) v)
      ]

  on_timer-Streams :
      (t : ℕ) (s : Session S) {bytes : List ℕ}
      → Streams bytes s.conn
      → Streams bytes (on_timer b t s).conn
  unfolding on_timer
  on_timer-Streams t s {bytes} v = elim (Option-cases (find_timer t s.timers)) [
    | inl cleared ↦ rw (cleared, on_timer) v
    | inr (task, due) ↦
        let s' : Session S = record s {
          conn = record (s.conn) { timers = remove_timer t s.timers };
        } in
        let w : Streams bytes s'.conn = record {
          rest = v.rest;
          whole = v.whole;
          kept = v.kept;
          bound = v.bound;
          alive = v.alive;
        } in
        elim (Bool-cases (current s)) [
          | inl here ↦ rw (due, here, on_timer) (run_task-Streams task s' w)
          | inr stale ↦ rw (due, stale, on_timer) w
        ]
  ]

  -- One event adds what it takes of a typed text to the stream, and nothing else.
  react-Streams :
      (e : Event S) (s : Session S) (bytes : List ℕ)
      → Streams bytes s.conn
      → Streams (bytes ++ accepted e s) (react b e s).conn
  unfolding react run_task
  react-Streams (typed input) s bytes v = elim (Bool-cases (current s)) [
    | inl here ↦ rw (here, react) (rw here at (send_data-Streams input s v))
    | inr stale ↦ rw (stale, react, append-nil bytes) v
  ]
  react-Streams (resized d) s bytes v =
      rw (append-nil bytes) (Streams-unseen s _ (take_size-IsUnseen b d s) v)
  react-Streams observed s bytes v = rw (append-nil bytes) (elim (Bool-cases (current s)) [
    | inl here ↦ rw (here, react) (run_task-Streams fits s v)
    | inr stale ↦ rw (stale, react) v
  ])
  react-Streams (received m) s bytes v = rw (append-nil bytes) (on_message-Streams m s v)
  react-Streams closed s bytes v = rw (append-nil bytes) (fail-Streams b _ s v)
  react-Streams errored s bytes v = rw (append-nil bytes) (fail-Streams b _ s v)
  react-Streams (timer t) s bytes v = rw (append-nil bytes) (on_timer-Streams t s v)
  react-Streams animation_frame s bytes v =
      rw (append-nil bytes) (Streams-unseen s _ (on_animation_frame-IsUnseen b s) v)
  react-Streams (socket_moved w) s bytes v =
      rw (append-nil bytes)
        (record { rest = v.rest; whole = v.whole; kept = v.kept; bound = v.bound; alive = v.alive })

  -- All that the connection takes, over a sequence of events.
  unfoldable pub accepted_all : List (Event S) → Session S → List ℕ
  accepted_all [] s = []
  accepted_all (e ∷ es) s = accepted e s ++ accepted_all es (react b e s)

  -- If `bytes` were sent or wait before a sequence of events, then after it the keystrokes sent,
  -- and after these a rest, are `bytes` and the encoding of every typed text that the connection
  -- took, in order; if the connection has not failed, then the rest is what waits in its queue.
  pub react_all-Streams :
      (es : List (Event S)) (s : Session S) (bytes : List ℕ)
      → Streams bytes s.conn
      → Streams (bytes ++ accepted_all es s) (react_all b es s).conn
  unfolding react_all accepted_all
  react_all-Streams [] s bytes v = rw (append-nil bytes) v
  react_all-Streams (e ∷ es) s bytes v =
      rw (← append_assoc bytes (accepted e s) (accepted_all es (react b e s)))
        (react_all-Streams es (react b e s) (bytes ++ accepted e s) (react-Streams e s bytes v))
