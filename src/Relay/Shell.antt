-- ===== src/Relay/Shell.antt =====
-- internal/api/terminal_handler.go, lines 77 to 214, and `Resize` of internal/sshclient/session.go:
-- `readTerminalInput` and the loop that writes to the shell, with the channel between them. A message
-- of the socket is the list of its bytes. `received` logs what went into the channel, `written` the
-- bytes of the calls of `Write` that returned, and `windows` the sizes that the shell took.
use opsup.Prelude.{
  ℕ, zero, suc, ◌*◌, Bool, true, false, not, ◌&&◌, ◌||◌, Option, none, some, List, [], ◌∷◌, ◌++◌,
  leb, ltb, length, if◌then◌else◌,
}
use opsup.Prelude.Int.{ℤ, pos, negsuc}
use opsup.Terminal.Frames.{Frame}

-- `maxTerminalMessage` and `terminalInputQueue`
abbrev pub max_terminal_message : ℕ
max_terminal_message = 64 * 1024

abbrev pub terminal_input_queue : ℕ
terminal_input_queue = 32

-- What the relay uses of the SSH session and of the JSON library: `none` is an error. `parse` gives
-- `cols` and `rows`.
pub record Shell (S : Type 0) : Type 0 where
  pub write : S → List ℕ → Option S
  pub window_change : S → ℕ → ℕ → Option S
  pub parse : List ℕ → Option (ℤ × ℤ)

-- `cancelled` is the state of the context; `reader_done` and `writer_done` tell whether the two
-- goroutines have returned, and `panicked` whether `msg[0]` was read of an empty message.
pub record Relay (S : Type 0) : Type 0 where
  pub shell : S
  pub input : List Frame
  pub cancelled : Bool
  pub reader_done : Bool
  pub writer_done : Bool
  pub panicked : Bool
  pub received : List Frame
  pub written : List ℕ
  pub windows : List (ℕ × ℕ)

-- What happens: the reader gets a message, binary or not, or an error; the writer takes a message; one
-- of the two sees that the context is cancelled; or the context is cancelled from elsewhere, by a
-- failed ping, by the end of the output or by the request.
pub data Event : Type 0 where
  reads : Bool → Frame → Event
  read_fails : Event
  takes : Event
  reader_leaves writer_leaves : Event
  cancels : Event

abbrev pub is_nil : Frame → Bool
is_nil [] = true
is_nil (c ∷ cs) = false

-- `1 <= n && n <= 1000`
abbrev pub in_range : ℤ → Bool
in_range (pos n) = leb 1 n && leb n 1000
in_range (negsuc n) = false

abbrev pub to_ℕ : ℤ → ℕ
to_ℕ (pos n) = n
to_ℕ (negsuc n) = 0

module _ {S : Type 0} where
  -- A goroutine returns, and its deferred `cancel` runs.
  abbrev pub leave_reader : Relay S → Relay S
  leave_reader r = record r { reader_done = true; cancelled = true }

  abbrev pub leave_writer : Relay S → Relay S
  leave_writer r = record r { writer_done = true; cancelled = true }

  -- One round of the reader. A message over the limit is an error of `ReadMessage`.
  unfoldable pub read : Bool → Frame → Relay S → Relay S
  read is_binary msg r =
      if r.reader_done
      then r
      else if ltb max_terminal_message (length msg)
      then leave_reader r
      else if not is_binary || is_nil msg
      then r
      else if ltb (length r.input) terminal_input_queue
      then record r { input = r.input ++ msg ∷ []; received = r.received ++ msg ∷ [] }
      else leave_reader r

  module _ (sh : Shell S) where
    -- `sess.Resize(size.Cols, size.Rows)`
    unfoldable pub resize : ℤ → ℤ → S → Option S
    resize cols rows s =
        if in_range cols && in_range rows then sh.window_change s (to_ℕ rows) (to_ℕ cols) else none

    -- The body of the writer's loop, for a message that it took.
    unfoldable pub handle : Frame → Relay S → Relay S
    unfolding resize
    handle [] r = record r { panicked = true }
    handle (zero ∷ payload) r = elim (sh.write r.shell payload) [
      | none ↦ leave_writer r
      | some s ↦ record r { shell = s; written = r.written ++ payload }
    ]
    handle (suc zero ∷ payload) r = elim (sh.parse payload) [
      | none ↦ leave_writer r
      | some (cols, rows) ↦ elim (resize cols rows r.shell) [
        | none ↦ leave_writer r
        | some s ↦ record r { shell = s; windows = r.windows ++ (to_ℕ cols, to_ℕ rows) ∷ [] }
      ]
    ]
    handle (suc (suc k) ∷ payload) r = leave_writer r

    unfoldable pub take_input : Relay S → Relay S
    unfolding handle
    take_input r =
        if r.writer_done
        then r
        else elim r.input [ [] ↦ r | msg ∷ rest ↦ handle msg (record r { input = rest }) ]

    unfoldable pub react : Event → Relay S → Relay S
    unfolding read take_input
    react (reads is_binary msg) r = read is_binary msg r
    react read_fails r = if r.reader_done then r else leave_reader r
    react takes r = take_input r
    react reader_leaves r = if r.cancelled then leave_reader r else r
    react writer_leaves r = if r.cancelled then leave_writer r else r
    react cancels r = record r { cancelled = true }

    unfoldable pub run : List Event → Relay S → Relay S
    run [] r = r
    run (e ∷ es) r = run es (react e r)

  -- The relay of a shell that was started.
  abbrev pub started : S → Relay S
  started s = record {
    shell = s;
    input = [];
    cancelled = false;
    reader_done = false;
    writer_done = false;
    panicked = false;
    received = [];
    written = [];
    windows = [];
  }
