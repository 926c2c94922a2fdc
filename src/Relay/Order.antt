-- ===== src/Relay/Order.antt =====
-- The bytes that reach the shell, and the channel on their way.
use opsup.Prelude.{
  ℕ, zero, suc, ◌≤◌, ◌<◌, ◌≡◌, refl, sym, ap, ◌∙◌, Bool, false, not, ◌||◌, List, [], ◌∷◌, ◌++◌,
  arith, ltb, length, append_assoc, append-nil, length-append, inl, inr, Option-cases, All,
  All-append, if_rule,
}
use opsup.Terminal.Frames.{Frame, keystrokes, keystrokes-append}
use opsup.Relay.Shell.{
  Shell, Relay, Event, reads, read_fails, takes, reader_leaves, writer_leaves, cancels, is_nil,
  leave_reader, leave_writer, read, resize, handle, take_input, react, run, started,
  max_terminal_message, terminal_input_queue,
}

keystrokes-concat :
    (fs : List Frame) (f : Frame) → keystrokes (fs ++ f ∷ []) ≡ keystrokes fs ++ keystrokes (f ∷ [])
keystrokes-concat fs f = keystrokes-append fs (f ∷ [])

module _ {S : Type 0} where
  -- The shell has a prefix of the keystrokes that were received, and what is missing waits in the
  -- channel, unless the writer has returned. The channel is within its bound and has no empty message.
  pub record Ordered (r : Relay S) : Type 0 where
    pub rest : List ℕ
    pub whole : r.written ++ rest ≡ keystrokes r.received
    pub kept : r.writer_done ≡ false → rest ≡ keystrokes r.input
    pub bound : length r.input ≤ terminal_input_queue
    pub full : All (λ m. is_nil m ≡ false) r.input
    pub sane : r.panicked ≡ false

  leave_reader-Ordered : (r : Relay S) → Ordered r → Ordered (leave_reader r)
  leave_reader-Ordered r v = record {
    rest = v.rest;
    whole = v.whole;
    kept = v.kept;
    bound = v.bound;
    full = v.full;
    sane = v.sane;
  }

  enqueue : Frame → Relay S → Relay S
  enqueue msg r = record r { input = r.input ++ msg ∷ []; received = r.received ++ msg ∷ [] }

  enqueue-Ordered :
      (msg : Frame) (r : Relay S)
      → is_nil msg ≡ false
      → length r.input < terminal_input_queue
      → Ordered r
      → Ordered (enqueue msg r)
  unfolding enqueue
  enqueue-Ordered msg r nonempty room v = record {
    rest = v.rest ++ keystrokes (msg ∷ []);
    whole =
        sym (append_assoc r.written v.rest (keystrokes (msg ∷ [])))
        ∙ ap (λ x. x ++ keystrokes (msg ∷ [])) v.whole
        ∙ sym (keystrokes-concat r.received msg);
    kept =
        λ e. ap (λ x. x ++ keystrokes (msg ∷ [])) (v.kept e) ∙ sym (keystrokes-concat r.input msg);
    bound = omega (arith, length-append {0} r.input (msg ∷ []));
    full = All-append (λ m. is_nil m ≡ false) r.input (msg ∷ []) v.full (nonempty, tt);
    sane = v.sane;
  }

  read-Ordered :
      (is_binary : Bool) (msg : Frame) (r : Relay S) → Ordered r → Ordered (read is_binary msg r)
  unfolding read enqueue
  read-Ordered is_binary msg r v =
      if_rule Ordered r.reader_done _ _ (λ _. v)
        λ _.
          if_rule Ordered (ltb max_terminal_message (length msg)) _ _
            (λ _. leave_reader-Ordered r v)
            λ _.
              if_rule Ordered (not is_binary || is_nil msg) _ _ (λ _. v)
                λ kept.
                  if_rule Ordered (ltb (length r.input) terminal_input_queue) _ _
                    (λ room. enqueue-Ordered msg r (ground (arith, kept)) (ground (arith, room)) v)
                    (λ _. leave_reader-Ordered r v)

  leave_writer-Ordered : (r : Relay S) → Ordered r → Ordered (leave_writer r)
  leave_writer-Ordered r v = record {
    rest = v.rest;
    whole = v.whole;
    kept = λ e. absurd (cc e);
    bound = v.bound;
    full = v.full;
    sane = v.sane;
  }

  -- The writer holds a message that it took.
  record Holding (msg : Frame) (r : Relay S) : Type 0 where
    whole : r.written ++ (keystrokes (msg ∷ []) ++ keystrokes r.input) ≡ keystrokes r.received
    bound : length r.input ≤ terminal_input_queue
    full : All (λ m. is_nil m ≡ false) r.input
    nonempty : is_nil msg ≡ false
    sane : r.panicked ≡ false

  take-Holding :
      (msg : Frame) (rest : List Frame) (r : Relay S)
      → r.input ≡ msg ∷ rest
      → r.writer_done ≡ false
      → Ordered r
      → Holding msg (record r { input = rest })
  take-Holding msg rest r e on v = record {
    whole =
        ap (λ x. r.written ++ x)
          (sym (keystrokes-append (msg ∷ []) rest) ∙ sym (ap keystrokes e) ∙ sym (v.kept on))
        ∙ v.whole;
    bound = omega (arith, v.bound, ap length e);
    full = (rw e at v.full).1;
    nonempty = (rw e at v.full).0;
    sane = v.sane;
  }

  drop-Ordered : (msg : Frame) (r : Relay S) → Holding msg r → Ordered (leave_writer r)
  drop-Ordered msg r h = record {
    rest = keystrokes (msg ∷ []) ++ keystrokes r.input;
    whole = h.whole;
    kept = λ e. absurd (cc e);
    bound = h.bound;
    full = h.full;
    sane = h.sane;
  }

  -- The message is done with: its keystrokes were written.
  done-Ordered :
      (msg : Frame) (r q : Relay S)
      → Holding msg r
      → q.written ≡ r.written ++ keystrokes (msg ∷ [])
      → q.input ≡ r.input
      → q.received ≡ r.received
      → q.panicked ≡ r.panicked
      → Ordered q
  done-Ordered msg r q h written input received panicked = record {
    rest = keystrokes r.input;
    whole =
        ap (λ x. x ++ keystrokes r.input) written
        ∙ append_assoc r.written (keystrokes (msg ∷ [])) (keystrokes r.input)
        ∙ h.whole
        ∙ sym (ap keystrokes received);
    kept = λ _. sym (ap keystrokes input);
    bound = omega (arith, h.bound, ap length input);
    full = rw input h.full;
    sane = panicked ∙ h.sane;
  }

  module _ (sh : Shell S) where
    handle-Ordered : (msg : Frame) (r : Relay S) → Holding msg r → Ordered (handle sh msg r)
    unfolding handle resize keystrokes
    handle-Ordered [] r h = absurd (cc h.nonempty)
    handle-Ordered (zero ∷ payload) r h = elim (Option-cases (sh.write r.shell payload)) [
      | inl failed ↦ rw (failed, handle) (drop-Ordered (zero ∷ payload) r h)
      | inr (s, e) ↦
          rw (e, handle)
            (done-Ordered (zero ∷ payload) r _ h
              (ap (λ x. r.written ++ x) (sym (append-nil payload))) refl refl refl)
    ]
    handle-Ordered (suc zero ∷ payload) r h = elim (Option-cases (sh.parse payload)) [
      | inl failed ↦ rw (failed, handle) (drop-Ordered (suc zero ∷ payload) r h)
      | inr ((cols, rows), e) ↦ elim (Option-cases (resize sh cols rows r.shell)) [
        | inl refused ↦ rw (e, handle, refused) (drop-Ordered (suc zero ∷ payload) r h)
        | inr (s, f) ↦
            rw (e, handle, f)
              (done-Ordered (suc zero ∷ payload) r _ h (sym (append-nil r.written)) refl refl refl)
      ]
    ]
    handle-Ordered (suc (suc k) ∷ payload) r h = drop-Ordered (suc (suc k) ∷ payload) r h

    take_input-Ordered : (r : Relay S) → Ordered r → Ordered (take_input sh r)
    unfolding take_input
    take_input-Ordered r v = if_rule Ordered r.writer_done _ _ (λ _. v) (λ on. go r.input refl on)
      where
        go :
            (input : List Frame)
            → r.input ≡ input
            → r.writer_done ≡ false
            → Ordered
                (elim input [ [] ↦ r | msg ∷ rest ↦ handle sh msg (record r { input = rest }) ])
        go [] e on = v
        go (msg ∷ rest) e on =
            handle-Ordered msg (record r { input = rest }) (take-Holding msg rest r e on v)

    react-Ordered : (e : Event) (r : Relay S) → Ordered r → Ordered (react sh e r)
    unfolding react
    react-Ordered (reads is_binary msg) r v = read-Ordered is_binary msg r v
    react-Ordered read_fails r v =
        if_rule Ordered r.reader_done _ _ (λ _. v) (λ _. leave_reader-Ordered r v)
    react-Ordered takes r v = take_input-Ordered r v
    react-Ordered reader_leaves r v =
        if_rule Ordered r.cancelled _ _ (λ _. leave_reader-Ordered r v) (λ _. v)
    react-Ordered writer_leaves r v =
        if_rule Ordered r.cancelled _ _ (λ _. leave_writer-Ordered r v) (λ _. v)
    react-Ordered cancels r v = record {
      rest = v.rest;
      whole = v.whole;
      kept = v.kept;
      bound = v.bound;
      full = v.full;
      sane = v.sane;
    }

    run-Ordered : (es : List Event) (r : Relay S) → Ordered r → Ordered (run sh es r)
    unfolding run
    run-Ordered [] r v = v
    run-Ordered (e ∷ es) r v = run-Ordered es (react sh e r) (react-Ordered e r v)

    -- Whatever the socket gives to the reader, and whenever the writer takes a message: the bytes that
    -- the shell has are the first keystrokes of the messages received, in order; the rest waits in the
    -- channel until the writer returns; the channel has 32 messages at most, none of them empty; and the
    -- first byte of an empty message is never asked for.
    pub run-started-Ordered : (es : List Event) (s : S) → Ordered (run sh es (started s))
    unfolding keystrokes
    run-started-Ordered es s = run-Ordered es (started s) (record {
      rest = [];
      whole = refl;
      kept = λ _. refl;
      bound = omega arith;
      full = tt;
      sane = refl;
    })
