-- ===== src/Relay/EndToEnd.antt =====
-- From the keyboard to the shell: the hook of ui/src/hooks/useTerminalConnection.ts sends, and the
-- relay of internal/api/terminal_handler.go writes. The socket gives the backend the frames that were
-- sent, in order, up to some point.
use opsup.Prelude.{
  ◌≡◌, refl, sym, ap, ◌∙◌, Bool, true, false, zero, suc, ◌⊎◌, inl, inr, arith, List, [], ◌∷◌, ◌++◌,
  append_assoc, append-nil, if_rule,
}
use opsup.Terminal.Frames.{Frame, keystrokes, keystrokes-append}
use opsup.Terminal.State.{Browser, Hook}
use opsup.Terminal.Page.{fresh}
use opsup.Terminal.Page as Page
use opsup.Terminal.Quiet.{react_all}
use opsup.Terminal.Queue.{Streams}
use opsup.Terminal.Delivery.{accepted_all, react_all-Streams}
use opsup.Terminal.Wakeup as Wakeup
use opsup.Relay.Shell.{
  Shell, Relay, Event, reads, read_fails, takes, reader_leaves, writer_leaves, cancels, read,
  handle, take_input, react, run, started,
}
use opsup.Relay.Order.{run-started-Ordered}

-- The messages that the reader was given and does not skip.
unfoldable pub arrival : Event → List Frame
arrival (reads true (c ∷ cs)) = (c ∷ cs) ∷ []
arrival _ = []

unfoldable pub arrivals : List Event → List Frame
arrivals [] = []
arrivals (e ∷ es) = arrival e ++ arrivals es

-- One list is the first part of another.
abbrev pub Begins : {A : Type 0} → List A → List A → Type 0
Begins {A} xs ys = (rest : List A) × (xs ++ rest ≡ ys)

Begins-trans : {A : Type 0} (xs ys zs : List A) → Begins xs ys → Begins ys zs → Begins xs zs
Begins-trans xs ys zs (r, e) (q, f) = (r ++ q, sym (append_assoc xs r q) ∙ ap (λ x. x ++ q) e ∙ f)

keystrokes-Begins : (fs gs : List Frame) → Begins fs gs → Begins (keystrokes fs) (keystrokes gs)
keystrokes-Begins fs gs (more, e) =
    (keystrokes more, sym (keystrokes-append fs more) ∙ ap keystrokes e)

-- The reader's part of a state.
abbrev SameReader : {S : Type 0} → Relay S → Relay S → Type 0
SameReader r q = (q.received ≡ r.received) × (q.reader_done ≡ r.reader_done)

-- The step took what came, or the reader has returned.
abbrev Step : {S : Type 0} → List Frame → Relay S → Relay S → Type 0
Step came r q =
    (q.received ≡ r.received ++ came) ⊎ ((q.received ≡ r.received) × (q.reader_done ≡ true))

module _ {S : Type 0} where
  read-Step :
      (is_binary : Bool) (msg : Frame) (r : Relay S)
      → Step (arrival (reads is_binary msg)) r (read is_binary msg r)
  unfolding read arrival
  read-Step is_binary [] r = ground (arith, append-nil r.received)
  read-Step false (c ∷ cs) r = ground (arith, append-nil r.received)
  read-Step true (c ∷ cs) r = ground arith

  module _ (sh : Shell S) where
    handle-reader : (msg : Frame) (r : Relay S) → SameReader r (handle sh msg r)
    unfolding handle
    handle-reader [] r = (refl, refl)
    handle-reader (zero ∷ payload) r = ground arith
    handle-reader (suc zero ∷ payload) r = ground arith
    handle-reader (suc (suc k) ∷ payload) r = (refl, refl)

    take_input-reader : (r : Relay S) → SameReader r (take_input sh r)
    unfolding take_input
    take_input-reader r =
        if_rule (SameReader r) r.writer_done _ _ (λ _. (refl, refl)) (λ _. go r.input)
      where
        go :
            (input : List Frame)
            → SameReader r
                (elim input [ [] ↦ r | msg ∷ rest ↦ handle sh msg (record r { input = rest }) ])
        go [] = (refl, refl)
        go (msg ∷ rest) = handle-reader msg (record r { input = rest })

    same-Step : (r q : Relay S) → SameReader r q → Step [] r q
    same-Step r q h = inl (h.0 ∙ sym (append-nil r.received))

    react-Step : (e : Event) (r : Relay S) → Step (arrival e) r (react sh e r)
    unfolding react arrival
    react-Step (reads is_binary msg) r = read-Step is_binary msg r
    react-Step read_fails r = ground (arith, append-nil r.received)
    react-Step takes r = same-Step r (take_input sh r) (take_input-reader r)
    react-Step reader_leaves r = ground (arith, append-nil r.received)
    react-Step writer_leaves r = ground (arith, append-nil r.received)
    react-Step cancels r = ground (arith, append-nil r.received)

    react-done : (e : Event) (r : Relay S) → r.reader_done ≡ true → SameReader r (react sh e r)
    unfolding react read
    react-done (reads is_binary msg) r h = ground arith
    react-done read_fails r h = ground arith
    react-done takes r h = take_input-reader r
    react-done reader_leaves r h = ground arith
    react-done writer_leaves r h = ground arith
    react-done cancels r h = ground arith

    run-done :
        (es : List Event) (r : Relay S) → r.reader_done ≡ true → (run sh es r).received ≡ r.received
    unfolding run
    run-done [] r h = refl
    run-done (e ∷ es) r h =
        let (same, done) = react-done e r h in run-done es (react sh e r) (done ∙ h) ∙ same

    -- What went into the channel is the first part of what came.
    after-Step :
        (e : Event) (es : List Event) (r : Relay S)
        → Step (arrival e) r (react sh e r)
        → Begins (run sh es (react sh e r)).received ((react sh e r).received ++ arrivals es)
        → Begins (run sh es (react sh e r)).received (r.received ++ (arrival e ++ arrivals es))
    after-Step e es r (inl took) (more, whole) = (
      more,
      whole ∙ ap (λ x. x ++ arrivals es) took ∙ append_assoc r.received (arrival e) (arrivals es),
    )
    after-Step e es r (inr (same, done)) _ = (
      arrival e ++ arrivals es,
      ap (λ x. x ++ (arrival e ++ arrivals es)) (run-done es (react sh e r) done ∙ same),
    )

    run-received :
        (es : List Event) (r : Relay S) → Begins (run sh es r).received (r.received ++ arrivals es)
    unfolding run arrivals
    run-received [] r = ([], refl)
    run-received (e ∷ es) r = after-Step e es r (react-Step e r) (run-received es (react sh e r))

module _ {C : Type 0} (b : Browser C) {S : Type 0} (sh : Shell S) where
  fresh-Streams : (h : Hook) (ws : C) → Streams [] (Wakeup.started b h ws).conn
  unfolding fresh keystrokes
  fresh-Streams h ws = record {
    rest = [];
    whole = refl;
    kept = λ _. refl;
    bound = omega arith;
    alive = λ e. refl;
  }

  -- The hook types and sends on a new connection of any hook, whatever else happens to it, and the
  -- relay of a new shell gets the frames sent, up to some frame, with whatever else it is told: the
  -- bytes that the shell has are the first bytes of the texts that the connection took, encoded, one
  -- after another; none is out of place, none is there twice, and none is left out before another.
  pub typed-written :
      (h : Hook) (ws : C) (es : List (Page.Event C)) (s : S) (rs : List Event) (lost : List Frame)
      → let client = Wakeup.started b h ws in
        arrivals rs ++ lost ≡ (react_all b es client).sent
        → Begins (run sh rs (started s)).written (accepted_all b es client)
  typed-written h ws es s rs lost came =
      let relay = run sh rs (started s) in
      let client = Wakeup.started b h ws in
      let sent = (react_all b es client).sent in
      let ordered = run-started-Ordered sh rs s in
      let streams = react_all-Streams b es client [] (fresh-Streams h ws) in
      let received = run-received sh rs (started s) in
      Begins-trans relay.written (keystrokes relay.received) (accepted_all b es client)
        (ordered.rest, ordered.whole)
        (Begins-trans (keystrokes relay.received) (keystrokes sent) (accepted_all b es client)
          (keystrokes-Begins relay.received sent
            (Begins-trans relay.received (arrivals rs) sent received (lost, came)))
          (streams.rest, streams.whole))
