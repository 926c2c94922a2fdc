-- ===== src/Terminal/Quiet.antt =====
-- What the callbacks of a connection do that another one has replaced, or that has failed.
use opsup.Prelude.{String, ℕ, ◌≡◌, refl, ◌⊎◌, true, false, List, [], ◌∷◌, arith}
use opsup.Terminal.State.{Task, pumps, resizes, fits, Size, Browser, Session, current}
use opsup.Terminal.Handlers.{
  Message, text, binary, fail, pump, send_data, send_resize, on_resize, take_size, do_fit,
  on_message, run_task, on_timer, on_animation_frame, socket_closed, socket_error,
}
use opsup.Terminal.Page.{
  Event, typed, resized, observed, received, closed, errored, timer, animation_frame, socket_moved,
  react,
}

module _ {S : Type 0} where
  -- The connection is not the current one, or it has failed.
  abbrev pub IsQuiet : Session S → Type 0
  IsQuiet s = (current s ≡ false) ⊎ ((s.failed ≡ true) × (s.connected ≡ false))

  -- Nothing that a user, the server or another connection sees is different.
  pub record IsUnseen (s t : Session S) : Type 0 where
    pub hook : t.hook ≡ s.hook
    pub sent : t.sent ≡ s.sent
    pub written : t.written ≡ s.written
    pub id : t.id ≡ s.id
    pub failed : t.failed ≡ s.failed
    pub connected : t.connected ≡ s.connected
    pub queue : t.queue ≡ s.queue
    pub attached : t.attached ≡ s.attached
    pub queue_index : t.queue_index ≡ s.queue_index

module _ {S : Type 0} (b : Browser S) where
  fail-quiet : (m : String) (s : Session S) → IsQuiet s → fail b m s ≡ s
  unfolding fail
  fail-quiet m s q = ground arith

  pump-quiet : (s : Session S) → IsQuiet s → IsUnseen s (pump b s)
  unfolding pump
  pump-quiet s q = ground arith

  send_data-quiet : (d : List ℕ) (s : Session S) → IsQuiet s → send_data b d s ≡ s
  unfolding send_data
  send_data-quiet d s q = ground arith

  send_resize-quiet : (s : Session S) → IsQuiet s → send_resize b s ≡ s
  unfolding send_resize
  send_resize-quiet s q = ground arith

  pub take_size-IsUnseen : (d : Size) (s : Session S) → IsUnseen s (take_size b d s)
  unfolding take_size on_resize
  take_size-IsUnseen d s = ground arith

  pub do_fit-IsUnseen : (s : Session S) → IsUnseen s (do_fit b s)
  unfolding do_fit
  do_fit-IsUnseen s = grind (arith, take_size-IsUnseen)

  run_task-quiet : (t : Task) (s : Session S) → IsQuiet s → IsUnseen s (run_task b t s)
  unfolding run_task
  run_task-quiet pumps s q = pump-quiet s q
  run_task-quiet resizes s q = ground (arith, send_resize-quiet s q)
  run_task-quiet fits s q = ground (arith, do_fit-IsUnseen s, send_resize-quiet (do_fit b s))

  on_timer-quiet : (t : ℕ) (s : Session S) → IsQuiet s → IsUnseen s (on_timer b t s)
  unfolding on_timer
  on_timer-quiet t s q = grind (arith, run_task-quiet)

  on_message-quiet : (m : Message) (s : Session S) → IsQuiet s → on_message b m s ≡ s
  unfolding on_message
  on_message-quiet (text m) s q = refl
  on_message-quiet (binary []) s q = refl
  on_message-quiet (binary (first ∷ payload)) s q = ground arith

  pub on_animation_frame-IsUnseen : (s : Session S) → IsUnseen s (on_animation_frame b s)
  unfolding on_animation_frame
  on_animation_frame-IsUnseen s = grind (arith, do_fit-IsUnseen)

  -- No event reaches the page, the socket or the terminal through a quiet connection.
  pub react-quiet : (e : Event S) (s : Session S) → IsQuiet s → IsUnseen s (react b e s)
  unfolding react
  react-quiet (typed d) s q = ground (arith, send_data-quiet d s q)
  react-quiet (resized d) s q = take_size-IsUnseen d s
  react-quiet observed s q = ground (arith, do_fit-IsUnseen s, send_resize-quiet (do_fit b s))
  react-quiet (received m) s q = ground (arith, on_message-quiet m s q)
  react-quiet closed s q = ground (arith, fail-quiet socket_closed s q)
  react-quiet errored s q = ground (arith, fail-quiet socket_error s q)
  react-quiet (timer t) s q = on_timer-quiet t s q
  react-quiet animation_frame s q = on_animation_frame-IsUnseen s
  react-quiet (socket_moved w) s q = ground arith

  IsUnseen-IsQuiet : (s t : Session S) → IsUnseen s t → IsQuiet s → IsQuiet t
  IsUnseen-IsQuiet s t u q = ground arith

  unfoldable pub react_all : List (Event S) → Session S → Session S
  react_all [] s = s
  react_all (e ∷ es) s = react_all es (react b e s)

  -- If a connection has failed or is not the current one, then no sequence of events at it changes
  -- the status, the message or any other variable of the hook, sends a frame or writes to the
  -- terminal.
  pub react_all-quiet :
      (es : List (Event S)) (s : Session S) → IsQuiet s → IsUnseen s (react_all es s)
  unfolding react_all
  react_all-quiet [] s q = ground arith
  react_all-quiet (e ∷ es) s q =
      let u = react-quiet e s q in
      ground (arith, react_all-quiet es (react b e s) (IsUnseen-IsQuiet s (react b e s) u q))
