-- ===== src/Terminal/Invariant.antt =====
-- What holds of the hook between two events: the status shown is that of the connection in place,
-- and what came before it is closed down.
use opsup.Prelude.{ℕ, zero, suc, ◌≡◌, Bool, true, false, none, List, [], ◌∷◌, arith, String, length}
use opsup.Terminal.State.{
  Status, connecting, connected, error, Task, pumps, resizes, fits, Browser, Conn, Session,
}
use opsup.Terminal.Handlers.{
  Message, text, binary, fail, pump_loop, after_loop, pump, send_data, send_resize, on_status,
  on_ready, on_frame, on_message, do_fit, run_task, on_timer,
}
use opsup.Terminal.Page.{
  Event, typed, resized, observed, received, closed, errored, timer, animation_frame, socket_moved,
  react,
}
use opsup.Terminal.Queue.{LoopKeeps, pump_loop-keeps}
use opsup.Terminal.Quiet.{
  IsUnseen, take_size-IsUnseen, do_fit-IsUnseen, on_animation_frame-IsUnseen,
}

-- The status that the two flags of a connection call for.
abbrev pub status_of : Bool → Bool → Status
status_of true _ = error
status_of false true = connected
status_of false false = connecting

module _ {S : Type 0} where
  -- `g` is the generation of both the hook and the connection.
  pub record Agrees (g : ℕ) (s : Session S) : Type 0 where
    pub generation : s.generation ≡ g
    pub here : s.id ≡ g
    pub attached : s.attached ≡ true
    pub alive : s.connected ≡ true → s.failed ≡ false
    pub shown : s.status ≡ status_of s.failed s.connected

module _ {S : Type 0} {g : ℕ} (b : Browser S) where
  fail-Agrees : (m : String) (s : Session S) → Agrees g s → Agrees g (fail b m s)
  unfolding fail
  fail-Agrees m s v = ground arith

  after_loop-Agrees :
      (s : Session S) (r : Conn S × Bool)
      → LoopKeeps b s.conn r.0
      → Agrees g s
      → Agrees g (after_loop b s r)
  unfolding after_loop fail
  after_loop-Agrees s (c, true) k v = ground arith
  after_loop-Agrees s (c, false) k v = ground arith

  send_resize-Agrees : (s : Session S) → Agrees g s → Agrees g (send_resize b s)
  unfolding send_resize fail
  send_resize-Agrees s v = ground arith

  pump-Agrees : (s : Session S) → Agrees g s → Agrees g (pump b s)
  unfolding pump
  pump-Agrees s v =
      let c : Conn S = record (s.conn) { pump_timer = none } in
      ground (
        arith,
        after_loop-Agrees (record s { conn = c }) (pump_loop b (length s.queue) c)
            (pump_loop-keeps b (length s.queue) c),
      )

  send_data-Agrees : (d : List ℕ) (s : Session S) → Agrees g s → Agrees g (send_data b d s)
  unfolding send_data
  send_data-Agrees d s v = grind (arith, pump-Agrees)

  Agrees-unseen : (s t : Session S) → IsUnseen s t → Agrees g s → Agrees g t
  Agrees-unseen s t u v = ground arith

  fit_and_resize-Agrees : (s : Session S) → Agrees g s → Agrees g (send_resize b (do_fit b s))
  fit_and_resize-Agrees s v =
      send_resize-Agrees (do_fit b s) (Agrees-unseen s (do_fit b s) (do_fit-IsUnseen b s) v)

  on_ready-Agrees : (s : Session S) → s.failed ≡ false → Agrees g s → Agrees g (on_ready b s)
  unfolding on_ready
  on_ready-Agrees s f v = grind (arith, fit_and_resize-Agrees)

  on_frame-Agrees :
      (first : ℕ) (payload : List ℕ) (s : Session S)
      → s.failed ≡ false
      → Agrees g s
      → Agrees g (on_frame b first payload s)
  unfolding on_frame on_status
  on_frame-Agrees zero payload s f v = ground arith
  on_frame-Agrees (suc zero) payload s f v = ground arith
  on_frame-Agrees (suc (suc zero)) payload s f v = fail-Agrees _ s v
  on_frame-Agrees (suc (suc (suc zero))) payload s f v = grind (arith, fail-Agrees)
  on_frame-Agrees (suc (suc (suc (suc zero)))) payload s f v = on_ready-Agrees s f v
  on_frame-Agrees (suc (suc (suc (suc (suc n))))) payload s f v = v

  on_message-Agrees : (m : Message) (s : Session S) → Agrees g s → Agrees g (on_message b m s)
  unfolding on_message
  on_message-Agrees (text m) s v = v
  on_message-Agrees (binary []) s v = v
  on_message-Agrees (binary (first ∷ payload)) s v = ground (arith, on_frame-Agrees first payload s)

  run_task-Agrees : (t : Task) (s : Session S) → Agrees g s → Agrees g (run_task b t s)
  unfolding run_task
  run_task-Agrees pumps s v = pump-Agrees s v
  run_task-Agrees resizes s v = send_resize-Agrees s v
  run_task-Agrees fits s v = fit_and_resize-Agrees s v

  on_timer-Agrees : (t : ℕ) (s : Session S) → Agrees g s → Agrees g (on_timer b t s)
  unfolding on_timer
  on_timer-Agrees t s v = grind (arith, run_task-Agrees)

  pub react-Agrees : (e : Event S) (s : Session S) → Agrees g s → Agrees g (react b e s)
  unfolding react
  react-Agrees (typed input) s v = ground (arith, send_data-Agrees input s v)
  react-Agrees (resized d) s v = Agrees-unseen s _ (take_size-IsUnseen b d s) v
  react-Agrees observed s v = ground (arith, fit_and_resize-Agrees s v)
  react-Agrees (received m) s v = on_message-Agrees m s v
  react-Agrees closed s v = fail-Agrees _ s v
  react-Agrees errored s v = fail-Agrees _ s v
  react-Agrees (timer t) s v = on_timer-Agrees t s v
  react-Agrees animation_frame s v = Agrees-unseen s _ (on_animation_frame-IsUnseen b s) v
  react-Agrees (socket_moved w) s v = ground arith
