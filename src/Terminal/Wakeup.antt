-- ===== src/Terminal/Wakeup.antt =====
-- Typed text is never stuck: while frames wait on a usable connection, a timer of `pump` is pending.
use opsup.Prelude.{
  ℕ, zero, suc, ◌≡◌, ◌≢◌, refl, true, false, not, ◌||◌, none, some, Option, List, [], ◌∷◌, arith,
  ap, inl, inr, Bool-cases, Option-cases, length,
}
use opsup.Terminal.State.{
  connecting, connected, StatusValue, Hook, Task, pumps, resizes, fits, Browser, Session,
  find_timer, remove_timer, current,
}
use opsup.Terminal.Handlers.{
  Message, text, binary, on_status, on_ready, write, on_frame, on_message, run_task, on_timer,
  on_animation_frame,
}
use opsup.Terminal.Page.{
  Event, typed, resized, observed, received, closed, errored, timer, animation_frame, socket_moved,
  fresh, react,
}
use opsup.Terminal.Timers.{remove-TimersOk, remove-Armed}
use opsup.Terminal.Quiet.{react_all}
use opsup.Terminal.Progress.{
  NeverReopens, Waits, Timely, later-Timely, fail-Timely, pump-Timely, send_data-Timely,
  send_resize-Timely, take_size-Timely, do_fit-Timely, fit_and_resize-Timely,
}

-- Once the connection is ready, its socket does not open again.
abbrev pub IsHonest : {S : Type 0} → Browser S → Event S → Session S → Type 0
IsHonest b (socket_moved ws') s = s.connected ≡ true → b.is_open ws' ≡ true → b.is_open s.ws ≡ true
IsHonest b _ s = Unit

abbrev pub AllHonest : {S : Type 0} → Browser S → List (Event S) → Session S → Type 0
AllHonest b [] s = Unit
AllHonest b (e ∷ es) s = IsHonest b e s × AllHonest b es (react b e s)

-- A connection as `connect` leaves it, with the hook that it is in.
abbrev pub started : {S : Type 0} → Browser S → Hook → S → Session S
started b h ws = record { hook = record h { status = connecting }; conn = fresh b h.generation ws }

module _ {S : Type 0} (b : Browser S) (n : NeverReopens b) {g : ℕ} where
  on_ready-Timely : (s : Session S) → s.failed ≡ false → Timely b g s → Timely b g (on_ready b s)
  unfolding on_ready
  on_ready-Timely s f v =
      let t : Session S = record s {
        hook = record (s.hook) { status = connected };
        conn = record (s.conn) { connected = true };
      } in
      let w : Timely b g t = record {
        base = record {
          agrees = ground (arith, v.base.agrees);
          timers_ok = v.base.timers_ok;
          idle = λ e. cc e;
        };
        armed = v.armed;
        due = elim (Bool-cases s.connected) [
          | inl old ↦ λ h. v.due (old, h.1, h.2)
          | inr off ↦ λ h. absurd (omega (arith, ap length (v.base.idle off), h.2))
        ];
      } in
      later-Timely b n fits _ (later-Timely b n fits _ (fit_and_resize-Timely b n t w))

  on_status-Timely :
      (o : Option StatusValue) (s : Session S) → Timely b g s → Timely b g (on_status b o s)
  unfolding on_status
  on_status-Timely none s v = v
  on_status-Timely (some r) s v = elim (Bool-cases r.connected_is_false) [
    | inl ended ↦ rw (ended, on_status) (fail-Timely b n _ s v)
    | inr alive ↦ rw (alive, on_status) v
  ]

  write-Timely : (payload : List ℕ) (s : Session S) → Timely b g s → Timely b g (write b payload s)
  write-Timely payload s v = record {
    base = record {
      agrees = ground (arith, v.base.agrees);
      timers_ok = v.base.timers_ok;
      idle = v.base.idle;
    };
    armed = v.armed;
    due = v.due;
  }

  on_frame-Timely :
      (first : ℕ) (payload : List ℕ) (s : Session S)
      → s.failed ≡ false
      → Timely b g s
      → Timely b g (on_frame b first payload s)
  unfolding on_frame
  on_frame-Timely zero payload s f v = write-Timely payload s v
  on_frame-Timely (suc zero) payload s f v = write-Timely payload s v
  on_frame-Timely (suc (suc zero)) payload s f v = fail-Timely b n _ s v
  on_frame-Timely (suc (suc (suc zero))) payload s f v = on_status-Timely _ s v
  on_frame-Timely (suc (suc (suc (suc zero)))) payload s f v = on_ready-Timely s f v
  on_frame-Timely (suc (suc (suc (suc (suc k))))) payload s f v = v

  on_message-Timely : (m : Message) (s : Session S) → Timely b g s → Timely b g (on_message b m s)
  unfolding on_message
  on_message-Timely (text m) s v = v
  on_message-Timely (binary []) s v = v
  on_message-Timely (binary (first ∷ payload)) s v =
      elim (Bool-cases (not (current s) || s.failed)) [
        | inl ignored ↦ rw (ignored, on_message) v
        | inr taken ↦ rw (taken, on_message) (on_frame-Timely first payload s (ground arith) v)
      ]

  removed :
      (t : ℕ) (s : Session S)
      → find_timer t s.timers ≢ some pumps
      → Timely b g s
      → Timely b g (record s { conn = record (s.conn) { timers = remove_timer t s.timers } })
  removed t s other v =
      let ok = v.base.timers_ok in
      record {
        base = record {
          agrees = ground (arith, v.base.agrees);
          timers_ok = remove-TimersOk s.timers s.next_timer s.resize_timer ok t;
          idle = v.base.idle;
        };
        armed = remove-Armed s.timers s.next_timer s.resize_timer ok t s.pump_timer other v.armed;
        due = v.due;
      }

  -- A timer that runs out leaves the pending ones; the pump's timer is then noted anew or dropped.
  due_task-Timely :
      (t : ℕ) (k : Task) (s : Session S)
      → find_timer t s.timers ≡ some k
      → Timely b g s
      → let s' = record s { conn = record (s.conn) { timers = remove_timer t s.timers } } in
        Timely b g (run_task b k s')
  unfolding run_task
  due_task-Timely t pumps s e v = pump-Timely b n _ (record {
    agrees = ground (arith, v.base.agrees);
    timers_ok = remove-TimersOk s.timers s.next_timer s.resize_timer v.base.timers_ok t;
    idle = v.base.idle;
  })
  due_task-Timely t resizes s e v = send_resize-Timely b n _ (removed t s (λ p. cc (e, p)) v)
  due_task-Timely t fits s e v = fit_and_resize-Timely b n _ (removed t s (λ p. cc (e, p)) v)

  on_timer-Timely : (t : ℕ) (s : Session S) → Timely b g s → Timely b g (on_timer b t s)
  unfolding on_timer
  on_timer-Timely t s v = elim (Option-cases (find_timer t s.timers)) [
    | inl cleared ↦ rw (cleared, on_timer) v
    | inr (k, e) ↦
        let here : current s ≡ true = ground (arith, v.base.agrees) in
        rw (e, here, on_timer) (due_task-Timely t k s e v)
  ]

  on_animation_frame-Timely : (s : Session S) → Timely b g s → Timely b g (on_animation_frame b s)
  unfolding on_animation_frame
  on_animation_frame-Timely s v =
      let t : Session S = record s { conn = record (s.conn) { raf = false } } in
      let w : Timely b g t = record {
        base = record {
          agrees = ground (arith, v.base.agrees);
          timers_ok = v.base.timers_ok;
          idle = v.base.idle;
        };
        armed = v.armed;
        due = v.due;
      } in
      let here : current s ≡ true = ground (arith, v.base.agrees) in
      elim (Bool-cases s.raf) [
        | inl asked ↦ rw (asked, here, on_animation_frame) (do_fit-Timely b n t w)
        | inr done ↦ simp (done, on_animation_frame) v
      ]

  react-Timely :
      (e : Event S) (s : Session S) → IsHonest b e s → Timely b g s → Timely b g (react b e s)
  unfolding react
  react-Timely (typed input) s h v = grind (arith, send_data-Timely b n input s v)
  react-Timely (resized d) s h v = take_size-Timely b n d s v
  react-Timely observed s h v = ground (arith, fit_and_resize-Timely b n s v)
  react-Timely (received m) s h v = on_message-Timely m s v
  react-Timely closed s h v = fail-Timely b n _ s v
  react-Timely errored s h v = fail-Timely b n _ s v
  react-Timely (timer t) s h v = on_timer-Timely t s v
  react-Timely animation_frame s h v = on_animation_frame-Timely s v
  react-Timely (socket_moved w) s h v = record {
    base = record {
      agrees = ground (arith, v.base.agrees);
      timers_ok = v.base.timers_ok;
      idle = v.base.idle;
    };
    armed = v.armed;
    due = λ x. v.due (x.0, h x.0 x.1, x.2);
  }

  react_all-Timely :
      (es : List (Event S)) (s : Session S)
      → AllHonest b es s
      → Timely b g s
      → Timely b g (react_all b es s)
  unfolding react_all
  react_all-Timely [] s h v = v
  react_all-Timely (e ∷ es) s h v = react_all-Timely es (react b e s) h.1 (react-Timely e s h.0 v)

module _ {S : Type 0} (b : Browser S) (n : NeverReopens b) where
  started-Timely : (h : Hook) (ws : S) → Timely b h.generation (started b h ws)
  unfolding fresh find_timer
  started-Timely h ws = record {
    base = record {
      agrees = ground arith;
      timers_ok = record {
        unused = λ t e. refl;
        resize_old = λ t e. cc e;
        resize_apart = λ t e. cc e;
      };
      idle = λ _. refl;
    };
    armed = λ t e. cc e;
    due = λ w. cc (w.0);
  }

  -- Whatever events reach a connection from `connect` on, if then frames wait in its queue, the
  -- server has reported it ready and its socket is open, then a timer that calls `pump` is pending.
  -- This supposes that a socket which is not open does not open again when a frame is sent, when it
  -- is closed, or by itself once the server has reported the connection ready.
  pub waiting_has_timer :
      (h : Hook) (ws : S) (es : List (Event S))
      → AllHonest b es (started b h ws)
      → let c = (react_all b es (started b h ws)).conn in
        Waits b c → (t : ℕ) × (c.pump_timer ≡ some t) × (find_timer t c.timers ≡ some pumps)
  waiting_has_timer h ws es honest waits =
      let v = react_all-Timely b n es (started b h ws) honest (started-Timely h ws) in
      let c = (react_all b es (started b h ws)).conn in
      elim (Option-cases c.pump_timer) [
        | inl off ↦ absurd (v.due waits off)
        | inr (t, on) ↦ (t, on, v.armed t on)
      ]
