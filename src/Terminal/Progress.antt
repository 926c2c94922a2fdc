-- ===== src/Terminal/Progress.antt =====
-- The timer of `pump`, through each call that a callback makes.
use opsup.Prelude.{
  ℕ, ◌<◌, ◌≡◌, ◌≢◌, refl, Bool, true, false, not, ◌||◌, ◌&&◌, ◌==◌, ltb, none, some, List, [], ◌++◌,
  arith, length, inl, inr, Bool-cases, Option-cases, String,
}
use opsup.Terminal.Frames.{Frame, input_frames}
use opsup.Terminal.State.{
  Task, pumps, resizes, Size, Browser, Conn, Session, clear_timer, current, later,
}
use opsup.Terminal.Handlers.{
  fail, pump_loop, is_blocked, after_loop, pump, send_data, send_resize, on_resize, take_size,
  do_fit, send_failed, resize_frame,
}
use opsup.Terminal.Queue.{pump_loop-keeps}
use opsup.Terminal.Timers.{
  TimersOk, Armed, append-TimersOk, renew-TimersOk, append-Armed, renew-Armed, clear-TimersOk,
  clear-Armed,
}
use opsup.Terminal.Invariant.{Agrees}

-- `readyState` does not return to `OPEN`: neither when a frame is sent nor when the socket is closed.
pub record NeverReopens {S : Type 0} (b : Browser S) : Type 0 where
  pub by_send :
      (ws : S) (f : Frame) (ws' : S)
      → b.send ws f ≡ some ws'
      → b.is_open ws' ≡ true
      → b.is_open ws ≡ true
  pub by_close : (ws : S) → b.is_open (b.close ws) ≡ false

-- Frames wait on a connection that could send them.
abbrev pub Waits : {S : Type 0} → Browser S → Conn S → Type 0
Waits b c = (c.connected ≡ true) × (b.is_open c.ws ≡ true) × (c.queue_index < length c.queue)

module _ {S : Type 0} (b : Browser S) (g : ℕ) where
  pub record Base (s : Session S) : Type 0 where
    pub agrees : Agrees g s
    pub timers_ok : TimersOk s.timers s.next_timer s.resize_timer
    pub idle : s.connected ≡ false → s.queue ≡ []

  pub record Timely (s : Session S) : Type 0 where
    pub base : Base s
    pub armed : Armed s.timers s.pump_timer
    pub due : Waits b s.conn → s.pump_timer ≢ none

module _ {S : Type 0} (b : Browser S) (n : NeverReopens b) {g : ℕ} where
  pub later-Timely : (k : Task) (s : Session S) → Timely b g s → Timely b g (later k s)
  later-Timely k s v =
      let ok = v.base.timers_ok in
      record {
        base = record {
          agrees = ground (arith, v.base.agrees);
          timers_ok = append-TimersOk s.timers s.next_timer s.resize_timer ok k;
          idle = v.base.idle;
        };
        armed = append-Armed s.timers s.next_timer s.resize_timer ok k s.pump_timer v.armed;
        due = v.due;
      }

  fail-current-Timely :
      (m : String) (s : Session S)
      → (not (current s) || s.failed) ≡ false
      → Base b g s
      → Armed s.timers s.pump_timer
      → Timely b g (fail b m s)
  unfolding fail
  fail-current-Timely m s run v armed =
      rw (run, fail)
        (record {
          base = record {
            agrees = ground (arith, v.agrees);
            timers_ok = v.timers_ok;
            idle = λ _. refl;
          };
          armed = armed;
          due = λ w. cc (w.0);
        })

  pub fail-Timely : (m : String) (s : Session S) → Timely b g s → Timely b g (fail b m s)
  unfolding fail
  fail-Timely m s v = elim (Bool-cases (not (current s) || s.failed)) [
    | inl skip ↦ rw (skip, fail) v
    | inr run ↦ fail-current-Timely m s run v.base v.armed
  ]

  after_loop-Timely :
      (s : Session S) (c : Conn S) (threw : Bool)
      → c.connected ≡ true
      → c.pump_timer ≡ none
      → Base b g (record s { conn = c })
      → Timely b g (after_loop b s (c, threw))
  unfolding after_loop
  after_loop-Timely s c true on off v =
      fail-current-Timely send_failed (record s { conn = c }) (ground (arith, v.agrees)) v
        (λ t e. cc (off, e))
  after_loop-Timely s c false on off v = elim (Bool-cases (ltb c.queue_index (length c.queue))) [
    | inl more ↦
        rw (more, after_loop)
          (record {
            base = record {
              agrees = ground (arith, v.agrees);
              timers_ok = append-TimersOk c.timers c.next_timer c.resize_timer v.timers_ok pumps;
              idle = v.idle;
            };
            armed = renew-Armed c.timers c.next_timer c.resize_timer v.timers_ok;
            due = λ w e. cc e;
          })
    | inr done ↦
        rw (done, after_loop)
          (record {
            base = record {
              agrees = ground (arith, v.agrees);
              timers_ok = v.timers_ok;
              idle = λ _. refl;
            };
            armed = λ t e. cc (off, e);
            due = λ w. absurd (omega (arith, w.2));
          })
  ]

  pub pump-Timely : (s : Session S) → Base b g s → Timely b g (pump b s)
  unfolding pump
  pump-Timely s v =
      let c : Conn S = record (s.conn) { pump_timer = none } in
      let k = pump_loop-keeps b (length s.queue) c in
      let d : Conn S = (pump_loop b (length s.queue) c).0 in
      elim (Bool-cases (is_blocked b s)) [
        | inl blocked ↦
            rw (blocked, pump)
              (record {
                base = record {
                  agrees = ground (arith, v.agrees);
                  timers_ok = v.timers_ok;
                  idle = v.idle;
                };
                armed = λ t e. cc e;
                due = λ w. ground (arith, v.agrees, w);
              })
        | inr free ↦
            rw (free, pump)
              (after_loop-Timely (record s { conn = c }) d (pump_loop b (length s.queue) c).1
                (ground (arith, k)) (ground (arith, k))
                (record {
                  agrees = ground (arith, k, v.agrees);
                  timers_ok = rw (k.timers, k.next_timer, k.resize_timer) v.timers_ok;
                  idle = ground (arith, k);
                }))
      ]

  pub send_data-Timely : (d : List ℕ) (s : Session S) → Timely b g s → Timely b g (send_data b d s)
  unfolding send_data
  send_data-Timely d s v = elim (Bool-cases (is_blocked b s)) [
    | inl blocked ↦ rw (blocked, send_data) v
    | inr free ↦
        let t : Session S = record s {
          conn = record (s.conn) { queue = s.queue ++ input_frames d };
        } in
        let w : Base b g t = record {
          agrees = ground (arith, v.base.agrees);
          timers_ok = v.base.timers_ok;
          idle = ground arith;
        } in
        elim (Option-cases s.pump_timer) [
          | inl none_yet ↦ rw (free, none_yet, send_data) (pump-Timely t w)
          | inr (u, set) ↦
              rw (free, set, send_data)
                (record { base = w; armed = v.armed; due = λ _ e. cc (set, e) })
        ]
  ]

  pub send_resize-Timely : (s : Session S) → Timely b g s → Timely b g (send_resize b s)
  unfolding send_resize
  send_resize-Timely s v = elim (Bool-cases (is_blocked b s)) [
    | inl blocked ↦ rw (blocked, send_resize) v
    | inr free ↦ elim (Option-cases (b.send s.ws (resize_frame b s))) [
      | inl threw ↦ rw (free, threw, send_resize) (fail-Timely _ s v)
      | inr (ws', went) ↦
          rw (free, went, send_resize)
            (record {
              base = record {
                agrees = ground (arith, v.base.agrees);
                timers_ok = v.base.timers_ok;
                idle = v.base.idle;
              };
              armed = v.armed;
              due = λ w. v.due (w.0, n.by_send s.ws _ ws' went w.1, w.2);
            })
    ]
  ]

  on_resize-Timely : (s : Session S) → Timely b g s → Timely b g (on_resize b s)
  unfolding on_resize
  on_resize-Timely s v =
      let ok = v.base.timers_ok in
      let left = clear_timer s.resize_timer s.timers in
      let ok' = clear-TimersOk s.timers s.next_timer s.resize_timer ok in
      elim (Bool-cases (current s)) [
        | inr stale ↦ rw (stale, on_resize) v
        | inl here ↦
            rw (here, on_resize)
              (record {
                base = record {
                  agrees = ground (arith, v.base.agrees);
                  timers_ok = renew-TimersOk left s.next_timer s.resize_timer ok';
                  idle = v.base.idle;
                };
                armed =
                    append-Armed left s.next_timer s.resize_timer ok' resizes s.pump_timer
                      (clear-Armed s.timers s.next_timer s.resize_timer s.pump_timer ok v.armed);
                due = v.due;
              })
      ]

  pub take_size-Timely : (d : Size) (s : Session S) → Timely b g s → Timely b g (take_size b d s)
  unfolding take_size
  take_size-Timely d s v =
      let t : Session S = record s { conn = record (s.conn) { size = d } } in
      let w : Timely b g t = record {
        base = record {
          agrees = ground (arith, v.base.agrees);
          timers_ok = v.base.timers_ok;
          idle = v.base.idle;
        };
        armed = v.armed;
        due = v.due;
      } in
      elim (Bool-cases ((d.cols == s.size.cols) && (d.rows == s.size.rows))) [
        | inl same ↦ rw (same, take_size) v
        | inr other ↦ rw (other, take_size) (on_resize-Timely t w)
      ]

  pub do_fit-Timely : (s : Session S) → Timely b g s → Timely b g (do_fit b s)
  unfolding do_fit
  do_fit-Timely s v = grind (arith, take_size-Timely)

  pub fit_and_resize-Timely :
      (s : Session S) → Timely b g s → Timely b g (send_resize b (do_fit b s))
  fit_and_resize-Timely s v = send_resize-Timely (do_fit b s) (do_fit-Timely s v)
