-- ===== src/Terminal/Queue.antt =====
-- The queue of frames: `pump` and its loop, and the calls that fail.
use opsup.Prelude.{
  String, ℕ, zero, suc, ◌+◌, ◌≤◌, ◌≡◌, refl, ap, sym, ◌∙◌, ◌⊎◌, inl, inr, Bool, true, false, none,
  some, List, [], ◌∷◌, ◌++◌, append_assoc, arith, get_elem?, length, drop, ◌==◌, drop_all,
  Bool-cases, Option-cases, drop-get_elem?, get_elem?_ge, get_elem?-bound,
}
use opsup.Terminal.Frames.{Frame, keystrokes, keystrokes-append}
use opsup.Terminal.State.{Browser, Conn, Session}
use opsup.Terminal.Handlers.{fail, next_frame, pump_loop, is_blocked, after_loop, pump}

keystrokes-move :
    (fs : List Frame) (f : Frame) (gs : List Frame)
    → keystrokes (fs ++ f ∷ []) ++ keystrokes gs ≡ keystrokes fs ++ keystrokes (f ∷ gs)
keystrokes-move fs f gs =
    sym (keystrokes-append (fs ++ f ∷ []) gs)
    ∙ ap keystrokes (append_assoc fs (f ∷ []) gs)
    ∙ keystrokes-append fs (f ∷ gs)

module _ {S : Type 0} where
  -- The keystrokes that wait in the queue.
  abbrev pub pending : Conn S → List ℕ
  pending c = keystrokes (drop c.queue_index c.queue)

  -- `bytes` is what was sent, and then what waits; after a failure the rest of it is lost.
  pub record Streams (bytes : List ℕ) (c : Conn S) : Type 0 where
    pub rest : List ℕ
    pub whole : keystrokes c.sent ++ rest ≡ bytes
    pub kept : c.failed ≡ false → rest ≡ pending c
    pub bound : c.queue_index ≤ length c.queue
    pub alive : c.connected ≡ true → c.failed ≡ false

  record LoopStreams (bytes : List ℕ) (r : Conn S × Bool) : Type 0 where
    rest : List ℕ
    whole : keystrokes r.0.sent ++ rest ≡ bytes
    kept : r.1 ≡ false → rest ≡ pending r.0
    bound : r.0.queue_index ≤ length r.0.queue

module _ {S : Type 0} (b : Browser S) where
  next_frame-drop :
      (c : Conn S) {frame : Frame}
      → next_frame b c ≡ some frame
      → (drop c.queue_index c.queue ≡ frame ∷ drop (suc c.queue_index) c.queue)
        × (suc c.queue_index ≤ length c.queue)
  next_frame-drop c {frame} e =
      let found : get_elem? c.queue c.queue_index ≡ some frame = ground arith in
      (drop-get_elem? c.queue c.queue_index found, get_elem?-bound c.queue c.queue_index found)

  pump_loop-Streams :
      (fuel : ℕ) (c : Conn S) (bytes : List ℕ)
      → keystrokes c.sent ++ pending c ≡ bytes
      → c.queue_index ≤ length c.queue
      → LoopStreams bytes (pump_loop b fuel c)
  unfolding pump_loop
  pump_loop-Streams zero c bytes e h = record {
    rest = pending c;
    whole = e;
    kept = λ _. refl;
    bound = h;
  }
  pump_loop-Streams (suc fuel) c bytes e h = elim (Option-cases (next_frame b c)) [
    | inl stop ↦
        rw (stop, pump_loop) (record { rest = pending c; whole = e; kept = λ _. refl; bound = h })
    | inr (frame, next) ↦ elim (Option-cases (b.send c.ws frame)) [
      | inl threw ↦
          rw (next, threw, pump_loop)
            (record {
              rest = pending c;
              whole = e;
              kept = λ f. cc;
              bound = (next_frame-drop c next).1;
            })
      | inr (ws', went) ↦
          rw (next, went, pump_loop)
            (pump_loop-Streams fuel _ bytes
              (keystrokes-move c.sent frame (drop (suc c.queue_index) c.queue)
                ∙ ap (λ q. keystrokes c.sent ++ keystrokes q) (sym (next_frame-drop c next).0)
                ∙ e)
              (next_frame-drop c next).1)
    ]
  ]

  pub fail-Streams :
      (m : String) (s : Session S) {bytes : List ℕ}
      → Streams bytes s.conn
      → Streams bytes (fail b m s).conn
  unfolding fail
  fail-Streams m s v = record {
    rest = v.rest;
    whole = ground arith;
    kept = ground arith;
    bound = ground arith;
    alive = ground arith;
  }

  after_loop-Streams :
      (s : Session S) (r : Conn S × Bool) {bytes : List ℕ}
      → (s.generation == r.0.id) ≡ true
      → r.0.failed ≡ false
      → LoopStreams bytes r
      → Streams bytes (after_loop b s r).conn
  unfolding after_loop fail keystrokes
  after_loop-Streams s (c, true) e f v = record {
    rest = v.rest;
    whole = ground arith;
    kept = ground arith;
    bound = ground arith;
    alive = ground arith;
  }
  after_loop-Streams s (c, false) e f v = record {
    rest = v.rest;
    whole = ground arith;
    kept = λ _. ground (arith, v.kept refl, drop_all c.queue_index c.queue);
    bound = ground arith;
    alive = ground arith;
  }

  -- The loop moves only the index and the socket, and adds to what was sent.
  pub record LoopKeeps (c d : Conn S) : Type 0 where
    pub id : d.id ≡ c.id
    pub failed : d.failed ≡ c.failed
    pub connected : d.connected ≡ c.connected
    pub queue : d.queue ≡ c.queue
    pub timers : d.timers ≡ c.timers
    pub next_timer : d.next_timer ≡ c.next_timer
    pub written : d.written ≡ c.written
    pub attached : d.attached ≡ c.attached
    pub pump_timer : d.pump_timer ≡ c.pump_timer
    pub resize_timer : d.resize_timer ≡ c.resize_timer

  pub pump_loop-keeps : (fuel : ℕ) (c : Conn S) → LoopKeeps c (pump_loop b fuel c).0
  unfolding pump_loop
  pump_loop-keeps zero c = ground arith
  pump_loop-keeps (suc fuel) c = grind (arith, pump_loop-keeps fuel)

  pub pump-Streams :
      (s : Session S) {bytes : List ℕ} → Streams bytes s.conn → Streams bytes (pump b s).conn
  unfolding pump
  pump-Streams s {bytes} v = elim (Bool-cases (is_blocked b s)) [
    | inl blocked ↦
        rw (blocked, pump)
          (record {
            rest = v.rest;
            whole = v.whole;
            kept = v.kept;
            bound = v.bound;
            alive = v.alive;
          })
    | inr free ↦
        let alive : s.failed ≡ false = ground (arith, v.alive) in
        let c : Conn S = record (s.conn) { pump_timer = none } in
        let k = pump_loop-keeps (length s.queue) c in
        rw (free, pump)
          (after_loop-Streams (record s { conn = c }) (pump_loop b (length s.queue) c)
            (ground (arith, k)) (ground (arith, k, alive))
            (pump_loop-Streams (length s.queue) c bytes (rw (← v.kept alive) v.whole) v.bound))
  ]

  -- The loop ends because the queue is empty, because the buffer is full or because `send` threw,
  -- and not for want of fuel.
  pub pump_loop-ends :
      (fuel : ℕ) (c : Conn S)
      → length c.queue ≤ c.queue_index + fuel
      → let r = pump_loop b fuel c in (r.1 ≡ true) ⊎ (next_frame b r.0 ≡ none)
  unfolding pump_loop
  pump_loop-ends zero c h = inr (ground (arith, get_elem?_ge c.queue c.queue_index))
  pump_loop-ends (suc fuel) c h = elim (Option-cases (next_frame b c)) [
    | inl stop ↦ rw (stop, pump_loop) (inr stop)
    | inr (frame, next) ↦ elim (Option-cases (b.send c.ws frame)) [
      | inl threw ↦ rw (next, threw, pump_loop) (inl refl)
      | inr (ws', went) ↦ rw (next, went, pump_loop) (pump_loop-ends fuel _ (omega arith))
    ]
  ]
