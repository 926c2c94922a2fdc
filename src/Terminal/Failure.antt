-- ===== src/Terminal/Failure.antt =====
-- The message that a failing connection leaves.
use opsup.Prelude.{ℕ, suc, ◌≡◌, true, false, none, some, [], arith, length, get_elem?}
use opsup.Terminal.Frames.{Frame}
use opsup.Terminal.State.{error, Browser, Conn, Session}
use opsup.Terminal.Handlers.{next_frame, fail, pump, pump_loop, after_loop, is_blocked, send_failed}

module _ {S : Type 0} (b : Browser S) where
  pump_loop_throws :
      (fuel : ℕ) (c : Conn S) (frame : Frame)
      → b.buffered c.ws ≡ 0
      → get_elem? c.queue c.queue_index ≡ some frame
      → b.send c.ws frame ≡ none
      → pump_loop b (suc fuel) c ≡ (record c { queue_index = suc c.queue_index }, true)
  unfolding pump_loop
  pump_loop_throws fuel c frame e q throws =
      let next : next_frame b c ≡ some frame = ground arith in rw (next, throws, pump_loop)

  -- If `ws.send` throws at the last frame of the queue while nothing is buffered, then the index
  -- has moved past that frame: it is not sent, it leaves the queue, and the message does not say
  -- that input may be lost.
  pub last_send_throws :
      (s : Session S) (frame : Frame)
      → is_blocked b s ≡ false
      → s.failed ≡ false
      → b.buffered s.ws ≡ 0
      → get_elem? s.queue s.queue_index ≡ some frame
      → suc s.queue_index ≡ length s.queue
      → b.send s.ws frame ≡ none
      → let t = pump b s in
        (t.error_msg ≡ send_failed) × (t.status ≡ error) × (t.sent ≡ s.sent) × (t.queue ≡ [])
  unfolding pump after_loop fail
  last_send_throws s frame free f e q i throws =
      let c : Conn S = record (s.conn) { pump_timer = none } in
      let stops = pump_loop_throws s.queue_index c frame e q throws in
      rw (free, ← i, stops, pump) (ground arith)
