-- ===== src/Terminal/Lifecycle.antt =====
-- `connect`, the cleanup and the events over the life of the hook.
use opsup.Prelude.{
  ℕ, suc, ◌≤◌, ◌<◌, ◌≡◌, refl, false, none, some, List, [], ◌∷◌, All, arith, String, Option-cases,
  inl, inr,
}
use opsup.Terminal.State.{Browser, Conn}
use opsup.Terminal.Page.{
  Page, Address, Event, Action, connects, unmounts, happens, lays_out, first_page, retire, fresh,
  cleanup, connect, deliver, act, run,
}
use opsup.Terminal.Invariant.{Agrees, react-Agrees}

module _ {S : Type 0} (b : Browser S) where
  -- Closed down before the generation `g`: no callback, no timer, and a socket that was closed.
  pub record IsRetired (g : ℕ) (c : Conn S) : Type 0 where
    pub older : c.id < g
    pub detached : c.attached ≡ false
    pub not_connected : c.connected ≡ false
    pub no_timers : c.timers ≡ []
    pub no_frame : c.raf ≡ false
    pub socket : S
    pub socket_closed : c.ws ≡ b.close socket

  pub record IsSound (p : Page S) : Type 0 where
    pub live :
        (c : Conn S) → p.conn ≡ some c → Agrees p.generation (record { hook = p.hook; conn = c })
    pub gone : All (IsRetired p.generation) p.retired

  IsRetired-mono :
      (g h : ℕ) (cs : List (Conn S)) → g ≤ h → All (IsRetired g) cs → All (IsRetired h) cs
  IsRetired-mono g h [] le r = tt
  IsRetired-mono g h (c ∷ cs) le (r, rs) = (
    record {
      older = omega arith;
      detached = r.detached;
      not_connected = r.not_connected;
      no_timers = r.no_timers;
      no_frame = r.no_frame;
      socket = r.socket;
      socket_closed = r.socket_closed;
    },
    IsRetired-mono g h cs le rs,
  )

  -- A cleanup retires the connection in place.
  cleanup-retired :
      (p : Page S) → IsSound p → All (IsRetired (cleanup b p).generation) (cleanup b p).retired
  unfolding cleanup retire
  cleanup-retired p v = elim (Option-cases p.conn) [
    | inl e ↦ rw (e, cleanup) v.gone
    | inr (c, e) ↦
        let a = v.live c e in
        rw (e, cleanup)
          (
            record {
              older = omega (arith, a.here);
              detached = refl;
              not_connected = refl;
              no_timers = refl;
              no_frame = refl;
              socket = c.ws;
              socket_closed = refl;
            },
            IsRetired-mono p.generation _ p.retired (omega arith) v.gone,
          )
  ]

  cleanup-conn : (p : Page S) → (cleanup b p).conn ≡ none
  unfolding cleanup
  cleanup-conn p = ground arith

  cleanup-IsSound : (p : Page S) → IsSound p → IsSound (cleanup b p)
  cleanup-IsSound p v = record { live = λ c e. cc (cleanup-conn p, e); gone = cleanup-retired p v }

  connect-retired :
      (a : Address) (t : String) (p : Page S) → (connect b a t p).retired ≡ (cleanup b p).retired
  unfolding connect
  connect-retired a t p = ground arith

  connect-generation :
      (a : Address) (t : String) (p : Page S)
      → (connect b a t p).generation ≡ suc (cleanup b p).generation
  unfolding connect
  connect-generation a t p = ground arith

  connect-IsSound : (a : Address) (t : String) (p : Page S) → IsSound p → IsSound (connect b a t p)
  unfolding connect fresh
  connect-IsSound a t p v = record {
    live = λ c e. ground (arith, cleanup-conn p);
    gone =
        rw (connect-retired a t p)
          (IsRetired-mono _ _ _ (omega (arith, connect-generation a t p)) (cleanup-retired p v));
  }

  deliver-IsSound : (e : Event S) (p : Page S) → IsSound p → IsSound (deliver b e p)
  unfolding deliver
  deliver-IsSound e p v = elim (Option-cases p.conn) [
    | inl gone ↦ rw (gone, deliver) v
    | inr (c, here) ↦
        let a = react-Agrees b e (record { hook = p.hook; conn = c }) (v.live c here) in
        rw (here, deliver)
          (record {
            live = λ d same. ground (arith, a);
            gone = IsRetired-mono p.generation _ p.retired (omega (arith, a.generation)) v.gone;
          })
  ]

  act-IsSound : (a : Action S) (p : Page S) → IsSound p → IsSound (act b a p)
  unfolding act
  act-IsSound (connects address token) p v = connect-IsSound address token p v
  act-IsSound unmounts p v = cleanup-IsSound p v
  act-IsSound (happens e) p v = deliver-IsSound e p v
  act-IsSound (lays_out active mounted width height) p v = record {
    live = λ c e. ground (arith, v.live c e);
    gone = v.gone;
  }

  run-IsSound : (todo : List (Action S)) (p : Page S) → IsSound p → IsSound (run b todo p)
  unfolding run
  run-IsSound [] p v = v
  run-IsSound (a ∷ rest) p v = run-IsSound rest (act b a p) (act-IsSound a p v)

  -- After any sequence of mounts, reconnects, unmounts, events and layout changes from the first
  -- render on: the connection in place has the hook's generation and its callbacks, and the status
  -- shown is the one that its two flags call for; every connection before it has an older
  -- generation, no callback, no timer, no pending frame, and a socket that was closed.
  pub run-first_page-IsSound : (todo : List (Action S)) → IsSound (run b todo first_page)
  run-first_page-IsSound todo = run-IsSound todo first_page (record { live = λ c e. cc; gone = tt })
