-- ===== src/Rdp/Target.antt =====
-- The server that the page of ui/src/rdp/client.ts connects to.
use opsup.Prelude.{◌≡◌, some, List, [], ◌∷◌, arith, All, All-append}
use opsup.Types.{Server}
use opsup.Rdp.Client.{
  Call, connects, Page, pin, resize, on_message, on_ready, on_submit, config, destination,
  on_session, finish, on_end, on_failure, Event, messaged, submitted, react, run,
}

pub react-server :
    (e : Event) (p : Page) (s : Server) → p.server ≡ some s → (react e p).0.server ≡ some s
unfolding react on_message on_ready on_submit on_session on_end on_failure pin resize finish
react-server (messaged trusted m) p s h = ground arith
react-server (submitted is_https) p s h = ground arith
react-server _ p s h = ground arith

-- A call to connect goes to the server `s`.
abbrev pub GoesTo : Server → Call → Type 0
GoesTo s (connects c) = (c.server_id ≡ s.id) × (c.destination ≡ destination s)
GoesTo s _ = Unit

pub react-GoesTo :
    (e : Event) (p : Page) (s : Server) → p.server ≡ some s → All (GoesTo s) (react e p).1
unfolding react on_message on_ready on_submit on_session on_end on_failure pin resize finish config
react-GoesTo (messaged trusted m) p s h = ground arith
react-GoesTo (submitted is_https) p s h = ground arith
react-GoesTo _ p s h = ground arith

-- Once a page has a server, whatever happens next, other servers in later messages included: every
-- attempt to connect goes to that server, by its id and by its address.
pub run-GoesTo :
    (es : List Event) (p : Page) (s : Server) → p.server ≡ some s → All (GoesTo s) (run es p).1
unfolding run
run-GoesTo [] p s h = tt
run-GoesTo (e ∷ es) p s h =
    All-append (GoesTo s) (react e p).1 (run es (react e p).0).1 (react-GoesTo e p s h)
      (run-GoesTo es (react e p).0 s (react-server e p s h))
