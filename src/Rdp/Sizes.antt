-- ===== src/Rdp/Sizes.antt =====
-- The desktop sizes that the page of ui/src/rdp/client.ts asks for.
use opsup.Prelude.{◌%◌, ◌≤◌, ◌≡◌, false, List, [], ◌∷◌, arith, All, All-append}
use opsup.Rdp.Client.{
  Extent, Call, connects, resizes, Page, size, pin, resize, on_message, on_ready, on_submit, config,
  on_session, finish, on_end, on_failure, Event, messaged, readied, load_failed, typed_username,
  typed_domain, typed_password, submitted, session_given, session_refused, run_ended, run_failed,
  disconnect, cancel, cad, fullscreen, paste, copy, warned, resized, timer_fired, page_hidden,
  react, run,
}

-- The sizes that the page asks for.
abbrev pub Fits : Extent → Type 0
Fits x =
    (320 ≤ x.width)
    × (x.width ≤ 3840)
    × (200 ≤ x.height)
    × (x.height ≤ 2160)
    × (x.width % 2 ≡ 0)
    × (x.height % 2 ≡ 0)

abbrev pub AsksFitting : Call → Type 0
AsksFitting (connects c) = Fits c.desktop_size
AsksFitting (resizes x) = Fits x
AsksFitting _ = Unit

size-Fits : (p : Page) → Fits (size p)
unfolding size
size-Fits p = (omega arith, omega arith, omega arith, omega arith, omega arith, omega arith)

resize-Fits : (p : Page) → All AsksFitting (resize p)
unfolding resize
resize-Fits p = ground (arith, size-Fits p)

react-AsksFitting : (e : Event) (p : Page) → All AsksFitting (react e p).1
unfolding react on_message on_ready on_submit on_session on_end on_failure pin resize finish config
react-AsksFitting (messaged trusted m) p =
    ground (arith, resize-Fits (record (pin m.server p) { token = m.token; active = m.active }))
react-AsksFitting readied p = (tt, (tt, (tt, tt)))
react-AsksFitting load_failed p = (tt, tt)
react-AsksFitting (typed_username text) p = tt
react-AsksFitting (typed_domain text) p = tt
react-AsksFitting (typed_password text) p = tt
react-AsksFitting (submitted is_https) p = ground (arith, size-Fits p)
react-AsksFitting session_given p = ground (arith, size-Fits p)
react-AsksFitting session_refused p = ground arith
react-AsksFitting run_ended p = ground arith
react-AsksFitting run_failed p = ground arith
react-AsksFitting disconnect p = ground arith
react-AsksFitting cancel p = (tt, tt)
react-AsksFitting cad p = ground arith
react-AsksFitting fullscreen p = (tt, tt)
react-AsksFitting paste p = ground arith
react-AsksFitting copy p = ground arith
react-AsksFitting (warned text) p = (tt, tt)
react-AsksFitting (resized client) p = tt
react-AsksFitting timer_fired p = ground (arith, size-Fits (record p { timer = false }))
react-AsksFitting page_hidden p = ground arith

-- After any events on any page: each size that the page asked for, in a new session or in a running
-- one, has an even width from 320 to 3840 and an even height from 200 to 2160.
pub run-AsksFitting : (es : List Event) (p : Page) → All AsksFitting (run es p).1
unfolding run
run-AsksFitting [] p = tt
run-AsksFitting (e ∷ es) p =
    All-append AsksFitting (react e p).1 (run es (react e p).0).1 (react-AsksFitting e p)
      (run-AsksFitting es (react e p).0)
