-- ===== src/Rdp/Sessions.antt =====
-- The sessions of the page of ui/src/rdp/client.ts: one at a time.
use opsup.Prelude.{ℕ, ◌+◌, ◌≡◌, refl, Bool, true, false, not, List, [], ◌∷◌, ◌++◌, arith}
use opsup.Rdp.Client.{
  Call, connects, sets_visibility, Waits, idle, for_session, for_end, Page, first_page, pin, resize,
  on_message, on_ready, on_submit, on_session, finish, on_end, on_failure, Event, messaged, readied,
  load_failed, typed_username, typed_domain, typed_password, submitted, session_given,
  session_refused, run_ended, run_failed, disconnect, cancel, cad, fullscreen, paste, copy, warned,
  resized, timer_fired, page_hidden, react, run,
}

-- How the flags, the four switches of the page and the API agree with where the submit handler
-- stands.
abbrev Stands : Waits → (busy live cancel_off login tools disabled api : Bool) → Type 0
Stands idle busy live cancel_off login tools disabled api =
    (busy ≡ false)
    × (live ≡ false)
    × (cancel_off ≡ true)
    × (login ≡ false)
    × (tools ≡ true)
    × (disabled ≡ not api)
Stands for_session busy live cancel_off login tools disabled api =
    (busy ≡ true)
    × (live ≡ false)
    × (cancel_off ≡ false)
    × (login ≡ false)
    × (tools ≡ true)
    × (api ≡ true)
Stands for_end busy live cancel_off login tools disabled api =
    (busy ≡ false)
    × (live ≡ true)
    × (cancel_off ≡ true)
    × (login ≡ true)
    × (tools ≡ false)
    × (api ≡ true)

abbrev pub IsConsistent : Page → Type 0
IsConsistent p =
    Stands p.waits p.is_connecting p.is_connected p.cancel_hidden p.login_hidden p.tools_hidden
      p.connect_disabled p.api

-- The attempts that were started, and those that were settled, among some calls.
abbrev starts : Call → ℕ
starts (connects c) = 1
starts _ = 0

abbrev pub started : List Call → ℕ
started [] = 0
started (c ∷ calls) = starts c + started calls

abbrev settles : Call → ℕ
settles (sets_visibility false) = 1
settles _ = 0

abbrev pub settled : List Call → ℕ
settled [] = 0
settled (c ∷ calls) = settles c + settled calls

-- The attempts under way.
abbrev pub under_way : Waits → ℕ
under_way idle = 0
under_way _ = 1

react-IsConsistent : (e : Event) (p : Page) → IsConsistent p → IsConsistent (react e p).0
unfolding react on_message on_ready on_submit on_session on_end on_failure pin resize finish
react-IsConsistent (messaged trusted m) p h = ground arith
react-IsConsistent readied p h = ground arith
react-IsConsistent load_failed p h = h
react-IsConsistent (typed_username text) p h = h
react-IsConsistent (typed_domain text) p h = h
react-IsConsistent (typed_password text) p h = h
react-IsConsistent (submitted is_https) p h = ground arith
react-IsConsistent session_given p h = ground arith
react-IsConsistent session_refused p h = ground arith
react-IsConsistent run_ended p h = ground arith
react-IsConsistent run_failed p h = ground arith
react-IsConsistent disconnect p h = h
react-IsConsistent cancel p h = h
react-IsConsistent cad p h = h
react-IsConsistent fullscreen p h = h
react-IsConsistent paste p h = h
react-IsConsistent copy p h = h
react-IsConsistent (warned text) p h = h
react-IsConsistent (resized client) p h = h
react-IsConsistent timer_fired p h = ground arith
react-IsConsistent page_hidden p h = h

-- Settling ends the attempt under way, and starting begins one.
react-attempts :
    (e : Event) (p : Page)
    → IsConsistent p
    → started (react e p).1 + under_way p.waits
      ≡ settled (react e p).1 + under_way ((react e p).0).waits
unfolding react on_message on_ready on_submit on_session on_end on_failure pin resize finish
react-attempts (messaged trusted m) p h = ground arith
react-attempts readied p h = refl
react-attempts load_failed p h = refl
react-attempts (typed_username text) p h = refl
react-attempts (typed_domain text) p h = refl
react-attempts (typed_password text) p h = refl
react-attempts (submitted is_https) p h = ground arith
react-attempts session_given p h = ground arith
react-attempts session_refused p h = ground arith
react-attempts run_ended p h = ground arith
react-attempts run_failed p h = ground arith
react-attempts disconnect p h = ground arith
react-attempts cancel p h = refl
react-attempts cad p h = ground arith
react-attempts fullscreen p h = refl
react-attempts paste p h = ground arith
react-attempts copy p h = ground arith
react-attempts (warned text) p h = refl
react-attempts (resized client) p h = refl
react-attempts timer_fired p h = ground arith
react-attempts page_hidden p h = ground arith

started-append : (xs ys : List Call) → started (xs ++ ys) ≡ started xs + started ys
started-append [] ys = omega arith
started-append (c ∷ xs) ys = omega (arith, started-append xs ys)

settled-append : (xs ys : List Call) → settled (xs ++ ys) ≡ settled xs + settled ys
settled-append [] ys = omega arith
settled-append (c ∷ xs) ys = omega (arith, settled-append xs ys)

run-attempts :
    (es : List Event) (p : Page)
    → IsConsistent p
    → IsConsistent (run es p).0
      × (started (run es p).1 + under_way p.waits
          ≡ settled (run es p).1 + under_way ((run es p).0).waits)
unfolding run
run-attempts [] p h = (h, refl)
run-attempts (e ∷ es) p h =
    let (q, calls) = react e p in
    let (r, more) = run es q in
    let rest = run-attempts es (react e p).0 (react-IsConsistent e p h) in
    (
      rest.0,
      omega (
        arith,
        rest.1,
        react-attempts e p h,
        started-append (react e p).1 (run es (react e p).0).1,
        settled-append (react e p).1 (run es (react e p).0).1,
      ),
    )

-- After any events on the loaded page: its flags and its buttons agree with where the submit
-- handler stands, so that a form to connect is shown just while no session is open; and of the
-- attempts to connect that were started, all are settled but the one under way, so that no two
-- sessions overlap.
pub run-first_page-attempts :
    (es : List Event)
    → IsConsistent (run es first_page).0
      × (started (run es first_page).1
          ≡ settled (run es first_page).1 + under_way ((run es first_page).0).waits)
run-first_page-attempts es =
    let h = run-attempts es first_page (refl, refl, refl, refl, refl, refl) in
    (h.0, omega (arith, h.1))
