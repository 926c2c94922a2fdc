-- ===== src/Rdp/Tests.antt =====
-- The desktop's page on a concrete run.
use opsup.Prelude.{◌+◌, ◌≡◌, refl, true, false, none, some, List, [], ◌∷◌, All, arith, codes}
use opsup.Prelude.Decimal.{decimal}
use opsup.Types.{rdp, Server}
use opsup.Rdp.Client.{
  Event, messaged, readied, typed_password, submitted, session_given, run_ended, resized,
  first_page, Init, pin, size, resize, on_message, on_ready, on_submit, on_session, on_end,
  on_failure, finish, config, destination, react, run,
}
use opsup.Rdp.Sessions.{IsConsistent, started, settled, under_way, run-first_page-attempts}
use opsup.Terminal.State.{connecting}
use opsup.Rdp.Frame
use opsup.Rdp.Frame.{
  Frame, send, mount, posted, at_page, listen, Action, loads, activates, delivers_down, delivers_up,
  happens, act,
}
use opsup.Rdp.InStep.{run-mount-Reaches, run-mount-in_step}
use opsup.Rdp.Sizes.{AsksFitting, run-AsksFitting}
use opsup.Rdp.Address.{Reaches}

abbrev desktop : Server
desktop = record {
  id = 5;
  protocol = some rdp;
  rdp_domain = none;
  rdp_cert_fingerprint = none;
  name = "win";
  host_key = "";
  host = "::1";
  port = 3389;
  username = "Administrator";
  auth_type = "password";
  description = "";
  group = "";
  jump_server_id = none;
  created_at = "";
  updated_at = "";
}

abbrev init : Init
init = record { server = desktop; token = "t"; active = true }

abbrev events : List Event
events =
    messaged true init
    ∷ readied
    ∷ resized (record { width = 801; height = 100 })
    ∷ typed_password "secret"
    ∷ submitted true
    ∷ submitted true
    ∷ session_given
    ∷ run_ended
    ∷ submitted true
    ∷ []

all_steps : Unit {0}
unfolding pin size resize on_message on_ready on_submit on_session on_end on_failure finish config
    destination react run decimal
all_steps = tt

twice : started (run events first_page).1 ≡ 2
unfolding all_steps
twice = refl

bracketed : destination desktop ≡ codes "[::1]:3389"
unfolding all_steps
bracketed = refl

run-first_page-attempts_example :
    IsConsistent (run events first_page).0
    × (started (run events first_page).1
        ≡ settled (run events first_page).1 + under_way ((run events first_page).0).waits)
run-first_page-attempts_example = run-first_page-attempts events

run-AsksFitting_example : All AsksFitting (run events first_page).1
run-AsksFitting_example = run-AsksFitting events first_page

-- The tab is hidden while its page is loading, and the page asks for what it missed; then a message about
-- another server comes from elsewhere.
abbrev steps : List Action
steps =
    loads
    ∷ activates false
    ∷ delivers_up
    ∷ delivers_down
    ∷ delivers_down
    ∷ happens (messaged false (record init { server = record desktop { id = 6; host = "else" } }))
    ∷ happens readied
    ∷ happens (typed_password "secret")
    ∷ happens (submitted true)
    ∷ delivers_up
    ∷ delivers_up
    ∷ []

abbrev tab : Frame
tab = Frame.run steps (mount desktop true (some "t"))

quiet :
    (tab.loaded ≡ true)
    × (tab.down ≡ [])
    × (tab.up ≡ [])
    × (tab.shown ≡ some connecting)
    × (started tab.calls ≡ 1)
unfolding all_steps send at_page listen posted act Frame.run
quiet = (refl, refl, refl, refl, refl)

run-mount-Reaches_example : All (Reaches desktop) tab.calls
run-mount-Reaches_example = run-mount-Reaches desktop true (some "t") steps (
  (ground arith, ground arith),
  ((ground arith, ground arith), ((ground arith, ground arith), tt)),
)

run-mount-in_step_example : (tab.page.server ≡ some desktop) × (tab.page.active ≡ tab.is_active)
unfolding all_steps send at_page listen posted act Frame.run
run-mount-in_step_example = run-mount-in_step desktop true (some "t") steps refl refl refl
