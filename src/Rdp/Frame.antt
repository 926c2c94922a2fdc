-- ===== src/Rdp/Frame.antt =====
-- ui/src/components/RdpTab.tsx: the tab that holds the desktop's page in a frame, and the messages
-- between the two. A message is on its way until it is delivered, in the order in which it was
-- posted; one that is posted before the page is loaded, or when it is loaded anew, is lost.
use opsup.Prelude.{
  String, Bool, true, false, not, Option, none, some, List, [], ◌∷◌, ◌++◌, bool_eq, if◌then◌else◌,
}
use opsup.Types.{Server}
use opsup.Terminal.State.{Status}
use opsup.Rdp.Client.{Page, first_page, Init, Call, posts_status, Event, messaged, text_of, react}

-- What the page posts to the tab.
pub data Posted : Type 0 where
  ready : Posted
  status : Status → Posted

-- The tab with its frame. `token` is what the storage holds, `shown` the last status that was passed
-- to `onStatusChange`, and `calls` what the page has called so far.
pub record Frame : Type 0 where
  pub server : Server
  pub is_active : Bool
  pub token : Option String
  pub loaded : Bool
  pub page : Page
  pub down : List Init
  pub up : List Posted
  pub shown : Option Status
  pub calls : List Call

-- `send()`
unfoldable pub send : Frame → Frame
send f =
    let m : Init = record { server = f.server; token = text_of f.token; active = f.is_active } in
    if f.loaded then record f { down = f.down ++ m ∷ [] } else f

-- The first render, whose effect calls `send`: the frame's page is not there yet.
abbrev pub mount : Server → Bool → Option String → Frame
mount server is_active token = record {
  server = server;
  is_active = is_active;
  token = token;
  loaded = false;
  page = first_page;
  down = [];
  up = [];
  shown = none;
  calls = [];
}

-- The statuses among the calls of the page.
unfoldable pub posted : List Call → List Posted
posted [] = []
posted (posts_status text s ∷ calls) = status s ∷ posted calls
posted (_ ∷ calls) = posted calls

-- An event at the page.
unfoldable pub at_page : Event → Frame → Frame
at_page e f =
    let (page, calls) = react e f.page in
    record f { page = page; calls = f.calls ++ calls; up = f.up ++ posted calls }

-- `listener(event)` for a message of the frame's page; one from elsewhere is not listened to.
unfoldable pub listen : Posted → Frame → Frame
unfolding send
listen ready f = send f
listen (status s) f = record f { shown = some s }

-- What happens: the page of the frame is loaded, the tab is rendered as shown or as hidden, the storage gets another
-- token, a message arrives at the page or at the tab, or the user or the session acts at the page.
pub data Action : Type 0 where
  loads : Action
  activates : Bool → Action
  stores : Option String → Action
  delivers_down delivers_up : Action
  happens : Event → Action

-- The events at the page but the messages of the tab. A message from elsewhere, of any content, is among
-- them: its source, its origin or its type is not the one that the page asks for.
abbrev pub is_own : Event → Bool
is_own (messaged trusted m) = not trusted
is_own _ = true

unfoldable pub act : Action → Frame → Frame
unfolding send at_page listen
act loads f = record f { loaded = true; page = first_page; down = []; up = f.up ++ ready ∷ [] }
act (activates on) f = if bool_eq on f.is_active then f else send (record f { is_active = on })
act (stores token) f = record f { token = token }
act delivers_down f = elim f.down [
  | [] ↦ f
  | m ∷ rest ↦ at_page (messaged true m) (record f { down = rest })
]
act delivers_up f = elim f.up [ [] ↦ f | m ∷ rest ↦ listen m (record f { up = rest }) ]
act (happens e) f = if is_own e then at_page e f else f

unfoldable pub run : List Action → Frame → Frame
run [] f = f
run (a ∷ rest) f = run rest (act a f)
