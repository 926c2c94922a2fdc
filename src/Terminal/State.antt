-- ===== src/Terminal/State.antt =====
-- ui/src/hooks/useTerminalConnection.ts: the state of the hook and of one call of `connect`.
-- The variables that a call of `connect` closes over are the record `Conn`, those of the hook the
-- record `Hook`; a callback is a function on the two, a `Session`. `sent` and `written` record the
-- calls of `ws.send` that returned and those of `term.write`.
use opsup.Prelude.{
  ℕ, suc, String, Bool, Option, none, some, List, [], ◌∷◌, ◌++◌, ◌==◌, if◌then◌else◌,
}
use opsup.Terminal.Frames.{Frame}

pub data Status : Type 0 where
  connecting connected error : Status

-- What a timer of the connection calls when it runs out.
pub data Task : Type 0 where
  pumps resizes fits : Task

-- `cols` and `rows` of the terminal.
pub record Size : Type 0 where
  pub cols : ℕ
  pub rows : ℕ

-- The parsed JSON of a status frame: whether `connected` is `false`, and `message`, if it is there.
pub record StatusValue : Type 0 where
  pub connected_is_false : Bool
  pub message : Option String

-- What the hook uses of the browser and of xterm.js. `send` is `none` where `ws.send` throws;
-- `fit` gives the size that fits a container, and `none` where it throws or proposes no size;
-- `parse` is `JSON.parse` with the two fields read, and `none` where that throws.
pub record Browser (S : Type 0) : Type 0 where
  pub new_socket : String → S
  pub is_open : S → Bool
  pub buffered : S → ℕ
  pub send : S → Frame → Option S
  pub close : S → S
  pub terminal_size : Size
  pub fit : ℕ → ℕ → Option Size
  pub decode : List ℕ → String
  pub parse : String → Option StatusValue
  pub encode_component : String → String

-- The hook's refs and React state, and what it reads of its page.
pub record Hook : Type 0 where
  pub generation : ℕ
  pub status : Status
  pub error_msg : String
  pub is_active : Bool
  pub mounted : Bool
  pub client_width : ℕ
  pub client_height : ℕ

pub record Conn (S : Type 0) : Type 0 where
  pub id : ℕ
  pub connected : Bool
  pub failed : Bool
  pub queue : List Frame
  pub queue_index : ℕ
  pub timers : List (ℕ × Task)
  pub next_timer : ℕ
  pub pump_timer : Option ℕ
  pub resize_timer : Option ℕ
  pub raf : Bool
  pub size : Size
  pub ws : S
  pub attached : Bool
  pub sent : List Frame
  pub written : List (List ℕ)

pub record Session (S : Type 0) : Type 0 where
  pub hook : Hook
  pub open hook use *
  pub conn : Conn S
  pub open conn use *

-- The task of a pending timer, and the pending timers without it.
unfoldable pub find_timer : ℕ → List (ℕ × Task) → Option Task
find_timer t [] = none
find_timer t ((u, task) ∷ ts) = if u == t then some task else find_timer t ts

unfoldable pub remove_timer : ℕ → List (ℕ × Task) → List (ℕ × Task)
remove_timer t [] = []
remove_timer t ((u, task) ∷ ts) =
    if u == t then remove_timer t ts else (u, task) ∷ remove_timer t ts

-- `if (timer) { clearTimeout(timer); timers.delete(timer) }`
unfoldable pub clear_timer : Option ℕ → List (ℕ × Task) → List (ℕ × Task)
clear_timer none ts = ts
clear_timer (some t) ts = remove_timer t ts

module _ {S : Type 0} where
  -- `const current = () => generation.current === id`
  abbrev pub current : Session S → Bool
  current s = s.generation == s.id

  -- `later(task, delay)`; the new timer's number is `s.next_timer`.
  abbrev pub later : Task → Session S → Session S
  later task s = record s {
    conn = record (s.conn) {
      timers = s.timers ++ (s.next_timer, task) ∷ [];
      next_timer = suc s.next_timer;
    };
  }
