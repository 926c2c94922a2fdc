-- ===== src/Touch/Gesture.antt =====
-- ui/src/utils/terminalTouch.ts: the listeners of `attachTerminalTouch`. Coordinates and heights are
-- integers in a unit of which `scale` make a pixel, so that fractions of pixels are among them. The two
-- divisions are those of floating point, which is a parameter. The listeners are attached from the start
-- until the function that is returned takes them off.
use opsup.Prelude.{
  ℕ, ◌*◌, Bool, not, ◌||◌, Option, none, some, List, [], ◌∷◌, ◌++◌, ◌==◌, ltb, if◌then◌else◌,
}
use opsup.Prelude.Int.{ℤ, pos, ◌-ℤ◌, eq_ℤ, abs}

pub record Touch : Type 0 where
  pub identifier : ℕ
  pub client_x : ℤ
  pub client_y : ℤ

-- What the listeners read of the terminal: whether its buffer is the normal one, the height of its
-- element, and its rows.
pub record Screen : Type 0 where
  pub is_normal : Bool
  pub height : ℕ
  pub rows : ℕ

-- Floating point, as far as it is used: `height / term.rows`, whether that is falsy, and
-- `Math.trunc(deltaY / cellHeight)`, each rounded as it is.
pub record Floats (F : Type 0) : Type 0 where
  pub divide : ℕ → ℕ → F
  pub is_falsy : F → Bool
  pub trunc_quotient : ℤ → F → ℤ

pub record Gesture (F : Type 0) : Type 0 where
  pub id : ℕ
  pub x : ℤ
  pub y : ℤ
  pub cell_height : F
  pub lines : ℤ

-- `event.touches` with, at a start, whether the target is within a scrollbar, and at a move whether
-- the event can be cancelled.
pub data Event : Type 0 where
  starts : List Touch → Bool → Event
  moves : List Touch → Bool → Event
  ends cancels : Event

pub data Call : Type 0 where
  prevents_default : Call
  scrolls_lines : ℤ → Call

module _ {F : Type 0} (m : Floats F) where
  -- `start(event)`
  unfoldable pub start : Screen → List Touch → Bool → Option (Gesture F)
  start screen (t ∷ []) on_scrollbar =
      let cell_height = m.divide screen.height screen.rows in
      if not screen.is_normal || on_scrollbar || m.is_falsy cell_height
      then none
      else some (record {
        id = t.identifier;
        x = t.client_x;
        y = t.client_y;
        cell_height = cell_height;
        lines = pos 0;
      })
  start screen _ on_scrollbar = none

  -- Whether a finger at a place has not moved far enough up or down, or has moved more to the side.
  unfoldable pub is_still : ℕ → Gesture F → Touch → Bool
  is_still scale g t =
      let delta = abs (g.y -ℤ t.client_y) in
      ltb delta (6 * scale) || ltb delta (abs (g.x -ℤ t.client_x))

  -- The part of `move` after its guards.
  unfoldable pub scroll : Gesture F → Touch → Bool → Gesture F × List Call
  scroll g t cancelable =
      let lines = m.trunc_quotient (g.y -ℤ t.client_y) g.cell_height in
      (
        record g { lines = lines },
        (if cancelable then prevents_default ∷ [] else [])
            ++ (if eq_ℤ lines g.lines then [] else scrolls_lines (lines -ℤ g.lines) ∷ []),
      )

  -- `move(event)` for one touch of a gesture in the normal buffer.
  unfoldable pub follow : ℕ → Gesture F → Touch → Bool → Option (Gesture F) × List Call
  unfolding is_still scroll
  follow scale g t cancelable =
      if not (t.identifier == g.id)
      then (none, [])
      else if is_still scale g t
      then (some g, [])
      else (let (g', calls) = scroll g t cancelable in (some g', calls))

  unfoldable pub move :
      ℕ → Screen → List Touch → Bool → Option (Gesture F) → Option (Gesture F) × List Call
  unfolding follow
  move scale screen (t ∷ []) cancelable (some g) =
      if screen.is_normal then follow scale g t cancelable else (none, [])
  move scale screen _ cancelable g = (none, [])

  unfoldable pub react : ℕ → Screen → Event → Option (Gesture F) → Option (Gesture F) × List Call
  unfolding start move
  react scale screen (starts touches on_scrollbar) g = (start screen touches on_scrollbar, [])
  react scale screen (moves touches cancelable) g = move scale screen touches cancelable g
  react scale screen ends g = (none, [])
  react scale screen cancels g = (none, [])

  -- A row of events, each with the terminal as it is then.
  unfoldable pub run :
      ℕ → List (Screen × Event) → Option (Gesture F) → Option (Gesture F) × List Call
  run scale [] g = (g, [])
  run scale ((screen, e) ∷ es) g =
      let (g', calls) = react scale screen e g in
      let (h, more) = run scale es g' in (h, calls ++ more)
