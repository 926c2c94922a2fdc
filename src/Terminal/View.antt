-- ===== src/Terminal/View.antt =====
-- ui/src/components/TerminalTab.tsx, lines 33 to 39 and 41 to 79: the keys of the bar, and what the tab
-- of a terminal draws over it. `has_term` is whether `termRef.current` holds a terminal.
use opsup.Prelude.{
  ℕ, zero, suc, ◌+◌, ◌≡◌, refl, String, Bool, true, false, not, ◌&&◌, List, [], ◌∷◌, ◌++◌, Option,
  none, some, All, codes, if◌then◌else◌,
}
use opsup.Terminal.State.{Status, connecting, connected, error}
use opsup.Terminal.Frames.{input_frames, encode}

pub record Shortcut : Type 0 where
  pub label : String
  pub data_sent : List ℕ

-- `SHORTCUTS`
unfoldable pub shortcuts : List Shortcut
shortcuts =
    record { label = "Ctrl+C"; data_sent = 0x03 ∷ [] }
    ∷ record { label = "Ctrl+D"; data_sent = 0x04 ∷ [] }
    ∷ record { label = "Ctrl+Z"; data_sent = 0x1a ∷ [] }
    ∷ record { label = "Ctrl+L"; data_sent = 0x0c ∷ [] }
    ∷ record { label = "Ctrl+U"; data_sent = 0x15 ∷ [] }
    ∷ record { label = "Ctrl+R"; data_sent = 0x12 ∷ [] }
    ∷ record { label = "Tab"; data_sent = 9 ∷ [] }
    ∷ record { label = "↑"; data_sent = 0x1b ∷ codes "[A" }
    ∷ record { label = "↓"; data_sent = 0x1b ∷ codes "[B" }
    ∷ record { label = "←"; data_sent = 0x1b ∷ codes "[D" }
    ∷ record { label = "→"; data_sent = 0x1b ∷ codes "[C" }
    ∷ record { label = "ESC"; data_sent = 0x1b ∷ [] }
    ∷ record { label = ":wq"; data_sent = codes ":wq" ++ 13 ∷ [] }
    ∷ record { label = ":q!"; data_sent = codes ":q!" ++ 13 ∷ [] }
    ∷ record { label = "i"; data_sent = codes "i" }
    ∷ record { label = "dd"; data_sent = codes "dd" }
    ∷ []

-- What stands over the terminal or below it. A notice and a card have a button to connect again; the
-- tools are the keys, where the bar is open, and the button that opens and closes it.
pub data Part : Type 0 where
  spinner : String → Part
  notice : String → Part
  card : String → String → Part
  keys : List Shortcut → Part
  toggle : String → Bool → Part

abbrev pub when : Bool → List Part → List Part
when true parts = parts
when false parts = []

abbrev pub is_connecting : Status → Bool
is_connecting connecting = true
is_connecting _ = false

abbrev pub is_connected : Status → Bool
is_connected connected = true
is_connected _ = false

abbrev pub is_error : Status → Bool
is_error error = true
is_error _ = false

-- The name and the state of the bar's button.
unfoldable pub bar_button : Bool → Part
bar_button show_bar = toggle (if show_bar then "隐藏快捷键" else "显示快捷键") show_bar

unfoldable pub draw : String → Status → String → Bool → Bool → List Part
unfolding bar_button
draw server_name status error_msg has_term show_bar =
    when (is_connecting status) (spinner server_name ∷ [])
    ++ when (is_error status) (when has_term (notice error_msg ∷ []))
    ++ when (is_error status) (when (not has_term) (card error_msg server_name ∷ []))
    ++ when (is_connected status) (when show_bar (keys shortcuts ∷ []) ++ bar_button show_bar ∷ [])

-- A click on the bar's button.
abbrev pub toggle_bar : Bool → Bool
toggle_bar value = not value

-- A key of the bar that is drawn: `sendShortcut(shortcut.data)`, for the key at `index`.
unfoldable pub data_at : ℕ → List Shortcut → Option (List ℕ)
data_at n [] = none
data_at zero (s ∷ ss) = some s.data_sent
data_at (suc n) (s ∷ ss) = data_at n ss

unfoldable pub press : ℕ → List Part → Option (List ℕ)
unfolding data_at
press index [] = none
press index (keys ss ∷ rest) = data_at index ss
press index (_ ∷ rest) = press index rest

-- Whether a part has the button that calls `connect`.
abbrev pub retries : List Part → ℕ
retries [] = 0
retries (notice _ ∷ rest) = 1 + retries rest
retries (card _ _ ∷ rest) = 1 + retries rest
retries (_ ∷ rest) = retries rest

abbrev IsOneFrame : Shortcut → Type 0
IsOneFrame s = input_frames s.data_sent ≡ (0 ∷ encode s.data_sent) ∷ []

shortcuts-IsOneFrame : All IsOneFrame shortcuts
unfolding shortcuts input_frames encode
shortcuts-IsOneFrame = (
  refl,
  (
    refl,
    (
      refl,
      (
        refl,
        (
          refl,
          (
            refl,
            (refl, (refl, (refl, (refl, (refl, (refl, (refl, (refl, (refl, (refl, tt)))))))))),
          ),
        ),
      ),
    ),
  ),
)

data_at-All :
    (index : ℕ) (ss : List Shortcut) (text : List ℕ)
    → All IsOneFrame ss
    → data_at index ss ≡ some text
    → input_frames text ≡ (0 ∷ encode text) ∷ []
unfolding data_at
data_at-All n [] text a e = absurd (cc e)
data_at-All zero (s ∷ ss) text a e = cc (e, a.0)
data_at-All (suc n) (s ∷ ss) text a e = data_at-All n ss text a.1 e

-- For all that a tab can be told: there is one button to connect again where the connection failed,
-- and none otherwise; and a key of the bar can be pressed just where the terminal is connected and the
-- bar is open, where it gives the data of its place.
pub draw-press :
    (server_name error_msg : String) (status : Status) (has_term show_bar : Bool) (index : ℕ)
    → let parts = draw server_name status error_msg has_term show_bar in
      (retries parts ≡ (if is_error status then 1 else 0))
      × (press index parts
          ≡ (if is_connected status && show_bar then data_at index shortcuts else none))
unfolding draw press
draw-press server_name error_msg connecting h b index = (refl, refl)
draw-press server_name error_msg connected h true index = (refl, refl)
draw-press server_name error_msg connected h false index = (refl, refl)
draw-press server_name error_msg error true b index = (refl, refl)
draw-press server_name error_msg error false b index = (refl, refl)

-- Where a key of the drawn bar can be pressed, the terminal is connected, and `inputFrames` of what the
-- key sends is one frame, with all of its bytes.
pub press-input_frames :
    (server_name error_msg : String) (status : Status) (has_term show_bar : Bool) (index : ℕ)
    (text : List ℕ)
    → press index (draw server_name status error_msg has_term show_bar) ≡ some text
    → (status ≡ connected) × (input_frames text ≡ (0 ∷ encode text) ∷ [])
unfolding draw press
press-input_frames server_name error_msg connecting h b index text e = absurd (cc e)
press-input_frames server_name error_msg connected h true index text e =
    (refl, data_at-All index shortcuts text shortcuts-IsOneFrame e)
press-input_frames server_name error_msg connected h false index text e = absurd (cc e)
press-input_frames server_name error_msg error true b index text e = absurd (cc e)
press-input_frames server_name error_msg error false b index text e = absurd (cc e)
