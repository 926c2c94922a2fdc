-- ===== src/Servers/LongPress.antt =====
-- ui/src/components/ServerSidebar.tsx, lines 51 to 66 and 105 to 109: the long press on a server's
-- card. A timer that ran out is not pending any more; clearing it again has no effect.
use opsup.Prelude.{ℕ, suc, ◌≡◌, refl, Bool, true, false, Option, none, some, List, [], ◌∷◌, zero}

pub record Press : Type 0 where
  pub touch_menu_id : Option ℕ
  pub timer : Option ℕ
  pub fired : Bool

-- What happens at the cards, by the ids of their servers; `touches` is `event.touches.length`.
pub data Event : Type 0 where
  touch_start : (id touches : ℕ) → Event
  touch_end touch_move timer_fires : Event
  menu_changes : (id : ℕ) → Bool → Event
  clicks : (id : ℕ) → Event

-- `onCardTouchStart`, whose timer opens the menu of its server after 500 ms.
unfoldable pub on_touch_start : ℕ → ℕ → Press → Press
on_touch_start id zero p = p
on_touch_start id (suc touches) p = record p { timer = some id; fired = false }

-- `clearLongPress`
unfoldable pub clear_long_press : Press → Press
clear_long_press p = record p { timer = none }

unfoldable pub on_timer : Press → Press
on_timer p = elim p.timer [
  | none ↦ p
  | some id ↦ record { touch_menu_id = some id; timer = none; fired = true }
]

-- The state after an event, and the server that `onConnect` is called for, if it is.
unfoldable pub react : Event → Press → Press × Option ℕ
react (touch_start id touches) p = (on_touch_start id touches p, none)
react touch_end p = (clear_long_press p, none)
react touch_move p = (clear_long_press p, none)
react timer_fires p = (on_timer p, none)
react (menu_changes id true) p = (record p { touch_menu_id = some id }, none)
react (menu_changes id false) p = (record p { touch_menu_id = none }, none)
react (clicks id) p = elim p.fired [
  | true ↦ (record p { fired = false }, none)
  | false ↦ (p, some id)
]

unfoldable pub run : List Event → Press → Press
run [] p = p
run (e ∷ es) p = run es (react e p).0

-- Events with which a finger is only lifted or moved, or a menu opens or closes.
unfoldable pub lifts : List Event → Bool
lifts [] = true
lifts (touch_end ∷ es) = lifts es
lifts (touch_move ∷ es) = lifts es
lifts (menu_changes id o ∷ es) = lifts es
lifts (_ ∷ es) = false

run-fired :
    (es : List Event) (p : Press) → lifts es ≡ true → p.timer ≡ none → (run es p).fired ≡ p.fired
unfolding run react lifts clear_long_press
run-fired [] p h t = refl
run-fired (touch_start id touches ∷ es) p h t = absurd (cc h)
run-fired (touch_end ∷ es) p h t = run-fired es (record p { timer = none }) h refl
run-fired (touch_move ∷ es) p h t = run-fired es (record p { timer = none }) h refl
run-fired (timer_fires ∷ es) p h t = absurd (cc h)
run-fired (menu_changes id true ∷ es) p h t =
    run-fired es (record p { touch_menu_id = some id }) h t
run-fired (menu_changes id false ∷ es) p h t = run-fired es (record p { touch_menu_id = none }) h t
run-fired (clicks id ∷ es) p h t = absurd (cc h)

-- Two clicks after a long press.
clicks-fired :
    (p : Press) (next later : ℕ)
    → p.fired ≡ true
    → let first = react (clicks next) p in
      (first.1 ≡ none) × ((react (clicks later) first.0).1 ≡ some later)
unfolding react
clicks-fired p next later h = (rw (h, react), rw (h, react))

-- When a touch has lasted until its timer ran out, then, however the finger moves and is lifted and
-- the menu opens or closes, the menu of the touched server was opened, the next click on any card
-- connects to no server, and the one after it connects again.
pub long_press_click :
    (p : Press) (id touches : ℕ) (es : List Event) (next later : ℕ)
    → lifts es ≡ true
    → let held = run (touch_start id (suc touches) ∷ timer_fires ∷ []) p in
      let first = react (clicks next) (run es held) in
      (held.touch_menu_id ≡ some id)
      × (first.1 ≡ none)
      × ((react (clicks later) first.0).1 ≡ some later)
unfolding run react on_touch_start on_timer
long_press_click p id touches es next later h =
    let held : Press = record { touch_menu_id = some id; timer = none; fired = true } in
    let on : (run es held).fired ≡ true = run-fired es held h refl in
    let two = clicks-fired (run es held) next later on in (refl, two.0, two.1)
