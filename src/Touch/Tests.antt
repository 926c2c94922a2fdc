-- ===== src/Touch/Tests.antt =====
-- The gestures of ui/src/utils/terminalTouch.test.ts: rows of 20 pixels, 10 of them.
use opsup.Prelude.{
  ℕ, suc, ◌*◌, ◌/◌, ◌==◌, ◌≡◌, refl, true, false, none, some, List, [], ◌∷◌, ◌++◌, map,
}
use opsup.Prelude.Int.{pos, negsuc, sub_ℕ, ◌-ℤ◌, ◌+ℤ◌}
use opsup.Touch.Gesture.{
  Touch, Screen, Gesture, starts, scrolls_lines, Floats, start, is_still, scroll, follow, move,
  react, run,
}
use opsup.Touch.Scrolling.{Drag, event_of, total, start-total}

abbrev screen : Screen
screen = record { is_normal = true; height = 200; rows = 10 }

abbrev finger : ℕ → Touch
finger y = record { identifier = 1; client_x = pos 20; client_y = pos y }

abbrev drag : ℕ → Drag
drag y = record { screen = screen; touch = finger y; cancelable = false }

abbrev drags : List Drag
drags = drag 109 ∷ drag 129 ∷ drag 145 ∷ []

-- Divisions without an error, which these sizes have in floating point, too: a height is a fraction.
abbrev exact : Floats (ℕ × ℕ)
exact = record {
  divide = λ height rows. (height, rows);
  is_falsy = λ f. f.0 == 0;
  trunc_quotient = λ delta f. elim delta [
    | pos n ↦ pos (n * f.1 / f.0)
    | negsuc n ↦ sub_ℕ 0 (suc n * f.1 / f.0)
  ];
}

all_steps : Unit {0}
unfolding start is_still scroll follow move react run total ◌-ℤ◌ ◌+ℤ◌
all_steps = tt

-- Down by 9, 29 and 45 pixels from the start, and back up to 15: two rows down, and both back.
accumulates :
    (run exact 1
      ((screen, starts (finger 100 ∷ []) false) ∷ map event_of (drags ++ drag 115 ∷ []))
      none).1
    ≡ scrolls_lines (negsuc 0) ∷ scrolls_lines (negsuc 0) ∷ scrolls_lines (pos 2) ∷ []
unfolding all_steps
accumulates = refl

abbrev gesture : Gesture (ℕ × ℕ)
gesture = record { id = 1; x = pos 20; y = pos 100; cell_height = (200, 10); lines = pos 0 }

start-total_example :
    total (run exact 1 (map event_of (drags ++ drag 61 ∷ [])) (some gesture)).1
    ≡ exact.trunc_quotient (pos 100 -ℤ pos 61) (200, 10)
unfolding all_steps
start-total_example =
    start-total exact 1 screen (finger 100) gesture drags (drag 61) refl
      ((refl, refl), ((refl, refl), ((refl, refl), tt))) (refl, refl) refl
