-- ===== src/Touch/Scrolling.antt =====
-- The lines that a finger scrolls add up: ui/src/utils/terminalTouch.ts rounds at every move, and no
-- rounding is carried on.
use opsup.Prelude.{
  ℕ, ◌≡◌, refl, sym, ap, subst, ◌∙◌, Bool, true, false, Option, some, List, [], ◌∷◌, ◌++◌, arith,
  All, map, Bool-cases, inl, inr, ==_iff, if◌then◌else◌, append-nil,
}
use opsup.Prelude.Int.{ℤ, pos, ◌+ℤ◌, ◌-ℤ◌, eq_ℤ, int_laws, eq_of_parts}
use opsup.Touch.Gesture.{
  Touch, Screen, Gesture, Event, moves, Call, prevents_default, scrolls_lines, Floats, start,
  is_still, scroll, follow, react, run,
}

abbrev lines_of : Call → ℤ
lines_of prevents_default = pos 0
lines_of (scrolls_lines n) = n

-- The lines that some calls scroll by together.
unfoldable pub total : List Call → ℤ
total [] = pos 0
total (c ∷ calls) = lines_of c +ℤ total calls

total-append : (xs ys : List Call) → total (xs ++ ys) ≡ total xs +ℤ total ys
unfolding total
total-append [] ys = omega int_laws
total-append (c ∷ xs) ys = rw (total-append xs ys) (omega int_laws)

-- One step of a finger: the terminal, the finger, and whether the event can be cancelled.
pub record Drag : Type 0 where
  pub screen : Screen
  pub touch : Touch
  pub cancelable : Bool

abbrev pub event_of : Drag → Screen × Event
event_of d = (d.screen, moves (d.touch ∷ []) d.cancelable)

-- The finger `id` in the normal buffer.
abbrev pub IsOf : ℕ → Drag → Type 0
IsOf id d = (d.screen.is_normal ≡ true) × (d.touch.identifier ≡ id)

total_nil : (a : ℤ) → total [] +ℤ a ≡ a
unfolding total
total_nil a = omega int_laws

eq_ℤ→eq : (a b : ℤ) → eq_ℤ a b ≡ true → a ≡ b
eq_ℤ→eq a b h = eq_of_parts a b (ground arith)

-- What the last lines of `move` scroll by.
total-if :
    (cancelable : Bool) (lines old : ℤ)
    → total (
          (if cancelable then prevents_default ∷ [] else [])
          ++ (if eq_ℤ lines old then [] else scrolls_lines (lines -ℤ old) ∷ []))
        +ℤ old
      ≡ lines
unfolding total
total-if true lines old = elim (Bool-cases (eq_ℤ lines old)) [
  | inl same ↦ rw same (omega int_laws ∙ sym (eq_ℤ→eq lines old same))
  | inr other ↦ rw other (omega int_laws)
]
total-if false lines old = elim (Bool-cases (eq_ℤ lines old)) [
  | inl same ↦ rw same (omega int_laws ∙ sym (eq_ℤ→eq lines old same))
  | inr other ↦ rw other (omega int_laws)
]

-- A sum that is taken in two steps.
chain : (a b c : ℤ) {d e : ℤ} → a +ℤ c ≡ d → b +ℤ d ≡ e → (a +ℤ b) +ℤ c ≡ e
chain a b c p q =
    let regroup : (a +ℤ b) +ℤ c ≡ b +ℤ (a +ℤ c) = omega int_laws in regroup ∙ ap (◌+ℤ◌ b) p ∙ q

module _ {F : Type 0} (m : Floats F) where
  total-scroll :
      (g : Gesture F) (t : Touch) (c : Bool)
      → total (scroll m g t c).1 +ℤ g.lines ≡ m.trunc_quotient (g.y -ℤ t.client_y) g.cell_height
  unfolding scroll
  total-scroll g t c = total-if c (m.trunc_quotient (g.y -ℤ t.client_y) g.cell_height) g.lines

  -- A gesture that goes on, with the lines that were scrolled.
  abbrev Continues : Gesture F → Option (Gesture F) × List Call → Type 0
  Continues g r =
      (lines : ℤ) × (r.0 ≡ some (record g { lines = lines })) × (total r.1 +ℤ g.lines ≡ lines)

  react-Continues :
      (scale : ℕ) (g : Gesture F) (d : Drag)
      → IsOf g.id d
      → Continues g (react m scale d.screen (moves (d.touch ∷ []) d.cancelable) (some g))
  unfolding react follow
  react-Continues scale g d h =
      rw (h.0, (==_iff d.touch.identifier g.id).1 h.1, react)
        (elim (Bool-cases (is_still m scale g d.touch)) [
          | inl still ↦ rw (still, react) (g.lines, refl, total_nil g.lines)
          | inr moved ↦ rw (moved, react) (_, refl, total-scroll g d.touch d.cancelable)
        ])

  run-total :
      (scale : ℕ) (g : Gesture F) (ds : List Drag) (last : Drag)
      → All (IsOf g.id) ds
      → IsOf g.id last
      → is_still m scale g last.touch ≡ false
      → total (run m scale (map event_of (ds ++ last ∷ [])) (some g)).1 +ℤ g.lines
        ≡ m.trunc_quotient (g.y -ℤ last.touch.client_y) g.cell_height
  unfolding run is_still react follow
  run-total scale g [] last h k moved =
      rw (k.0, (==_iff last.touch.identifier g.id).1 k.1, moved, run)
        (rw (append-nil (scroll m g last.touch last.cancelable).1)
          (total-scroll g last.touch last.cancelable))
  run-total scale g (d ∷ ds) last h k moved =
      let (l, e, t) = react-Continues scale g d h.0 in
      let u = run-total scale (record g { lines = l }) ds last h.1 k moved in
      let calls = (react m scale d.screen (moves (d.touch ∷ []) d.cancelable) (some g)).1 in
      let more = (run m scale (map event_of (ds ++ last ∷ [])) (some (record g { lines = l }))).1 in
      rw (e, total-append calls more) (chain (total calls) (total more) g.lines t u)

  -- Where a touch of one finger starts a gesture and the finger then moves on any path in the normal
  -- buffer, up to a place that is far enough from the start and more so up or down than to the side:
  -- the lines that all moves together scroll by are those of one division of the distance from the start
  -- to that place by the height of a row at the start, however the divisions are rounded; neither the path
  -- nor the rounding at the places between has a part in it.
  pub start-total :
      (scale : ℕ) (screen : Screen) (t : Touch) (g : Gesture F) (ds : List Drag) (last : Drag)
      → start m screen (t ∷ []) false ≡ some g
      → All (IsOf t.identifier) ds
      → IsOf t.identifier last
      → is_still m scale g last.touch ≡ false
      → total (run m scale (map event_of (ds ++ last ∷ [])) (some g)).1
        ≡ m.trunc_quotient (t.client_y -ℤ last.touch.client_y) (m.divide screen.height screen.rows)
  unfolding start
  start-total scale screen t g ds last e h k moved =
      let id : g.id ≡ t.identifier = ground arith in
      let y : g.y ≡ t.client_y = ground arith in
      let cell : g.cell_height ≡ m.divide screen.height screen.rows = ground arith in
      let lines : g.lines ≡ pos 0 = ground arith in
      let sum =
        run-total scale g ds last (subst (λ i. All (IsOf i) ds) (sym id) h)
          (subst (λ i. IsOf i last) (sym id) k) moved in
      let calls = (run m scale (map event_of (ds ++ last ∷ [])) (some g)).1 in
      let whole : total calls ≡ total calls +ℤ g.lines = rw lines (omega int_laws) in
      whole ∙ sum ∙ rw (y, cell)
