-- ===== src/Tabs/Font.antt =====
-- The font size of ui/src/components/TerminalTabs.tsx, lines 9 to 11, 16 to 19 and 31 to 37. The
-- storage holds a text under `opsup_font_size`, or nothing.
use opsup.Prelude.{
  ℕ, ◌+◌, ◌-◌, ◌≤◌, ◌≡◌, refl, min, max, ◌&&◌, Option, none, some, List, [], ◌∷◌, arith, leb,
  if◌then◌else◌,
}
use opsup.Prelude.Decimal.{decimal, read_digits, read_digits-decimal}

abbrev pub min_size : ℕ
min_size = 10

abbrev pub max_size : ℕ
max_size = 28

-- `Number(text)` for a text of digits, and for the `null` of a missing entry. Other texts, which
-- the program never stores, are not distinguished.
abbrev pub to_number : Option (List ℕ) → ℕ
to_number none = 0
to_number (some text) = read_digits 0 text

pub record Font : Type 0 where
  pub size : ℕ
  pub stored : Option (List ℕ)

-- The first value of the state `fontSize`.
unfoldable pub load_size : Option (List ℕ) → ℕ
load_size stored =
    let saved = to_number stored in if leb min_size saved && leb saved max_size then saved else 14

abbrev pub mount : Option (List ℕ) → Font
mount stored = record { size = load_size stored; stored = stored }

-- The two buttons: `changeFontSize(-1)` and `changeFontSize(1)`.
pub data Delta : Type 0 where
  smaller larger : Delta

-- `previous + delta`; no size that the program shows is 0.
abbrev pub plus : ℕ → Delta → ℕ
plus previous smaller = previous - 1
plus previous larger = previous + 1

unfoldable pub change_font_size : Delta → Font → Font
change_font_size delta font =
    let next = min max_size (max min_size (plus font.size delta)) in
    record { size = next; stored = some (decimal next) }

unfoldable pub change_all : List Delta → Font → Font
change_all [] font = font
change_all (d ∷ ds) font = change_all ds (change_font_size d font)

load_size-bounds : (stored : Option (List ℕ)) → (10 ≤ load_size stored) × (load_size stored ≤ 28)
unfolding load_size
load_size-bounds none = omega arith
load_size-bounds (some text) = ground arith

-- What is shown is within the bounds, and a reload shows the same.
abbrev Kept : Font → Type 0
Kept font = (10 ≤ font.size) × (font.size ≤ 28) × (load_size font.stored ≡ font.size)

load_size-decimal : (n : ℕ) → 10 ≤ n → n ≤ 28 → load_size (some (decimal n)) ≡ n
unfolding load_size
load_size-decimal n lo hi = ground (arith, read_digits-decimal n)

change_font_size-Kept : (delta : Delta) (font : Font) → Kept (change_font_size delta font)
unfolding change_font_size
change_font_size-Kept delta font =
    let next = min max_size (max min_size (plus font.size delta)) in
    let lo : 10 ≤ next = omega arith in
    let hi : next ≤ 28 = omega arith in (lo, hi, load_size-decimal next lo hi)

change_all-Kept : (ds : List Delta) (font : Font) → Kept font → Kept (change_all ds font)
unfolding change_all
change_all-Kept [] font k = k
change_all-Kept (d ∷ ds) font k =
    change_all-Kept ds (change_font_size d font) (change_font_size-Kept d font)

-- Whatever number was stored, after any presses of the two buttons the size is between 10 and 28,
-- and mounting the workspace again on what is stored then shows the same size.
pub change_all-reload :
    (stored : Option (List ℕ)) (ds : List Delta)
    → (10 ≤ (change_all ds (mount stored)).size)
      × ((change_all ds (mount stored)).size ≤ 28)
      × ((mount (change_all ds (mount stored)).stored).size ≡ (change_all ds (mount stored)).size)
change_all-reload stored ds =
    let b = load_size-bounds stored in change_all-Kept ds (mount stored) (b.0, b.1, refl)
