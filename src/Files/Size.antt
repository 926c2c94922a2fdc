-- ===== src/Files/Size.antt =====
-- ui/src/components/FileManager.tsx, lines 32 to 42: `formatSize`. A size that was divided `i` times
-- is the fraction `bytes / 1024 ^ i`, which a double holds exactly for the sizes of files.
use native.Mathlib.Nat.{pow-suc, div-add-mod, mod-lt}
use opsup.Prelude.{
  ℕ, zero, suc, ◌+◌, ◌*◌, ◌/◌, ◌%◌, ◌^◌, ◌≤◌, ◌<◌, ◌≡◌, refl, ap, sym, ◌∙◌, List, ◌++◌, arith, leb,
  ◌==◌, if◌then◌else◌, codes, inl, inr, Bool-cases, ◌⊎◌,
}
use opsup.Prelude.Decimal.{decimal}

pub record Scaled : Type 0 where
  pub unit : ℕ
  pub divisor : ℕ

-- `while (size >= 1024 && i < units.length - 1)`, with `left` units to go; `divisor` is `1024 ^ i`.
unfoldable pub scale : ℕ → ℕ → Scaled → Scaled
scale zero bytes s = s
scale (suc left) bytes s =
    let larger = scale left bytes (record { unit = s.unit + 1; divisor = s.divisor * 1024 }) in
    if leb (s.divisor * 1024) bytes then larger else s

-- `toFixed(1)` in tenths: the nearest one, and the larger of two.
unfoldable pub tenths : ℕ → ℕ → ℕ
tenths bytes divisor = (bytes * 20 + divisor) / (2 * divisor)

abbrev unit_name : ℕ → List ℕ
unit_name zero = codes "B"
unit_name (suc zero) = codes "KB"
unit_name (suc (suc zero)) = codes "MB"
unit_name _ = codes "GB"

unfoldable pub format_size : ℕ → List ℕ
unfolding scale tenths
format_size bytes =
    let s = scale 3 bytes (record { unit = 0; divisor = 1 }) in
    let t = tenths bytes s.divisor in
    if bytes == 0
    then codes "-"
    else (if s.unit == 0
        then decimal bytes
        else decimal (t / 10) ++ (codes "." ++ decimal (t % 10)))
      ++ (codes " " ++ unit_name s.unit)

-- The unit that fits: the largest one, up to the last, that the size reaches.
pub record Fits (bytes : ℕ) (units : ℕ) (s : Scaled) : Type 0 where
  pub in_range : s.unit ≤ units
  pub power : s.divisor ≡ 1024 ^ s.unit
  pub reached : (s.unit ≡ 0) ⊎ (s.divisor ≤ bytes)
  pub largest : (s.unit ≡ units) ⊎ (bytes < s.divisor * 1024)

scale_left-Fits :
    (left bytes units : ℕ) (s : Scaled)
    → s.unit + left ≡ units
    → s.divisor ≡ 1024 ^ s.unit
    → (s.unit ≡ 0) ⊎ (s.divisor ≤ bytes)
    → Fits bytes units (scale left bytes s)
unfolding scale
scale_left-Fits zero bytes units s e p r = record {
  in_range = omega arith;
  power = p;
  reached = r;
  largest = inl (omega arith);
}
scale_left-Fits (suc left) bytes units s e p r = elim (Bool-cases (leb (s.divisor * 1024) bytes)) [
  | inl more ↦ rw more (
      scale_left-Fits left bytes units _ (omega arith)
        (ap (λ d. d * 1024) p ∙ sym (pow-suc 1024 s.unit) ∙ ap (λ k. 1024 ^ k) (omega arith))
        (inr (ground arith)))
  | inr done ↦
      rw done
        (record { in_range = omega arith; power = p; reached = r; largest = inr (ground arith) })
]

-- For every size, the loop of `formatSize` stops at one of the four units, whose divisor is that power
-- of 1024: the size is not below it, unless the unit is B, and is below the next one, unless it is GB.
pub scale-Fits : (bytes : ℕ) → Fits bytes 3 (scale 3 bytes (record { unit = 0; divisor = 1 }))
scale-Fits bytes = scale_left-Fits 3 bytes 3 _ refl refl (inl refl)

-- The number shown is off by half a tenth of its unit at most.
pub tenths_near :
    (bytes divisor : ℕ)
    → 0 < divisor
    → (2 * divisor * tenths bytes divisor ≤ 20 * bytes + divisor)
      × (20 * bytes < 2 * divisor * tenths bytes divisor + divisor)
unfolding tenths
tenths_near bytes divisor h =
    let x = bytes * 20 + divisor in
    let q = div-add-mod x (2 * divisor) in
    let r = mod-lt x {m = 2 * divisor} (omega arith) in (omega (arith, q, r), omega (arith, q, r))
