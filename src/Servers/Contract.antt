-- ===== src/Servers/Contract.antt =====
-- The form of ui/src/components/ServerFormModal.tsx keeps the contract of
-- internal/api/server_handler.go.
use opsup.Prelude.{
  ℕ, zero, suc, ◌*◌, ◌/◌, ◌%◌, ◌≡◌, refl, ◌∙◌, Bool, true, not, ◌&&◌, List, [], ◌∷◌, ◌++◌, ◌==◌,
  arith, drop, length,
}
use opsup.Servers.Patterns.{Class, fits, literally, times, is_base64, prefix, host_key_pattern}
use opsup.Servers.Texts.{without, all, has_prefix, is_line_break, decodes_32, is_host_key}

-- A text of one class.
pub fits-times :
    (n : ℕ) (k : Class) (text : List ℕ) → fits (times n k) text ≡ (all k text && (length text == n))
unfolding all
fits-times zero k [] = refl
fits-times zero k (c ∷ cs) = ground arith
fits-times (suc n) k [] = ground arith
fits-times (suc n) k (c ∷ cs) = ground (arith, fits-times n k cs)

-- A text in front of a pattern.
fits-literally :
    (start : List ℕ) (ks : List Class) (text : List ℕ)
    → fits (literally start ++ ks) text
      ≡ (has_prefix start text && fits ks (drop (length start) text))
fits-literally [] ks text = refl
fits-literally (p ∷ ps) ks [] = refl
fits-literally (p ∷ ps) ks (c ∷ cs) = ground (arith, fits-literally ps ks cs)

pub without-none :
    (p : ℕ → Bool) (text : List ℕ) → all (λ c. not (p c)) text ≡ true → without p text ≡ text
unfolding without all
without-none p [] h = refl
without-none p (c ∷ cs) h = ground (arith, without-none p cs)

all-drop : (p : ℕ → Bool) (n : ℕ) (text : List ℕ) → all p text ≡ true → all p (drop n text) ≡ true
unfolding all
all-drop p zero text h = h
all-drop p (suc n) [] h = refl
all-drop p (suc n) (c ∷ cs) h = all-drop p n cs (ground arith)

-- 43 digits are 32 bytes, and no other number of digits is.
digits_of_32 : (n : ℕ) → (n == 43) ≡ (not (n % 4 == 1) && n * 6 / 8 == 32)
digits_of_32 n = ground arith

-- For every text without a line break, the form's pattern of a host key and the server's check of it
-- by its prefix and by decoding it agree.
pub host_key_pattern-is_host_key :
    (text : List ℕ)
    → all (λ c. not (is_line_break c)) text ≡ true
    → fits host_key_pattern text ≡ is_host_key text
unfolding is_host_key decodes_32
host_key_pattern-is_host_key text h =
    let digits = drop 7 text in
    fits-literally prefix (times 43 is_base64) text
    ∙ rw (
      fits-times 43 is_base64 digits,
      without-none is_line_break digits (all-drop (λ c. not (is_line_break c)) 7 text h),
      digits_of_32 (length digits),
    )
