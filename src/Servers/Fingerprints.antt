-- ===== src/Servers/Fingerprints.antt =====
-- The pattern of a certificate's fingerprint in ui/src/components/ServerFormModal.tsx, line 203, and the
-- form in which internal/api/server_handler.go stores and checks it.
use opsup.Prelude.{
  ℕ, zero, suc, ◌+◌, ◌*◌, ◌≡◌, refl, sym, ◌∙◌, true, not, ◌&&◌, ◌||◌, List, [], ◌∷◌, ◌==◌, arith,
  length, Bool-cases, &&_parts, ==_iff, inl, inr,
}
use opsup.Servers.Patterns.{Class, fits, times, is_hex, pairs, is_fingerprint}
use opsup.Servers.Texts.{
  is_go_space, drop_spaces, drop_end, trim_space, without, all, to_lower, lower_all,
  normal_fingerprint, is_digest,
}
use opsup.Servers.Contract.{fits-times, without-none}

abbrev is_colon : Class
is_colon c = c == b':'

abbrev is_digit_or_colon : Class
is_digit_or_colon c = is_hex c || is_colon c

pub all_mono :
    (p q : Class) (text : List ℕ)
    → ((c : ℕ) → p c ≡ true → q c ≡ true)
    → all p text ≡ true
    → all q text ≡ true
unfolding all
all_mono p q [] imp h = refl
all_mono p q (c ∷ cs) imp h = ground (arith, imp c, all_mono p q cs imp)

-- Trimming leaves a text without spaces.
pub trim_space-none :
    (text : List ℕ) → all (λ c. not (is_go_space c)) text ≡ true → trim_space text ≡ text
unfolding trim_space all
trim_space-none text h = rw (starts text h) (ends text h)
  where
    starts : (t : List ℕ) → all (λ c. not (is_go_space c)) t ≡ true → drop_spaces t ≡ t
    starts [] k = refl
    starts (c ∷ cs) k = elim (Bool-cases (is_go_space c)) [
      | inl e ↦ absurd (ground (arith, e))
      | inr e ↦ rw e
    ]

    ends : (t : List ℕ) → all (λ c. not (is_go_space c)) t ≡ true → drop_end t ≡ t
    ends [] k = refl
    ends (c ∷ cs) k = elim (Bool-cases (is_go_space c)) [
      | inl e ↦ absurd (ground (arith, e))
      | inr e ↦ rw (e, ends cs (ground (arith, e)))
    ]

hex_or_colon_not_space : (c : ℕ) → is_digit_or_colon c ≡ true → not (is_go_space c) ≡ true
unfolding is_hex
hex_or_colon_not_space c h = ground arith

hex_not_colon : (c : ℕ) → is_hex c ≡ true → not (is_colon c) ≡ true
unfolding is_hex
hex_not_colon c h = ground arith

to_lower-is_hex : (c : ℕ) → is_hex c ≡ true → is_hex (to_lower c) ≡ true
unfolding is_hex
to_lower-is_hex c h = ground arith

lower_all-is_hex : (text : List ℕ) → all is_hex text ≡ true → all is_hex (lower_all text) ≡ true
unfolding lower_all all
lower_all-is_hex [] h = refl
lower_all-is_hex (c ∷ cs) h = ground (arith, to_lower-is_hex c, lower_all-is_hex cs)

length-lower_all : (text : List ℕ) → length (lower_all text) ≡ length text
unfolding lower_all
length-lower_all [] = refl
length-lower_all (c ∷ cs) = omega (arith, length-lower_all cs)

fits-pairs-all :
    (n : ℕ) (text : List ℕ) → fits (pairs n) text ≡ true → all is_digit_or_colon text ≡ true
unfolding all
fits-pairs-all zero (a ∷ b ∷ []) h = ground arith
fits-pairs-all (suc n) (a ∷ b ∷ c ∷ cs) h = ground (arith, fits-pairs-all n cs)
fits-pairs-all n text h = ground arith

without-pairs :
    (n : ℕ) (text : List ℕ)
    → fits (pairs n) text ≡ true
    → (all is_hex (without is_colon text) ≡ true) × (length (without is_colon text) ≡ 2 * (n + 1))
unfolding all without
without-pairs zero (a ∷ b ∷ []) h = ground (arith, hex_not_colon a, hex_not_colon b)
without-pairs (suc n) (a ∷ b ∷ c ∷ cs) h =
    ground (arith, hex_not_colon a, hex_not_colon b, without-pairs n cs)
without-pairs n text h = ground arith

abbrev IsClean : List ℕ → Type 0
IsClean t = (all is_hex t ≡ true) × (length t ≡ 64)

fits-IsClean :
    (text : List ℕ)
    → is_fingerprint text ≡ true
    → IsClean (without is_colon text) × (all is_digit_or_colon text ≡ true)
fits-IsClean text h = elim (Bool-cases (fits (times 64 is_hex) text)) [
  | inl plain ↦
      let both : (all is_hex text && (length text == 64)) ≡ true =
        sym (fits-times 64 is_hex text) ∙ plain in
      let (hex, counted) = &&_parts (all is_hex text) (length text == 64) both in
      let size : length text ≡ 64 = (==_iff (length text) 64).0 counted in
      let same : without is_colon text ≡ text =
        without-none is_colon text
          (all_mono is_hex (λ c. not (is_colon c)) text hex_not_colon hex) in
      (rw same (hex, size), all_mono is_hex is_digit_or_colon text (λ c k. rw k refl) hex)
  | inr other ↦
      let colons : fits (pairs 31) text ≡ true = rw other at h in
      (without-pairs 31 text colons, fits-pairs-all 31 text colons)
]

-- Each fingerprint that the form's pattern fits is, as the server stores it without colons and in lower
-- case, one that the server takes for a digest of 32 bytes.
pub is_fingerprint-is_digest :
    (text : List ℕ) → is_fingerprint text ≡ true → is_digest (normal_fingerprint text) ≡ true
unfolding is_digest normal_fingerprint
is_fingerprint-is_digest text h =
    let ((hex, size), clean) = fits-IsClean text h in
    let digits = without is_colon text in
    rw (
      trim_space-none text
          (all_mono is_digit_or_colon (λ c. not (is_go_space c)) text hex_or_colon_not_space clean),
      lower_all-is_hex digits hex,
      length-lower_all digits,
      size,
    )
