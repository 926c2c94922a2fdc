-- ===== src/Servers/HostKeys.antt =====
-- A host key on its way from the form of ui/src/components/ServerFormModal.tsx, which trims it, to
-- internal/api/server_handler.go, which trims it again.
use Prim.Native.Char.{code}
use opsup.Prelude.{
  ℕ, zero, suc, ◌≡◌, refl, sym, ◌∙◌, String, ◌⊎◌, inl, inr, true, not, ◌&&◌, List, [], ◌∷◌, arith,
  leb, codes, Bool-cases, &&_parts, ==_iff, All, All-append,
}
use opsup.Files.Paths.{is_space, trim_start, trim_end, trim}
use opsup.Servers.Patterns.{
  Class, fits, literally, times, is_base64, prefix, host_key_pattern, passes,
}
use opsup.Servers.Texts.{is_go_space, is_nil, trim_space, all, is_line_break, is_host_key}
use opsup.Servers.Contract.{host_key_pattern-is_host_key}
use opsup.Servers.Fingerprints.{all_mono, trim_space-none}

abbrev is_printable : Class
is_printable c = leb 33 c && leb c 126

-- Each class of a pattern is within another class.
abbrev Within : Class → List Class → Type 0
Within q ks = All (λ (k : Class). (c : ℕ) → k c ≡ true → q c ≡ true) ks

fits-Within :
    (q : Class) (ks : List Class) (text : List ℕ)
    → Within q ks
    → fits ks text ≡ true
    → all q text ≡ true
unfolding all
fits-Within q [] [] w h = refl
fits-Within q (k ∷ ks) (c ∷ cs) w h =
    let (here, rest) = &&_parts (k c) (fits ks cs) h in
    rw (w.0 c here) (fits-Within q ks cs w.1 rest)
fits-Within q [] (c ∷ cs) w h = absurd (cc h)
fits-Within q (k ∷ ks) [] w h = absurd (cc h)

Within-times :
    (q : Class) (n : ℕ) (k : Class) → ((c : ℕ) → k c ≡ true → q c ≡ true) → Within q (times n k)
Within-times q zero k h = tt
Within-times q (suc n) k h = (h, Within-times q n k h)

Within-literally : (q : Class) (start : List ℕ) → all q start ≡ true → Within q (literally start)
unfolding all
Within-literally q [] h = tt
Within-literally q (a ∷ rest) h =
    let (here, more) = &&_parts (q a) (all q rest) h in
    ((λ c e. rw ((==_iff c a).0 e) here), Within-literally q rest more)

base64_printable : (c : ℕ) → is_base64 c ≡ true → is_printable c ≡ true
unfolding is_base64
base64_printable c h = ground arith

prefix_printable : all is_printable prefix ≡ true
unfolding all
prefix_printable = refl

host_key_printable :
    (text : List ℕ) → fits host_key_pattern text ≡ true → all is_printable text ≡ true
host_key_printable text h =
    fits-Within is_printable host_key_pattern text
      (All-append (λ (k : Class). (c : ℕ) → k c ≡ true → is_printable c ≡ true) (literally prefix)
        (times 43 is_base64) (Within-literally is_printable prefix prefix_printable)
        (Within-times is_printable 43 is_base64 base64_printable))
      h

printable_not_space : (c : ℕ) → is_printable c ≡ true → not (is_space c) ≡ true
printable_not_space c h = ground arith

printable_not_go_space : (c : ℕ) → is_printable c ≡ true → not (is_go_space c) ≡ true
printable_not_go_space c h = ground arith

printable_not_break : (c : ℕ) → is_printable c ≡ true → not (is_line_break c) ≡ true
printable_not_break c h = ground arith

trim_end-none : (s : String) → all (λ c. not (is_space c)) (codes s) ≡ true → trim_end s ≡ s
unfolding trim_end all
trim_end-none String.[] h = refl
trim_end-none (String.◌∷◌ c s) h =
    let (here, rest) =
      &&_parts (not (is_space (code c))) (all (λ d. not (is_space d)) (codes s)) h in
    elim (Bool-cases (is_space (code c))) [
      | inl e ↦ absurd (cc (here, e))
      | inr e ↦ rw (e, trim_end-none s rest)
    ]

trim-none : (s : String) → all (λ c. not (is_space c)) (codes s) ≡ true → trim s ≡ s
unfolding trim trim_start all
trim-none String.[] h = refl
trim-none (String.◌∷◌ c s) h =
    let (here, rest) =
      &&_parts (not (is_space (code c))) (all (λ d. not (is_space d)) (codes s)) h in
    elim (Bool-cases (is_space (code c))) [
      | inl e ↦ absurd (cc (here, e))
      | inr e ↦ rw e (trim_end-none (String.◌∷◌ c s) h)
    ]

-- A host key that passed its rule is empty for the server, or one that it takes.
abbrev pub IsTaken : List ℕ → Type 0
IsTaken text = (is_nil text ≡ true) ⊎ (is_host_key text ≡ true)

pub host_key-IsTaken :
    (s : String)
    → passes (fits host_key_pattern) (codes s) ≡ true
    → IsTaken (trim_space (codes (trim s)))
unfolding trim_space trim trim_start trim_end
host_key-IsTaken String.[] h = inl refl
host_key-IsTaken (String.◌∷◌ c s) h =
    let text = codes (String.◌∷◌ c s) in
    let printable = host_key_printable text h in
    let same =
      trim-none (String.◌∷◌ c s)
        (all_mono is_printable (λ d. not (is_space d)) text printable_not_space printable) in
    let kept =
      trim_space-none text
        (all_mono is_printable (λ d. not (is_go_space d)) text printable_not_go_space printable) in
    inr (
      rw (same, kept)
        (sym (
            host_key_pattern-is_host_key text (
              all_mono is_printable (λ d. not (is_line_break d)) text printable_not_break
                printable))
          ∙ h))
