-- ===== src/Servers/Texts.antt =====
-- The tests and the changes of texts in `validate` of internal/api/server_handler.go, with what they use of
-- Go's strings, hex and base64. A text is the list of its code points.
use opsup.Prelude.{
  ℕ, ◌+◌, ◌*◌, ◌/◌, ◌%◌, Bool, true, false, not, ◌&&◌, ◌||◌, List, [], ◌∷◌, ◌==◌, leb, drop, length,
  if◌then◌else◌,
}
use opsup.Servers.Patterns.{is_base64, is_hex, prefix}

-- `unicode.IsSpace`
abbrev pub is_go_space : ℕ → Bool
is_go_space c =
    (leb 9 c && leb c 13)
    || ((c == 32)
        || ((c == 0x85)
            || ((c == 160)
                || ((c == 0x1680)
                    || ((leb 0x2000 c && leb c 0x200a)
                        || ((c == 0x2028)
                            || ((c == 0x2029)
                                || ((c == 0x202f) || ((c == 0x205f) || (c == 0x3000))))))))))

abbrev pub is_nil : List ℕ → Bool
is_nil [] = true
is_nil (c ∷ cs) = false

-- `strings.TrimSpace`
unfoldable pub drop_spaces : List ℕ → List ℕ
drop_spaces [] = []
drop_spaces (c ∷ cs) = let rest = drop_spaces cs in if is_go_space c then rest else c ∷ cs

unfoldable pub drop_end : List ℕ → List ℕ
drop_end [] = []
drop_end (c ∷ cs) = let rest = drop_end cs in if is_go_space c && is_nil rest then [] else c ∷ rest

unfoldable pub trim_space : List ℕ → List ℕ
unfolding drop_spaces drop_end
trim_space text = drop_end (drop_spaces text)

unfoldable pub without : (ℕ → Bool) → List ℕ → List ℕ
without p [] = []
without p (c ∷ cs) = let rest = without p cs in if p c then rest else c ∷ rest

unfoldable pub all : (ℕ → Bool) → List ℕ → Bool
all p [] = true
all p (c ∷ cs) = p c && all p cs

-- `strings.ToLower` where it matters for hexadecimal digits: on ASCII.
abbrev pub to_lower : ℕ → ℕ
to_lower c = if leb b'A' c && leb c b'Z' then c + 32 else c

unfoldable pub lower_all : List ℕ → List ℕ
lower_all [] = []
lower_all (c ∷ cs) = to_lower c ∷ lower_all cs

-- `strings.HasPrefix(text, start)`
abbrev pub has_prefix : List ℕ → List ℕ → Bool
has_prefix [] text = true
has_prefix (p ∷ ps) [] = false
has_prefix (p ∷ ps) (c ∷ cs) = (c == p) && has_prefix ps cs

-- Whether `base64.RawStdEncoding.DecodeString` gives 32 bytes: it skips line breaks, and a last group
-- of one digit is an error.
abbrev pub is_line_break : ℕ → Bool
is_line_break c = (c == 10) || (c == 13)

unfoldable pub decodes_32 : List ℕ → Bool
decodes_32 text =
    let digits = without is_line_break text in
    let n = length digits in all is_base64 digits && (not (n % 4 == 1) && n * 6 / 8 == 32)

-- The check of the host key, once it is trimmed and not empty.
unfoldable pub is_host_key : List ℕ → Bool
is_host_key text = has_prefix prefix text && decodes_32 (drop 7 text)

-- The fingerprint as it is stored, and the check by `hex.DecodeString`.
unfoldable pub normal_fingerprint : List ℕ → List ℕ
normal_fingerprint text = lower_all (without (λ c. c == b':') (trim_space text))

unfoldable pub is_digest : List ℕ → Bool
is_digest text = all is_hex text && (length text % 2 == 0 && length text / 2 == 32)
