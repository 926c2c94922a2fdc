-- ===== src/Servers/Patterns.antt =====
-- The rules of the fields in ui/src/components/ServerFormModal.tsx, lines 175 to 210, with the pattern
-- of ui/src/utils/hostKey.ts. A pattern without a variable part is the list of the classes of its
-- characters; a text is the list of its code points.
use opsup.Prelude.{
  ℕ, zero, suc, Bool, true, false, ◌&&◌, ◌||◌, List, [], ◌∷◌, ◌++◌, ◌==◌, leb, codes, truthy,
}
use opsup.Types.{ssh, rdp}
use opsup.Servers.Form.{Modal, Values, or_empty}

abbrev pub Class : Type 0
Class = ℕ → Bool

-- `/^…$/.test(text)`
abbrev pub fits : List Class → List ℕ → Bool
fits [] [] = true
fits [] (c ∷ cs) = false
fits (k ∷ ks) [] = false
fits (k ∷ ks) (c ∷ cs) = k c && fits ks cs

-- A text that stands for itself, and `{n}`.
abbrev pub literally : List ℕ → List Class
literally [] = []
literally (a ∷ rest) = (λ c. c == a) ∷ literally rest

abbrev pub times : ℕ → Class → List Class
times zero k = []
times (suc n) k = k ∷ times n k

-- `[A-Za-z0-9+/]` and `[a-fA-F0-9]`
unfoldable pub is_base64 : Class
is_base64 c =
    (leb b'A' c && leb c b'Z')
    || ((leb b'a' c && leb c b'z') || ((leb b'0' c && leb c b'9') || ((c == b'+') || (c == b'/'))))

unfoldable pub is_hex : Class
is_hex c = (leb b'a' c && leb c b'f') || ((leb b'A' c && leb c b'F') || (leb b'0' c && leb c b'9'))

abbrev pub prefix : List ℕ
prefix = codes "SHA256:"

-- `/^SHA256:[A-Za-z0-9+/]{43}$/`
abbrev pub host_key_pattern : List Class
host_key_pattern = literally prefix ++ times 43 is_base64

-- `(?:[a-fA-F0-9]{2}:){n}[a-fA-F0-9]{2}`
abbrev pub pairs : ℕ → List Class
pairs zero = is_hex ∷ is_hex ∷ []
pairs (suc n) = is_hex ∷ is_hex ∷ (λ c. c == b':') ∷ pairs n

-- `/^(?:[a-fA-F0-9]{64}|(?:[a-fA-F0-9]{2}:){31}[a-fA-F0-9]{2})$/`
abbrev pub is_fingerprint : List ℕ → Bool
is_fingerprint text = fits (times 64 is_hex) text || fits (pairs 31) text

-- A rule with a pattern lets an empty field pass.
abbrev pub passes : (List ℕ → Bool) → List ℕ → Bool
passes test [] = true
passes test (c ∷ cs) = test (c ∷ cs)

-- The rules of the fields that are on the page.
unfoldable pub rules_pass : Modal → Values → Bool
rules_pass m v = (truthy v.name && (truthy v.host && truthy v.username)) && elim m.protocol [
  | ssh ↦ passes (fits host_key_pattern) (codes (or_empty v.host_key))
  | rdp ↦ passes is_fingerprint (codes (or_empty v.rdp_cert_fingerprint))
]
