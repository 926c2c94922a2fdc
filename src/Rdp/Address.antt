-- ===== src/Rdp/Address.antt =====
-- The destination of ui/src/rdp/client.ts, read as an address: a host, in brackets or without a colon,
-- and a port.
use opsup.Prelude.{
  ℕ, ◌≡◌, ◌≢◌, refl, ap, ◌∙◌, false, List, [], ◌∷◌, ◌++◌, ◌==◌, arith, All, All-weaken, any,
  append_assoc, codes, if_rule, if◌then◌else◌,
}
use opsup.Prelude.Decimal.{decimal, read_digits, read_digits-decimal}
use opsup.Types.{Server}
use opsup.Rdp.Client.{Call, connects, destination}
use opsup.Rdp.Target.{GoesTo}

-- The text before the first of a character, and what follows it.
abbrev pub cut : ℕ → List ℕ → List ℕ × List ℕ
cut mark [] = ([], [])
cut mark (c ∷ cs) =
    let (before, behind) = cut mark cs in if c == mark then ([], cs) else (c ∷ before, behind)

abbrev pub read_plain : List ℕ → List ℕ × ℕ
read_plain text = let (host, port) = cut b':' text in (host, read_digits 0 port)

abbrev pub read_bracketed : List ℕ → List ℕ × ℕ
read_bracketed text = let (host, more) = cut b']' text in (host, read_digits 0 (cut b':' more).1)

-- The host and the port of an address.
abbrev pub read_address : List ℕ → List ℕ × ℕ
read_address [] = ([], 0)
read_address (c ∷ cs) = if c == b'[' then read_bracketed cs else read_plain (c ∷ cs)

-- The text has no bracket.
abbrev pub IsPlain : List ℕ → Type 0
IsPlain text = All (λ c. (c ≢ b'[') × (c ≢ b']')) text

cut-append :
    (mark : ℕ) (xs ys : List ℕ) → All (λ c. c ≢ mark) xs → cut mark (xs ++ mark ∷ ys) ≡ (xs, ys)
cut-append mark [] ys h = ground arith
cut-append mark (x ∷ xs) ys h = ground (arith, h.0, cut-append mark xs ys h.1)

any_colon : (xs : List ℕ) → any (◌==◌ b':') xs ≡ false → All (λ c. c ≢ b':') xs
any_colon [] h = tt
any_colon (x ∷ xs) h = (ground (arith, h), any_colon xs (ground (arith, h)))

read_plain-eq :
    (host : List ℕ) (port : ℕ)
    → All (λ c. c ≢ b':') host
    → read_plain (host ++ b':' ∷ decimal port) ≡ (host, port)
read_plain-eq host port h =
    rw (cut-append b':' host (decimal port) h, read_digits-decimal port) refl

read_address-plain :
    (host : List ℕ) (port : ℕ)
    → IsPlain host
    → All (λ c. c ≢ b':') host
    → read_address (host ++ b':' ∷ decimal port) ≡ (host, port)
read_address-plain [] port p h = read_plain-eq [] port h
read_address-plain (x ∷ xs) port p h = ground (arith, p.0.0, read_plain-eq (x ∷ xs) port h)

read_address-bracketed :
    (host : List ℕ) (port : ℕ)
    → IsPlain host
    → read_address ((b'[' ∷ host ++ b']' ∷ []) ++ b':' ∷ decimal port) ≡ (host, port)
read_address-bracketed host port p =
    let closed : All (λ c. c ≢ b']') host =
      All-weaken (λ c. (c ≢ b'[') × (c ≢ b']')) (λ c. c ≢ b']') host (λ c e. e.1) p in
    rw
      (
        append_assoc host (b']' ∷ []) (b':' ∷ decimal port),
        cut-append b']' host (b':' ∷ decimal port) closed,
        read_digits-decimal port,
      )
      refl

read_address-destination :
    (s : Server) → IsPlain (codes s.host) → read_address (destination s) ≡ (codes s.host, s.port)
unfolding destination
read_address-destination s p =
    if_rule (λ host. read_address (host ++ b':' ∷ decimal s.port) ≡ (codes s.host, s.port))
      (any (◌==◌ b':') (codes s.host)) _ _ (λ _. read_address-bracketed (codes s.host) s.port p)
      (λ none. read_address-plain (codes s.host) s.port p (any_colon (codes s.host) none))

-- A call to connect asks for the server by its id, and its destination reads as the server's host and
-- port.
abbrev pub Reaches : Server → Call → Type 0
Reaches s (connects c) =
    (c.server_id ≡ s.id) × (read_address c.destination ≡ (codes s.host, s.port))
Reaches s _ = Unit

pub GoesTo-Reaches : (s : Server) → IsPlain (codes s.host) → (c : Call) → GoesTo s c → Reaches s c
GoesTo-Reaches s p (connects c) h = (h.0, ap read_address h.1 ∙ read_address-destination s p)
GoesTo-Reaches s p _ h = tt
