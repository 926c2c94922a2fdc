-- ===== src/Store/Answers.antt =====
-- Which requests the backend takes: `validate` and `saveServer` of internal/api/server_handler.go, by the
-- status of the answer.
use text.Mathlib.TextEquality.{eq_iff}
use opsup.Prelude.{
  ℕ, zero, suc, ◌≤◌, ◌≡◌, refl, String, ◌⊎◌, inl, inr, Bool, true, false, Option, none, some, arith,
}
use opsup.Prelude.Int.{ℤ, pos, negsuc, lt_ℤ}
use opsup.Types.{Protocol, ssh, rdp}
use opsup.Servers.Backend.{
  Valid, ServerRequest, validate, validate_ssh, validate_rdp, protocol_of, default_port,
}
use opsup.Store.Lawful.{refused_port}
use opsup.Store.Records.{Table}
use opsup.Store.Saving.{Faults, create, update}

-- What a request may say of the jump server, and of the port, where 0 is the default one.
abbrev IsJump : Option ℤ → Type 0
IsJump none = Unit
IsJump (some j) = (n : ℕ) × (j ≡ pos (suc n))

abbrev IsOffered : ℤ → Type 0
IsOffered port = (n : ℕ) × (port ≡ pos n) × (n ≤ 65535)

abbrev IsProtocol : String → Type 0
IsProtocol text = (text ≡ "") ⊎ ((text ≡ "ssh") ⊎ (text ≡ "rdp"))

pub record IsProper (r : ServerRequest) : Type 0 where
  pub protocol : IsProtocol r.protocol
  pub port : IsOffered r.port
  pub jump : IsJump r.jump_server_id

protocol_of-IsProtocol :
    (text : String) (p : Protocol) → protocol_of text ≡ some p → IsProtocol text
unfolding protocol_of
protocol_of-IsProtocol String.[] p e = inl refl
protocol_of-IsProtocol (String.◌∷◌ c s) p e =
    let text = String.◌∷◌ c s in ground (arith, e, eq_iff text "ssh", eq_iff text "rdp")

default_port-IsOffered :
    (p : Protocol) (port : ℤ) → refused_port (default_port p port) ≡ false → IsOffered port
default_port-IsOffered p (pos zero) h = (0, refl, omega arith)
default_port-IsOffered p (pos (suc n)) h = (suc n, refl, ground arith)
default_port-IsOffered p (negsuc n) h = absurd (ground arith)

positive : (j : ℤ) → lt_ℤ (pos 0) j ≡ true → (n : ℕ) × (j ≡ pos (suc n))
positive (pos zero) h = absurd (ground arith)
positive (pos (suc n)) h = (n, refl)
positive (negsuc n) h = absurd (ground arith)

validate_ssh-IsJump :
    (r : ServerRequest) (port : ℕ) (v : Valid)
    → validate_ssh r port ≡ inr v
    → IsJump r.jump_server_id
unfolding validate_ssh
validate_ssh-IsJump r port v e = go r.jump_server_id refl
  where
    go : (o : Option ℤ) → r.jump_server_id ≡ o → IsJump o
    go none q = tt
    go (some j) q = positive j (ground arith)

validate_rdp-IsJump :
    (r : ServerRequest) (port : ℕ) (v : Valid)
    → validate_rdp r port ≡ inr v
    → IsJump r.jump_server_id
unfolding validate_rdp
validate_rdp-IsJump r port v e = go r.jump_server_id refl
  where
    go : (o : Option ℤ) → r.jump_server_id ≡ o → IsJump o
    go none q = tt
    go (some j) q = absurd (ground arith)

validate-IsProper : (r : ServerRequest) (v : Valid) → validate r ≡ inr v → IsProper r
unfolding validate
validate-IsProper r v e = go (protocol_of r.protocol) refl
  where
    taken :
        (p : Protocol)
        → protocol_of r.protocol ≡ some p
        → refused_port (default_port p r.port) ≡ false
        → IsJump r.jump_server_id
        → IsProper r
    taken p q h j = record {
      protocol = protocol_of-IsProtocol r.protocol p q;
      port = default_port-IsOffered p r.port h;
      jump = j;
    }

    checked :
        (p : Protocol)
        → protocol_of r.protocol ≡ some p
        → (b : Bool) → refused_port (default_port p r.port) ≡ b
        → IsProper r
    checked p q true h = absurd (cc (rw (validate, q, h) at e))
    checked ssh q false h = taken ssh q h (validate_ssh-IsJump r _ v (rw (validate, q, h) at e))
    checked rdp q false h = taken rdp q h (validate_rdp-IsJump r _ v (rw (validate, q, h) at e))

    go : (o : Option Protocol) → protocol_of r.protocol ≡ o → IsProper r
    go none q = absurd (cc (rw (validate, q) at e))
    go (some p) q = checked p q (refused_port (default_port p r.port)) refl

-- A request to create that is answered with 201, or one to update that is answered with 200, whatever its
-- texts and integers: its protocol is empty, "ssh" or "rdp", its port is from 0 to 65535, and the id of a
-- jump server that it names is positive.
pub saved-IsProper :
    (encrypt : String → String ⊎ String) (f : Faults) (now : String) (param : Option ℕ)
    (r : ServerRequest) (t : Table)
    → ((create encrypt f now (inr r) t).0.status ≡ 201)
      ⊎ ((update encrypt f now param (inr r) t).0.status ≡ 200)
    → IsProper r
unfolding create update
saved-IsProper encrypt f now param r t h = go (validate r) refl h
  where
    go :
        (o : String ⊎ Valid)
        → validate r ≡ o
        → ((create encrypt f now (inr r) t).0.status ≡ 201)
          ⊎ ((update encrypt f now param (inr r) t).0.status ≡ 200)
        → IsProper r
    go (inr v) e h = validate-IsProper r v e
    go (inl error) e (inl h) = absurd (omega (arith, rw (create, e) at h))
    go (inl error) e (inr h) = absurd (omega (arith, rw (update, e) at h))
