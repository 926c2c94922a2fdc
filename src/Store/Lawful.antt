-- ===== src/Store/Lawful.antt =====
-- What holds of each server that the backend writes.
use text.Mathlib.TextEquality.{eq_iff}
use opsup.Prelude.{
  ℕ, ◌≤◌, ◌≡◌, ◌≢◌, refl, String, ◌⊎◌, inl, inr, Bool, true, false, ◌||◌, Option, none, some, [],
  arith, truthy, codes, if◌then◌else◌,
}
use opsup.Prelude.Int.{ℤ, pos, negsuc, pos_part, lt_ℤ}
use opsup.Types.{Protocol, ssh, rdp}
use opsup.Servers.Backend.{
  Valid, ServerRequest, validate, validate_ssh, validate_rdp, protocol_of, default_port, Stored,
  resolve_credentials, resolve_password, resolve_key,
}
use opsup.Store.Records.{Row}
use opsup.Store.Saving.{row_of}

-- The port can be dialled.
abbrev pub IsPort : ℕ → Type 0
IsPort n = (1 ≤ n) × (n ≤ 65535)

-- What a server of each protocol has, and has not.
abbrev pub HasLogin : Row → Type 0
HasLogin s =
    ((s.auth_type ≡ "key") × (truthy s.private_key ≡ true))
    ⊎ ((s.auth_type ≡ "password") × (truthy s.password ≡ true))

abbrev pub FitsProtocol : Protocol → Row → Type 0
FitsProtocol ssh s =
    HasLogin s
    × (s.rdp_domain ≡ "")
    × (s.rdp_cert_fingerprint ≡ [])
    × (s.jump_server_id ≢ some s.id)
FitsProtocol rdp s =
    (s.private_key ≡ "") × (s.password ≡ "") × (s.host_key ≡ []) × (s.jump_server_id ≡ none)

pub record IsLawful (s : Row) : Type 0 where
  pub port : IsPort s.port
  pub fits : FitsProtocol s.protocol s

-- What `validate` lets through.
pub record IsValid (v : Valid) : Type 0 where
  pub port : IsPort v.port
  pub auth : v.protocol ≡ ssh → (v.auth_type ≡ "key") ⊎ (v.auth_type ≡ "password")
  pub domain : v.protocol ≡ ssh → v.rdp_domain ≡ ""
  pub digest : v.protocol ≡ ssh → v.fingerprint ≡ []
  pub host_key : v.protocol ≡ rdp → v.host_key ≡ []
  pub direct : v.protocol ≡ rdp → v.jump_server_id ≡ none

not_truthy : (s : String) → truthy s ≡ false → codes s ≡ []
not_truthy String.[] h = refl
not_truthy (String.◌∷◌ c s) h = absurd (ground (arith, h))

validate_rdp-IsValid :
    (r : ServerRequest) (port : ℕ) (v : Valid)
    → IsPort port
    → validate_rdp r port ≡ inr v
    → IsValid v
unfolding validate_rdp
validate_rdp-IsValid r port v p e = record {
  port = ground (arith, p);
  auth = λ f. ground arith;
  domain = λ f. ground arith;
  digest = λ f. ground arith;
  host_key = λ f. ground (arith, not_truthy r.host_key);
  direct = λ f. ground arith;
}

abbrev auth : ServerRequest → String
auth r = if truthy r.auth_type then r.auth_type else "key"

validate_ssh-IsValid :
    (r : ServerRequest) (port : ℕ) (v : Valid)
    → IsPort port
    → validate_ssh r port ≡ inr v
    → IsValid v
unfolding validate_ssh
validate_ssh-IsValid r port v p e = record {
  port = ground (arith, p);
  auth = λ f. ground (arith, eq_iff (auth r) "key", eq_iff (auth r) "password");
  domain = λ f. ground arith;
  digest = λ f. ground arith;
  host_key = λ f. ground arith;
  direct = λ f. ground arith;
}

-- A port that is neither below 1 nor above 65535.
abbrev pub refused_port : ℤ → Bool
refused_port port = lt_ℤ port (pos 1) || lt_ℤ (pos 65535) port

pos_part-IsPort : (port : ℤ) → refused_port port ≡ false → IsPort (pos_part port)
pos_part-IsPort (pos n) h = (ground arith, ground arith)
pos_part-IsPort (negsuc n) h = absurd (ground arith)

pub validate-IsValid : (r : ServerRequest) (v : Valid) → validate r ≡ inr v → IsValid v
unfolding validate
validate-IsValid r v e = go (protocol_of r.protocol) refl
  where
    checked :
        (p : Protocol)
        → protocol_of r.protocol ≡ some p
        → (b : Bool) → refused_port (default_port p r.port) ≡ b
        → IsValid v
    checked p q true h = absurd (cc (rw (validate, q, h) at e))
    checked ssh q false h =
        validate_ssh-IsValid r (pos_part (default_port ssh r.port)) v
          (pos_part-IsPort (default_port ssh r.port) h) (rw (validate, q, h) at e)
    checked rdp q false h =
        validate_rdp-IsValid r (pos_part (default_port rdp r.port)) v
          (pos_part-IsPort (default_port rdp r.port) h) (rw (validate, q, h) at e)

    go : (o : Option Protocol) → protocol_of r.protocol ≡ o → IsValid v
    go none q = absurd (cc (rw (validate, q) at e))
    go (some p) q = checked p q (refused_port (default_port p r.port)) refl

module _ (encrypt : String → String ⊎ String) (find : ℕ → String ⊎ Option Stored) where
  resolve_password-truthy :
      (text : String) (old s : Stored)
      → resolve_password encrypt find text old ≡ inr s
      → truthy s.password ≡ true
  unfolding resolve_password
  resolve_password-truthy text old s e = ground arith

  resolve_key-truthy :
      (text : String) (copy_from : ℤ) (old s : Stored)
      → resolve_key encrypt find text copy_from old ≡ inr s
      → truthy s.private_key ≡ true
  unfolding resolve_key
  resolve_key-truthy text copy_from old s e = ground arith

-- The credentials that are there before.
abbrev kept : Option Stored → Stored
kept none = record { private_key = ""; password = "" }
kept (some c) = c

-- What is stored for a way to log in.
row_of-HasLogin :
    (encrypt : String → String ⊎ String) (find : ℕ → String ⊎ Option Stored) (r : ServerRequest)
    (v : Valid) (old : Option Stored) (s : Stored) (id : ℕ)
    → v.protocol ≡ ssh
    → (v.auth_type ≡ "key") ⊎ (v.auth_type ≡ "password")
    → resolve_credentials encrypt find v r old ≡ inr s
    → HasLogin (row_of r v s id)
unfolding resolve_credentials row_of
row_of-HasLogin encrypt find r v old s id p (inl k) e =
    inl (
      k,
      resolve_key-truthy encrypt find r.private_key r.copy_key_from (kept old) s (rw (p, k) at e),
    )
row_of-HasLogin encrypt find r v old s id p (inr k) e =
    inr (k, resolve_password-truthy encrypt find r.password (kept old) s (rw (p, k) at e))

-- A desktop has no credentials.
desktop-bare :
    (encrypt : String → String ⊎ String) (find : ℕ → String ⊎ Option Stored) (r : ServerRequest)
    (v : Valid) (old : Option Stored) (s : Stored)
    → v.protocol ≡ rdp
    → resolve_credentials encrypt find v r old ≡ inr s
    → (s.private_key ≡ "") × (s.password ≡ "")
unfolding resolve_credentials
desktop-bare encrypt find r v old s p e = (ground arith, ground arith)

pub row_of-IsLawful :
    (encrypt : String → String ⊎ String) (find : ℕ → String ⊎ Option Stored) (r : ServerRequest)
    (v : Valid) (old : Option Stored) (s : Stored) (id from : ℕ) (made changed : String)
    → IsValid v
    → resolve_credentials encrypt find v r old ≡ inr s
    → v.jump_server_id ≢ some id
    → IsLawful (record (row_of r v s from) { id = id; created_at = made; updated_at = changed })
unfolding row_of
row_of-IsLawful encrypt find r v old s id from made changed w e j = record {
  port = w.port;
  fits = go v.protocol refl;
}
  where
    go :
        (p : Protocol)
        → v.protocol ≡ p
        → FitsProtocol p
            (record (row_of r v s from) { id = id; created_at = made; updated_at = changed })
    go ssh q = (row_of-HasLogin encrypt find r v old s id q (w.auth q) e, w.domain q, w.digest q, j)
    go rdp q =
        let (no_key, no_password) = desktop-bare encrypt find r v old s q e in
        (no_key, no_password, w.host_key q, w.direct q)
