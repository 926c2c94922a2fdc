-- ===== src/Store/RoundTrip.antt =====
-- From the form to the connection: what is typed for a new server is encrypted, saved, read again,
-- decrypted, and dialled.
use opsup.Prelude.{
  ℕ, suc, ◌≡◌, ◌≢◌, refl, String, ◌⊎◌, inl, inr, true, none, some, List, truthy, arith, All-weaken,
}
use opsup.Types.{ssh}
use opsup.Servers.Backend.{
  Valid, ServerRequest, validate, Stored, resolve_credentials, resolve_password, resolve_key,
}
use opsup.Store.Records.{Row, Table, find_row, create_server}
use opsup.Store.Saving.{Faults, check_jump, row_of, commit, resolve, write, create}
use opsup.Store.Rows.{ids, find_row-append}
use opsup.Store.Sound.{IsSound, IsKnown}
use opsup.Store.Secrets.{Library, IsLibrary, CryptoError, encrypt, decrypt, decrypt-encrypt}
use opsup.Store.Dialing.{
  Method, by_password, by_key, Hop, direct, key_bytes, password_text, connection_config,
  make_method, make_config, dial, dial_server,
}

-- The row that a new server gets.
abbrev saved : ServerRequest → Valid → Stored → String → Table → Row
saved r v s now t = record (row_of r v s 0) {
  id = suc t.last_id;
  created_at = now;
  updated_at = now;
}

module _ (enc : String → String ⊎ String) where
  -- A new server without a jump server, whose credentials are resolved, is written.
  create-saved :
      (f : Faults) (now : String) (r : ServerRequest) (v : Valid) (s : Stored) (t : Table)
      → validate r ≡ inr v
      → v.jump_server_id ≡ none
      → resolve enc f r v none t ≡ inr s
      → f.write ≡ none
      → ((create enc f now (inr r) t).0.status ≡ 201)
        × ((create enc f now (inr r) t).1 ≡ (create_server (row_of r v s 0) now t).1)
  unfolding create write check_jump commit create_server
  create-saved f now r v s t e j c g = (ground (arith, e, j, c, g), ground (arith, e, j, c, g))

  created-found :
      (now : String) (r : ServerRequest) (v : Valid) (s : Stored) (t : Table)
      → IsSound t
      → find_row (suc t.last_id) (create_server (row_of r v s 0) now t).1.rows
        ≡ some (saved r v s now t)
  unfolding create_server row_of
  created-found now r v s t n = find_row-append (suc t.last_id) t.rows (saved r v s now t) refl (
      All-weaken (IsKnown t.last_id) (λ m. m ≢ suc t.last_id) (ids t.rows)
        (λ m k. omega (arith, k.1)) n.known)

-- What the form says of the connection: the texts of the fields, the port and the host key that
-- `validate` leaves, and the method.
abbrev wanted : {K : Type 0} → ServerRequest → Valid → Method K → Hop K
wanted r v m = record {
  host = r.host;
  port = v.port;
  user = r.username;
  method = m;
  pin = v.host_key;
}

-- The encryption that the handler gives to `resolveCredentials`, and the decryption of `connectionConfig`.
abbrev pub enc_of :
    {B G : Type 0}
    → Library B G
    → (ℕ → String ⊎ List ℕ)
    → String
    → (String → List ℕ)
    → (CryptoError → String)
    → String
    → String ⊎ String
enc_of lib random key bytes show secret = elim (encrypt lib random (bytes secret) key) [
  | inl error ↦ inl (show error)
  | inr ciphertext ↦ inr ciphertext
]

abbrev pub dec_of : {B G : Type 0} → Library B G → String → String → CryptoError ⊎ List ℕ
dec_of lib key ciphertext = decrypt lib ciphertext key

module _ {B G K : Type 0} (lib : Library B G) (random : ℕ → String ⊎ List ℕ) (key : String)
    (bytes : String → List ℕ) (text : List ℕ → String) (show : CryptoError → String)
    (parse : List ℕ → String ⊎ K) where
  -- What is typed to log in, its ciphertext, and the method that it makes; Go's conversions between a
  -- string and its bytes give a password back.
  pub data Login (r : ServerRequest) (v : Valid) (m : Method K) : Type 0 where
    typed_password :
        (c : String)
        → v.auth_type ≡ "password"
        → truthy r.password ≡ true
        → encrypt lib random (bytes r.password) key ≡ inr c
        → truthy c ≡ true
        → text (bytes r.password) ≡ r.password
        → m ≡ by_password r.password
        → Login r v m
    typed_key :
        (c : String) (signer : K)
        → v.auth_type ≡ "key"
        → truthy r.private_key ≡ true
        → encrypt lib random (bytes r.private_key) key ≡ inr c
        → truthy c ≡ true
        → parse (bytes r.private_key) ≡ inr signer
        → m ≡ by_key signer
        → Login r v m

  ciphertexts : (r : ServerRequest) (v : Valid) (m : Method K) → Login r v m → Stored
  ciphertexts r v m (typed_password c a b d e q g) = record { private_key = ""; password = c }
  ciphertexts r v m (typed_key c signer a b d e g h) = record { private_key = c; password = "" }

  Login-resolve :
      (f : Faults) (r : ServerRequest) (v : Valid) (m : Method K) (t : Table) (l : Login r v m)
      → v.protocol ≡ ssh
      → resolve (enc_of lib random key bytes show) f r v none t ≡ inr (ciphertexts r v m l)
  unfolding resolve resolve_credentials resolve_password resolve_key ciphertexts
  Login-resolve f r v m t (typed_password c a b d e q g) p = rw (p, a, b, d, e) refl
  Login-resolve f r v m t (typed_key c signer a b d e g h) p = rw (p, a, b, d, e) refl

  module _ (w : IsLibrary lib random) where
    Login-dial :
        (now : String) (r : ServerRequest) (v : Valid) (m : Method K) (t u : Table)
        (l : Login r v m)
        → v.protocol ≡ ssh
        → v.jump_server_id ≡ none
        → dial_server
            (dec_of lib key)
            text
            parse
            none
            none
            none
            u
            (some (saved r v (ciphertexts r v m l) now t))
          ≡ inr (direct (wanted r v m))
    unfolding dial_server connection_config key_bytes password_text dial make_config make_method
        row_of ciphertexts
    Login-dial now r v m t u (typed_password c a b d e q g) p j =
        let opened = decrypt-encrypt lib random w (bytes r.password) key c d in
        rw (p, e, opened, j, q, a, dial, b, g) refl
    Login-dial now r v m t u (typed_key c signer a b d e g h) p j =
        let opened = decrypt-encrypt lib random w (bytes r.private_key) key c d in
        rw (p, e, opened, j, a, g, h) refl

    -- A new SSH server without a jump server is saved, and what the form has to log in is encrypted, by a
    -- library that opens what it seals: the answer is 201, and what is found under the new id is dialled
    -- directly, with the host, the user and the secret as typed and the port and the host key that
    -- `validate` left.
    pub create-dial_server :
        (f : Faults) (now : String) (r : ServerRequest) (v : Valid) (m : Method K) (t : Table)
        → IsSound t
        → validate r ≡ inr v
        → v.protocol ≡ ssh
        → v.jump_server_id ≡ none
        → Login r v m
        → f.write ≡ none
        → let (answer, after) = create (enc_of lib random key bytes show) f now (inr r) t in
          (answer.status ≡ 201)
          × (dial_server
                (dec_of lib key)
                text
                parse
                none
                none
                none
                after
                (find_row (suc t.last_id) after.rows)
              ≡ inr (direct (wanted r v m)))
    create-dial_server f now r v m t n e p j l g =
        let s = ciphertexts r v m l in
        let (status, after) =
          create-saved (enc_of lib random key bytes show) f now r v s t e j
            (Login-resolve f r v m t l p) g in
        (
          status,
          rw (after, created-found (enc_of lib random key bytes show) now r v s t n)
              (Login-dial now r v m t (create_server (row_of r v s 0) now t).1 l p j),
        )
