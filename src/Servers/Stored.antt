-- ===== src/Servers/Stored.antt =====
-- From the form's credentials to the stored ones: lines 109 to 136 of ui/src/components/ServerFormModal.tsx
-- meet `resolveCredentials` of internal/api/server_handler.go.
use opsup.Prelude.{ℕ, suc, ◌≡◌, refl, subst, String, ◌⊎◌, inr, true, Option, some, arith, truthy}
use opsup.Types.{ssh}
use opsup.Servers.Form.{
  Modal, Values, AuthType, key, password, new, Credentials, auth_text, or_empty, is_edit,
  credentials_of, record_of,
}
use opsup.Files.Paths.{trim}
use opsup.Servers.Backend.{Valid, ServerRequest, decode, Stored, resolve_credentials}
use opsup.Servers.Resolving.{Holds, kept_password, kept_key}

module _ (encrypt : String → String ⊎ String) (find : ℕ → String ⊎ Option Stored) where
  module _ (m : Modal) (v : Values) (pk : Option String) (c : Credentials) where
    -- What JSON makes of the form's record.
    abbrev request : ServerRequest
    request = decode (record_of trim m v c)

    -- What the tests of a new shell leave: the text that was typed, or the server to copy from.
    abbrev IsTyped : Type 0
    IsTyped = (c.auth_type ≡ password) × (truthy c.password ≡ true)

    abbrev IsPasted : Type 0
    IsPasted = (c.auth_type ≡ key) × (c.copy_key_from ≡ 0) × (truthy c.private_key ≡ true)

    abbrev IsCopied : Type 0
    IsCopied =
        (id : ℕ) × (m.reuse_server_id ≡ some (suc id))
        × (c.auth_type ≡ key)
        × (c.copy_key_from ≡ suc id)
        × (c.private_key ≡ "")

    blank_password :
        is_edit m ≡ true
        → m.protocol ≡ ssh
        → or_empty v.password ≡ ""
        → m.auth_type ≡ password
        → credentials_of m v pk ≡ inr c
        → c.password ≡ ""
    unfolding credentials_of
    blank_password d e empty a q = ground arith

    blank_key :
        is_edit m ≡ true
        → m.protocol ≡ ssh
        → m.key_source ≡ new
        → or_empty pk ≡ ""
        → m.auth_type ≡ key
        → credentials_of m v pk ≡ inr c
        → (c.private_key ≡ "") × (c.copy_key_from ≡ 0)
    unfolding credentials_of
    blank_key d e k blank a q = (ground arith, ground arith)

    -- Editing a shell whose fields for a password and for a key are left empty, and no server's key is
    -- chosen: for a valid request of the form's protocol and way to log in, `resolveCredentials` gives
    -- the stored credentials as they are, where they hold what that way to log in needs.
    pub blank_edit-resolve_credentials :
        (current : Stored)
        → is_edit m ≡ true
        → m.protocol ≡ ssh
        → m.key_source ≡ new
        → or_empty v.password ≡ ""
        → or_empty pk ≡ ""
        → Holds m.auth_type current
        → (valid : Valid) → valid.protocol ≡ m.protocol
        → valid.auth_type ≡ auth_text m.auth_type
        → credentials_of m v pk ≡ inr c
        → resolve_credentials encrypt find valid request (some current) ≡ inr current
    unfolding resolve_credentials record_of
    blank_edit-resolve_credentials current d e k empty blank held valid p a q = go m.auth_type refl
      where
        go :
            (x : AuthType)
            → m.auth_type ≡ x
            → resolve_credentials encrypt find valid request (some current) ≡ inr current
        go password x = rw (
          p,
          e,
          a,
          x,
          blank_password d e empty x q,
          kept_password encrypt find current (subst (λ y. Holds y current) x held),
        )
        go key x =
            let (no_key, no_copy) = blank_key d e k blank x q in
            rw (
              p,
              e,
              a,
              x,
              no_key,
              no_copy,
              kept_key encrypt find current (subst (λ y. Holds y current) x held),
            )
