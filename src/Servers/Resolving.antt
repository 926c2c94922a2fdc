-- ===== src/Servers/Resolving.antt =====
-- `resolveCredentials` of internal/api/server_handler.go, branch by branch, for the texts that
-- a form can send.
use opsup.Prelude.{ℕ, suc, ◌≡◌, String, ◌⊎◌, inr, true, Option, none, some, arith, truthy}
use opsup.Prelude.Int.{pos}
use opsup.Servers.Form.{AuthType, key, password}
use opsup.Servers.Backend.{
  Valid, ServerRequest, Stored, nothing_stored, resolve_password, resolve_key, resolve_credentials,
}

-- What `crypto.Encrypt` promises of a text that is not empty: a secret that is not empty.
abbrev pub Encrypts : (String → String ⊎ String) → Type 0
Encrypts encrypt =
    (text : String)
    → truthy text ≡ true
    → (secret : String) × (encrypt text ≡ inr secret) × (truthy secret ≡ true)

-- That a server has a key which can be copied.
abbrev pub HasKey : (ℕ → String ⊎ Option Stored) → Option ℕ → Type 0
HasKey find none = Unit {0}
HasKey find (some id) =
    (source : Stored) × (find id ≡ inr (some source)) × (truthy source.private_key ≡ true)

-- That a stored server has what its way to log in needs.
abbrev pub Holds : AuthType → Stored → Type 0
Holds key s = truthy s.private_key ≡ true
Holds password s = truthy s.password ≡ true

module _ (encrypt : String → String ⊎ String) (find : ℕ → String ⊎ Option Stored) where
  abbrev pub none_yet : Stored
  none_yet = nothing_stored encrypt find

  abbrev pub Resolves : Valid → ServerRequest → Type 0
  Resolves v r = (s : Stored) × (resolve_credentials encrypt find v r none ≡ inr s)

  pub typed_password :
      Encrypts encrypt
      → (text : String) → truthy text ≡ true
      → (s : Stored) × (resolve_password encrypt find text none_yet ≡ inr s)
  unfolding resolve_password
  typed_password enc text h =
      let (secret, e, t) = enc text h in (record none_yet { password = secret }, rw (h, e, t))

  pub pasted_key :
      Encrypts encrypt
      → (text : String) → truthy text ≡ true
      → (s : Stored) × (resolve_key encrypt find text (pos 0) none_yet ≡ inr s)
  unfolding resolve_key
  pasted_key enc text h =
      let (secret, e, t) = enc text h in (record none_yet { private_key = secret }, rw (h, e, t))

  pub copied_key :
      (id : ℕ)
      → HasKey find (some (suc id))
      → (s : Stored) × (resolve_key encrypt find "" (pos (suc id)) none_yet ≡ inr s)
  unfolding resolve_key
  copied_key id (source, e, t) =
      (record none_yet { private_key = source.private_key }, ground (arith, e, t))

  pub kept_password :
      (s : Stored) → truthy s.password ≡ true → resolve_password encrypt find "" s ≡ inr s
  unfolding resolve_password
  kept_password s h = rw h

  pub kept_key :
      (s : Stored) → truthy s.private_key ≡ true → resolve_key encrypt find "" (pos 0) s ≡ inr s
  unfolding resolve_key
  kept_key s h = rw h
