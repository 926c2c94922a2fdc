-- ===== src/Auth/Setup.antt =====
-- The rules of the form in ui/src/pages/SetupPage.tsx, lines 39 to 55, and those of the server that
-- gets its values, internal/api/auth_handler.go, lines 17 to 20 and 43 to 50. A text is the list of its
-- code points, which is what antd and the validator of the server count.
use opsup.Prelude.{
  ℕ, ◌≤◌, ◌≡◌, Bool, true, false, not, ◌&&◌, ◌||◌, List, [], ◌∷◌, ◌==◌, arith, leb, ltb, length,
}
use opsup.Terminal.Frames.{encode}

-- `!value`
abbrev pub is_empty : List ℕ → Bool
is_empty [] = true
is_empty (c ∷ cs) = false

-- `===` on texts.
abbrev pub same_text : List ℕ → List ℕ → Bool
same_text [] [] = true
same_text (x ∷ xs) (y ∷ ys) = (x == y) && same_text xs ys
same_text _ _ = false

-- `required: true, min: 3`
unfoldable pub username_passes : List ℕ → Bool
username_passes text = not (is_empty text) && leb 3 (length text)

-- `required: true, min: 12`, and the validator of the bytes.
unfoldable pub password_passes : List ℕ → Bool
password_passes text =
    (not (is_empty text) && leb 12 (length text))
    && (is_empty text || leb (length (encode text)) 72)

-- `required: true`, and the validator that compares the passwords.
unfoldable pub confirm_passes : List ℕ → List ℕ → Bool
confirm_passes password value = not (is_empty value) && (is_empty value || same_text password value)

unfoldable pub form_passes : List ℕ → List ℕ → List ℕ → Bool
unfolding username_passes password_passes confirm_passes
form_passes username password confirm =
    username_passes username && (password_passes password && confirm_passes password confirm)

-- `setupRequest` and the check of the bytes in `AuthSetup`.
unfoldable pub server_accepts : List ℕ → List ℕ → Bool
server_accepts username password =
    ((not (is_empty username) && leb 3 (length username)) && leb (length username) 64)
    && ((not (is_empty password) && leb 12 (length password))
        && not (ltb 72 (length (encode password))))

-- For a username of at most 64 characters, the form lets through just what the server accepts and was
-- typed with the same password twice.
pub form_passes-server_accepts :
    (username password confirm : List ℕ)
    → length username ≤ 64
    → form_passes username password confirm
      ≡ (server_accepts username password && same_text password confirm)
unfolding form_passes server_accepts
form_passes-server_accepts username [] confirm short = ground arith
form_passes-server_accepts username (p ∷ ps) [] short = ground arith
form_passes-server_accepts username (p ∷ ps) (c ∷ cs) short = ground arith
