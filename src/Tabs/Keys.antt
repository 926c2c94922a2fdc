-- ===== src/Tabs/Keys.antt =====
-- The keys of ui/src/pages/MainPage.tsx, line 42, tell the servers apart.
use opsup.Prelude.{ℕ, ◌≤◌, ◌≡◌, refl, sym, ap, ◌∙◌, ◌↔◌, true, List, [], ◌∷◌, ◌++◌, arith, All}
use opsup.Prelude.Decimal.{decimal, decimal-digits, read_digits, read_digits-decimal}
use opsup.Tabs.Workspace.{key_eq, make_key}

pub key_eq_iff : (xs ys : List ℕ) → (key_eq xs ys ≡ true) ↔ (xs ≡ ys)
key_eq_iff [] [] = (λ _. refl, λ _. refl)
key_eq_iff [] (y ∷ ys) = (λ e. cc e, λ e. cc e)
key_eq_iff (x ∷ xs) [] = (λ e. cc e, λ e. cc e)
key_eq_iff (x ∷ xs) (y ∷ ys) =
    (λ e. ground (arith, (key_eq_iff xs ys).0), λ e. ground (arith, (key_eq_iff xs ys).1))

-- Two rows of digits before a dash are the same if the whole is.
digits_before_dash :
    (xs ys rs ss : List ℕ)
    → All (λ d. b'0' ≤ d) xs
    → All (λ d. b'0' ≤ d) ys
    → xs ++ (b'-' ∷ rs) ≡ ys ++ (b'-' ∷ ss)
    → xs ≡ ys
digits_before_dash [] [] rs ss h k e = refl
digits_before_dash [] (y ∷ ys) rs ss h k e = absurd (ground (arith, k.0))
digits_before_dash (x ∷ xs) [] rs ss h k e = absurd (ground (arith, h.0))
digits_before_dash (x ∷ xs) (y ∷ ys) rs ss h k e =
    ground (arith, digits_before_dash xs ys rs ss h.1 k.1)

-- Tabs with one key belong to one server, whenever they were opened.
pub make_key-injective : (i j m n : ℕ) → make_key i m ≡ make_key j n → i ≡ j
unfolding make_key
make_key-injective i j m n e =
    let same =
      digits_before_dash (decimal i) (decimal j) (decimal m) (decimal n) (decimal-digits i)
        (decimal-digits j) e in
    sym (read_digits-decimal i) ∙ ap (read_digits 0) same ∙ read_digits-decimal j
