-- ===== src/Store/Rows.antt =====
-- The rows of the table: their ids, and what every row keeps.
use opsup.Prelude.{
  ℕ, ◌≡◌, ◌≢◌, refl, ap, subst, String, some, List, [], ◌∷◌, ◌++◌, ◌==◌, arith, All, All-append,
  Bool-cases, inl, inr, if_rule,
}
use opsup.Store.Records.{Row, find_row, replace_row, remove_row}

unfoldable pub ids : List Row → List ℕ
ids [] = []
ids (s ∷ rows) = s.id ∷ ids rows

abbrev pub Distinct : List ℕ → Type 0
Distinct [] = Unit
Distinct (n ∷ ns) = All (λ m. m ≢ n) ns × Distinct ns

pub ids-append : (rows more : List Row) → ids (rows ++ more) ≡ ids rows ++ ids more
unfolding ids
ids-append [] more = refl
ids-append (s ∷ rows) more = ap (◌∷◌ s.id) (ids-append rows more)

pub Distinct-concat :
    (ns : List ℕ) (n : ℕ) → Distinct ns → All (λ m. m ≢ n) ns → Distinct (ns ++ n ∷ [])
Distinct-concat [] n d a = (tt, tt)
Distinct-concat (m ∷ ns) n d a =
    (All-append (λ k. k ≢ m) ns (n ∷ []) d.0 ((λ e. a.0 (cc e)), tt), Distinct-concat ns n d.1 a.1)

pub replace_row-ids :
    (s : Row) (now : String) (rows : List Row) → ids (replace_row s now rows) ≡ ids rows
unfolding ids replace_row
replace_row-ids s now [] = refl
replace_row-ids s now (old ∷ rows) = ground (arith, replace_row-ids s now rows)

-- A property of rows that does not ask for the two times.
module _ (P : Row → Type 0) where
  pub replace_row-All :
      (s : Row) (now : String) (rows : List Row)
      → ((made : String) → P (record s { created_at = made; updated_at = now }))
      → All P rows
      → All P (replace_row s now rows)
  unfolding replace_row
  replace_row-All s now [] h a = tt
  replace_row-All s now (old ∷ rows) h a = (
    if_rule P (old.id == s.id) _ _ (λ _. h old.created_at) (λ _. a.0),
    replace_row-All s now rows h a.1,
  )

  pub remove_row-All : (id : ℕ) (rows : List Row) → All P rows → All P (remove_row id rows)
  unfolding remove_row
  remove_row-All id [] a = tt
  remove_row-All id (s ∷ rows) a =
      let rest = remove_row-All id rows a.1 in
      if_rule (All P) (s.id == id) _ _ (λ _. rest) (λ _. (a.0, rest))

  pub find_row-All :
      (id : ℕ) (rows : List Row) (s : Row) → find_row id rows ≡ some s → All P rows → P s
  unfolding find_row
  find_row-All id [] s e a = absurd (cc e)
  find_row-All id (u ∷ rows) s e a = elim (Bool-cases (u.id == id)) [
    | inl here ↦ subst P (cc (rw here at e)) a.0
    | inr on ↦ find_row-All id rows s (rw on at e) a.1
  ]

-- A property of ids.
module _ (P : ℕ → Type 0) where
  pub remove_row-ids :
      (id : ℕ) (rows : List Row) → All P (ids rows) → All P (ids (remove_row id rows))
  unfolding ids remove_row
  remove_row-ids id [] a = tt
  remove_row-ids id (s ∷ rows) a =
      let rest = remove_row-ids id rows a.1 in
      if_rule (λ x. All P (ids x)) (s.id == id) _ _ (λ _. rest) (λ _. (a.0, rest))

  pub find_row-ids :
      (id : ℕ) (rows : List Row) (s : Row) → find_row id rows ≡ some s → All P (ids rows) → P id
  unfolding ids find_row
  find_row-ids id [] s e a = absurd (cc e)
  find_row-ids id (u ∷ rows) s e a = elim (Bool-cases (u.id == id)) [
    | inl here ↦ subst P (ground (arith, here)) a.0
    | inr on ↦ find_row-ids id rows s (rw on at e) a.1
  ]

pub remove_row-Distinct :
    (id : ℕ) (rows : List Row) → Distinct (ids rows) → Distinct (ids (remove_row id rows))
unfolding ids remove_row
remove_row-Distinct id [] d = tt
remove_row-Distinct id (s ∷ rows) d =
    let rest = remove_row-Distinct id rows d.1 in
    if_rule (λ x. Distinct (ids x)) (s.id == id) _ _ (λ _. rest)
      (λ _. (remove_row-ids (λ m. m ≢ s.id) id rows d.0, rest))

pub find_row-id : (id : ℕ) (rows : List Row) (s : Row) → find_row id rows ≡ some s → s.id ≡ id
unfolding find_row
find_row-id id [] s e = absurd (cc e)
find_row-id id (u ∷ rows) s e = ground (arith, find_row-id id rows s)

-- A row with a new id is found behind the others.
pub find_row-append :
    (id : ℕ) (rows : List Row) (s : Row)
    → s.id ≡ id
    → All (λ m. m ≢ id) (ids rows)
    → find_row id (rows ++ s ∷ []) ≡ some s
unfolding ids find_row
find_row-append id [] s e a = ground (arith, e)
find_row-append id (u ∷ rows) s e a = ground (arith, find_row-append id rows s e a.1, a.0)
