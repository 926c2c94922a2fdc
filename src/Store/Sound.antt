-- ===== src/Store/Sound.antt =====
-- What holds of the table of servers after any requests.
use opsup.Prelude.{
  ℕ, suc, ◌≤◌, ◌≡◌, ◌≢◌, refl, String, inl, inr, Option, none, some, [], ◌∷◌, ◌==◌, arith, All,
  All-append, All-weaken, Bool-cases,
}
use opsup.Store.Records.{Row, Table, find_row, create_server, update_server, delete_server}
use opsup.Store.Saving.{Faults, check_jump}
use opsup.Store.Rows.{
  ids, Distinct, ids-append, Distinct-concat, replace_row-ids, replace_row-All, remove_row-All,
  remove_row-ids, find_row-ids, remove_row-Distinct,
}
use opsup.Store.Lawful.{IsLawful}

-- The id was given to a server.
abbrev pub IsKnown : ℕ → ℕ → Type 0
IsKnown last n = (1 ≤ n) × (n ≤ last)

-- A jump server that is named was given its id.
abbrev pub IsKnownJump : ℕ → Option ℕ → Type 0
IsKnownJump last none = Unit
IsKnownJump last (some j) = IsKnown last j

abbrev IsLinked : ℕ → Row → Type 0
IsLinked last s = IsKnownJump last s.jump_server_id

later : (last : ℕ) (o : Option ℕ) → IsKnownJump last o → IsKnownJump (suc last) o
later last none k = tt
later last (some j) k = (k.0, omega (arith, k.1))

pub record IsSound (t : Table) : Type 0 where
  pub lawful : All IsLawful t.rows
  pub known : All (IsKnown t.last_id) (ids t.rows)
  pub apart : Distinct (ids t.rows)
  pub linked : All (IsLinked t.last_id) t.rows

-- A jump server that is let through is another server, and is in the table.
check_jump-passes :
    (f : Faults) (id j : ℕ) (t : Table)
    → check_jump f id (some j) t ≡ inr tt
    → (j ≢ id) × ((s : Row) × (find_row j t.rows ≡ some s))
unfolding check_jump
check_jump-passes f id j t h = elim (Bool-cases (j == id)) [
  | inl same ↦ absurd (ground (arith, same, h))
  | inr other ↦ (ground (arith, other), go f.get_jump refl (find_row j t.rows) refl)
]
  where
    go :
        (g : Option String)
        → f.get_jump ≡ g
        → (o : Option Row) → find_row j t.rows ≡ o
        → (s : Row) × (find_row j t.rows ≡ some s)
    go (some error) e o q = absurd (ground (arith, e, h))
    go none e none q = absurd (ground (arith, e, q, h))
    go none e (some s) q = (s, q)

-- So the server that is written does not jump through itself.
module _ (f : Faults) (o : Option ℕ) (t : Table) where
  pub updated-apart : (id : ℕ) → check_jump f id o t ≡ inr tt → o ≢ some id
  updated-apart id h e = (check_jump-passes f id id t (rw e at h)).0 refl

  pub created-apart : IsSound t → check_jump f 0 o t ≡ inr tt → o ≢ some (suc t.last_id)
  created-apart v h e =
      let (s, found) = (check_jump-passes f 0 (suc t.last_id) t (rw e at h)).1 in
      let known = find_row-ids (IsKnown t.last_id) (suc t.last_id) t.rows s found v.known in
      omega (arith, known.1)

  pub check_jump-IsKnownJump :
      (id : ℕ) → IsSound t → check_jump f id o t ≡ inr tt → IsKnownJump t.last_id o
  check_jump-IsKnownJump id v h = go o refl
    where
      go : (x : Option ℕ) → o ≡ x → IsKnownJump t.last_id x
      go none e = tt
      go (some j) e =
          let (s, found) = (check_jump-passes f id j t (rw e at h)).1 in
          find_row-ids (IsKnown t.last_id) j t.rows s found v.known

pub create_server-IsSound :
    (s : Row) (now : String) (t : Table)
    → IsLawful (record s { id = suc t.last_id; created_at = now; updated_at = now })
    → IsKnownJump t.last_id s.jump_server_id
    → IsSound t
    → IsSound (create_server s now t).1
unfolding create_server ids
create_server-IsSound s now t w k v =
    let id = suc t.last_id in
    let added = record s { id = id; created_at = now; updated_at = now } ∷ [] in
    record {
      lawful = All-append IsLawful t.rows added v.lawful (w, tt);
      known = rw (ids-append t.rows added) (
          All-append (IsKnown id) (ids t.rows) (id ∷ [])
            (All-weaken (IsKnown t.last_id) (IsKnown id) (ids t.rows)
              (λ n k. (k.0, omega (arith, k.1))) v.known)
            ((omega arith, omega arith), tt));
      apart = rw (ids-append t.rows added) (
          Distinct-concat (ids t.rows) id v.apart (
            All-weaken (IsKnown t.last_id) (λ m. m ≢ id) (ids t.rows) (λ n k. omega (arith, k.1))
              v.known));
      linked =
          All-append (IsLinked id) t.rows added
            (All-weaken (IsLinked t.last_id) (IsLinked id) t.rows
              (λ u. later t.last_id u.jump_server_id) v.linked)
            (later t.last_id s.jump_server_id k, tt);
    }

pub update_server-IsSound :
    (s : Row) (now : String) (t : Table)
    → ((made : String) → IsLawful (record s { created_at = made; updated_at = now }))
    → IsKnownJump t.last_id s.jump_server_id
    → IsSound t
    → IsSound (update_server s now t)
unfolding update_server
update_server-IsSound s now t w k v = record {
  lawful = replace_row-All IsLawful s now t.rows w v.lawful;
  known = rw (replace_row-ids s now t.rows) v.known;
  apart = rw (replace_row-ids s now t.rows) v.apart;
  linked = replace_row-All (IsLinked t.last_id) s now t.rows (λ _. k) v.linked;
}

pub delete_server-IsSound : (id : ℕ) (t : Table) → IsSound t → IsSound (delete_server id t)
unfolding delete_server
delete_server-IsSound id t v = record {
  lawful = remove_row-All IsLawful id t.rows v.lawful;
  known = remove_row-ids (IsKnown t.last_id) id t.rows v.known;
  apart = remove_row-Distinct id t.rows v.apart;
  linked = remove_row-All (IsLinked t.last_id) id t.rows v.linked;
}
