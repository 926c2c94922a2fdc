-- ===== src/Store/Requests.antt =====
-- Any requests that change the table, one after another: create, update and delete with their errors.
use opsup.Prelude.{
  ℕ, zero, suc, ◌≡◌, refl, String, ◌⊎◌, inl, inr, Option, none, some, List, [], ◌∷◌,
}
use opsup.Servers.Backend.{Valid, ServerRequest, validate, Stored}
use opsup.Store.Records.{Row, Table}
use opsup.Store.Saving.{
  Response, Faults, get_server, stored, to_stored, check_jump, row_of, id_of, commit, resolve,
  write, create, update, delete,
}
use opsup.Store.Lawful.{IsValid, validate-IsValid, row_of-IsLawful}
use opsup.Store.Sound.{
  IsSound, updated-apart, created-apart, check_jump-IsKnownJump, create_server-IsSound,
  update_server-IsSound, delete_server-IsSound,
}

-- The requests that change the table, each with what fails, the time, and what gin makes of it.
pub data Request : Type 0 where
  creates : Faults → String → String ⊎ ServerRequest → Request
  updates : Faults → String → Option ℕ → String ⊎ ServerRequest → Request
  deletes : Option String → Option ℕ → Request

module _ (encrypt : String → String ⊎ String) where
  unfoldable pub serve : Request → Table → Response × Table
  unfolding create update delete
  serve (creates f now r) t = create encrypt f now r t
  serve (updates f now id r) t = update encrypt f now id r t
  serve (deletes fault id) t = delete fault id t

  unfoldable pub run : List Request → Table → Table
  run [] t = t
  run (q ∷ qs) t = run qs (serve q t).1

  committed-IsSound :
      (f : Faults) (now : String) (r : ServerRequest) (v : Valid) (s : Stored)
      (current : Option Row) (t : Table)
      → IsValid v
      → check_jump f (id_of current) v.jump_server_id t ≡ inr tt
      → resolve encrypt f r v current t ≡ inr s
      → IsSound t
      → (fault : Option String) → f.write ≡ fault
      → IsSound (commit f now (row_of r v s (id_of current)) current t).1
  unfolding resolve commit row_of
  committed-IsSound f now r v s current t w h e n (some error) q = rw q n
  committed-IsSound f now r v s none t w h e n none q =
      let find : ℕ → String ⊎ Option Stored = λ j. to_stored (get_server f.get_source j t) in
      rw q (
        create_server-IsSound (row_of r v s 0) now t
          (row_of-IsLawful encrypt find r v none s (suc t.last_id) 0 now now w e
            (created-apart f v.jump_server_id t n h))
          (check_jump-IsKnownJump f v.jump_server_id t 0 n h) n)
  committed-IsSound f now r v s (some c) t w h e n none q =
      let find : ℕ → String ⊎ Option Stored = λ j. to_stored (get_server f.get_source j t) in
      rw q (
        update_server-IsSound (row_of r v s c.id) now t
          (λ made.
            row_of-IsLawful encrypt find r v (some (stored c)) s c.id c.id made now w e
              (updated-apart f v.jump_server_id t c.id h))
          (check_jump-IsKnownJump f v.jump_server_id t c.id n h) n)

  write-IsSound :
      (f : Faults) (now : String) (r : ServerRequest) (v : Valid) (current : Option Row) (t : Table)
      → IsValid v
      → IsSound t
      → IsSound (write encrypt f now r v current t).1
  unfolding write
  write-IsSound f now r v current t w n =
      jump_checked (check_jump f (id_of current) v.jump_server_id t) refl
    where
      resolved :
          (o : String ⊎ Stored)
          → check_jump f (id_of current) v.jump_server_id t ≡ inr tt
          → resolve encrypt f r v current t ≡ o
          → IsSound (write encrypt f now r v current t).1
      resolved (inl error) h e = rw (write, h, e) n
      resolved (inr s) h e =
          rw (write, h, e) (committed-IsSound f now r v s current t w h e n f.write refl)

      jump_checked :
          (o : String ⊎ Unit {0})
          → check_jump f (id_of current) v.jump_server_id t ≡ o
          → IsSound (write encrypt f now r v current t).1
      jump_checked (inl error) h = rw (write, h) n
      jump_checked (inr u) h = resolved (resolve encrypt f r v current t) h refl

  create-IsSound :
      (f : Faults) (now : String) (r : String ⊎ ServerRequest) (t : Table)
      → IsSound t
      → IsSound (create encrypt f now r t).1
  unfolding create
  create-IsSound f now (inl error) t n = n
  create-IsSound f now (inr r) t n = go (validate r) refl
    where
      go : (o : String ⊎ Valid) → validate r ≡ o → IsSound (create encrypt f now (inr r) t).1
      go (inl error) e = rw (create, e) n
      go (inr v) e = rw (create, e) (write-IsSound f now r v none t (validate-IsValid r v e) n)

  update-IsSound :
      (f : Faults) (now : String) (param : Option ℕ) (r : String ⊎ ServerRequest) (t : Table)
      → IsSound t
      → IsSound (update encrypt f now param r t).1
  unfolding update
  update-IsSound f now param (inl error) t n = n
  update-IsSound f now param (inr r) t n = validated (validate r) refl param
    where
      looked_up :
          (v : Valid) (k : ℕ)
          → validate r ≡ inr v
          → (o : String ⊎ Option Row) → get_server f.get_current (suc k) t ≡ o
          → IsSound (update encrypt f now (some (suc k)) (inr r) t).1
      looked_up v k e (inl error) g = rw (update, e, g) n
      looked_up v k e (inr none) g = rw (update, e, g) n
      looked_up v k e (inr (some c)) g =
          rw (update, e, g) (write-IsSound f now r v (some c) t (validate-IsValid r v e) n)

      validated :
          (o : String ⊎ Valid)
          → validate r ≡ o
          → (id : Option ℕ) → IsSound (update encrypt f now id (inr r) t).1
      validated (inl error) e id = rw (update, e) n
      validated (inr v) e none = rw (update, e) n
      validated (inr v) e (some zero) = rw (update, e) n
      validated (inr v) e (some (suc k)) = looked_up v k e (get_server f.get_current (suc k) t) refl

  delete-IsSound :
      (fault : Option String) (id : Option ℕ) (t : Table)
      → IsSound t
      → IsSound (delete fault id t).1
  unfolding delete
  delete-IsSound fault none t n = n
  delete-IsSound fault (some zero) t n = n
  delete-IsSound none (some (suc k)) t n = delete_server-IsSound (suc k) t n
  delete-IsSound (some error) (some (suc k)) t n = n

  serve-IsSound : (q : Request) (t : Table) → IsSound t → IsSound (serve q t).1
  unfolding serve
  serve-IsSound (creates f now r) t n = create-IsSound f now r t n
  serve-IsSound (updates f now id r) t n = update-IsSound f now id r t n
  serve-IsSound (deletes fault id) t n = delete-IsSound fault id t n

  -- After any requests to create, update or delete, with any texts and integers in their fields and
  -- whatever fails in them: each server of the table has a port from 1 to 65535; an SSH server logs in
  -- with a key or a password that it has, has no domain and no fingerprint of a desktop, and does not
  -- name itself as its jump server; a desktop has no credentials, no host key and no jump server; the ids
  -- are all different; and they and the ids of the jump servers were all given before. The table is one
  -- for which this held before, like the empty one.
  pub run-IsSound : (qs : List Request) (t : Table) → IsSound t → IsSound (run qs t)
  unfolding run
  run-IsSound [] t n = n
  run-IsSound (q ∷ qs) t n = run-IsSound qs (serve q t).1 (serve-IsSound q t n)
