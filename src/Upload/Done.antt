-- ===== src/Upload/Done.antt =====
-- An upload to a server that answers works.
use opsup.Prelude.{ℕ, ◌≡◌, none, List, String, true}
use opsup.Upload.Remote.{Sftp}

-- No operation fails.
pub record IsUp {D : Type 0} (s : Sftp D) : Type 0 where
  pub open_new : (d : D) (p : String) → (s.open_new d p).0 ≡ none
  pub chmod : (d : D) (p : String) (m : ℕ) → (s.chmod d p m).0 ≡ none
  pub chown : (d : D) (p : String) (o : ℕ × ℕ) → (s.chown d p o).0 ≡ none
  pub write : (d : D) (p : String) (bs : List ℕ) → (s.write d p bs).0 ≡ none
  pub close : (d : D) (p : String) → (s.close d p).0 ≡ none
  pub posix_rename : (d : D) (a b : String) → (s.posix_rename d a b).0 ≡ none
  pub has_posix_rename : (d : D) → s.has_posix_rename d ≡ true
