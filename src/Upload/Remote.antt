-- ===== src/Upload/Remote.antt =====
-- What internal/sftpclient/client.go uses of the SFTP library and the file server behind it, and what
-- it relies on.
use opsup.Prelude.{ℕ, ◌≡◌, ◌≢◌, Option, none, some, List, [], ◌++◌, String, Bool}

-- What `Lstat` tells of a file, with its bytes; `owner` is of the library's `FileStat`.
pub record Node : Type 0 where
  pub regular : Bool
  pub mode : ℕ
  pub owner : Option (ℕ × ℕ)
  pub content : List ℕ

pub data Lstat : Type 0 where
  found : Node → Lstat
  not_exist : Lstat
  lstat_fails : String → Lstat

-- An operation gives its error, and what the server has then, also where it fails. `look` is what is
-- there under a path. A file that is open is named by its path.
pub record Sftp (D : Type 0) : Type 0 where
  pub look : D → String → Option Node
  pub lstat : D → String → Lstat
  pub open_new : D → String → Option String × D
  pub chmod : D → String → ℕ → Option String × D
  pub chown : D → String → ℕ × ℕ → Option String × D
  pub write : D → String → List ℕ → Option String × D
  pub close : D → String → Option String × D
  pub remove : D → String → Option String × D
  pub rename : D → String → String → Option String × D
  pub posix_rename : D → String → String → Option String × D
  pub has_posix_rename : D → Bool

-- Only what is under this path may have changed.
abbrev pub Keeps : {D : Type 0} → Sftp D → String → D → D → Type 0
Keeps s path d e = (p : String) → p ≢ path → s.look e p ≡ s.look d p

-- A renaming that works moves the file, and one that fails leaves what was at its target.
pub record IsMove {D : Type 0} (s : Sftp D) (move : D → String → String → Option String × D)
    : Type 0 where
  pub done :
      (d : D) (a b : String) → (move d a b).0 ≡ none → a ≢ b → s.look (move d a b).1 b ≡ s.look d a
  pub gone : (d : D) (a b : String) → (move d a b).0 ≡ none → a ≢ b → s.look (move d a b).1 a ≡ none
  pub others :
      (d : D) (a b p : String)
      → (move d a b).0 ≡ none
      → p ≢ a
      → p ≢ b
      → s.look (move d a b).1 p ≡ s.look d p
  pub undone :
      (d : D) (a b error : String) → (move d a b).0 ≡ some error → Keeps s a d (move d a b).1

-- What the operations on one file do, and that they leave the others alone.
pub record IsSftp {D : Type 0} (s : Sftp D) : Type 0 where
  pub open_keeps : (d : D) (p : String) → Keeps s p d (s.open_new d p).1
  pub chmod_keeps : (d : D) (p : String) (m : ℕ) → Keeps s p d (s.chmod d p m).1
  pub chown_keeps : (d : D) (p : String) (o : ℕ × ℕ) → Keeps s p d (s.chown d p o).1
  pub write_keeps : (d : D) (p : String) (bs : List ℕ) → Keeps s p d (s.write d p bs).1
  pub close_keeps : (d : D) (p : String) → Keeps s p d (s.close d p).1
  pub remove_keeps : (d : D) (p : String) → Keeps s p d (s.remove d p).1
  pub opened :
      (d : D) (p : String)
      → (s.open_new d p).0 ≡ none
      → (n : Node) × ((s.look (s.open_new d p).1 p ≡ some n) × (n.content ≡ []))
  pub chmods :
      (d : D) (p : String) (m : ℕ) (n : Node)
      → (s.chmod d p m).0 ≡ none
      → s.look d p ≡ some n
      → s.look (s.chmod d p m).1 p ≡ some (record n { mode = m })
  pub chowns :
      (d : D) (p : String) (o : ℕ × ℕ) (n : Node)
      → (s.chown d p o).0 ≡ none
      → s.look d p ≡ some n
      → s.look (s.chown d p o).1 p ≡ some (record n { owner = some o })
  pub writes :
      (d : D) (p : String) (bs : List ℕ) (n : Node)
      → (s.write d p bs).0 ≡ none
      → s.look d p ≡ some n
      → s.look (s.write d p bs).1 p ≡ some (record n { content = n.content ++ bs })
  pub closes : (d : D) (p : String) → (s.close d p).0 ≡ none → s.look (s.close d p).1 p ≡ s.look d p
  pub moves : IsMove s s.rename
  pub posix_moves : IsMove s s.posix_rename
