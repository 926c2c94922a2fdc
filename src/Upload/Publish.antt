-- ===== src/Upload/Publish.antt =====
-- internal/sftpclient/client.go, lines 53 to 118: `Upload`, for a name that the random bytes gave to the
-- temporary file. An error is the step that failed with the library's text.
use opsup.Prelude.{◌%◌, ℕ, ◌⊎◌, inl, inr, Option, none, some, List, String, if◌then◌else◌}
use opsup.Upload.Remote.{found, not_exist, lstat_fails, Sftp}

pub data UploadError : Type 0 where
  not_regular no_overwrite : UploadError
  check_destination random create_temporary secure_temporary upload_fails close_fails
        publish_fails :
      String → UploadError

-- The reader of the upload: its bytes, and the error that it ends with.
pub record Source : Type 0 where
  pub bytes : List ℕ
  pub error : Option String

-- `if err == nil { err = … }`
abbrev pub and_then : {D : Type 0} → Option String × D → (D → Option String × D) → Option String × D
and_then (some error, d) next = (some error, d)
and_then (none, d) next = next d

-- A step's error in the caller's words.
abbrev pub wrap : (String → UploadError) → Option String → Option UploadError
wrap f none = none
wrap f (some error) = some (f error)

-- What the new file takes from the one that it replaces: its permission bits, which are `Perm()`, and its
-- owner; `0600` where there is none.
abbrev pub Kept : Type 0
Kept = ℕ × Option (ℕ × ℕ)

module _ {D : Type 0} (s : Sftp D) where
  -- The check of the destination.
  unfoldable pub kept_of : D → String → UploadError ⊎ Kept
  kept_of d path = elim (s.lstat d path) [
    | found n ↦ if n.regular then inr (n.mode % 512, n.owner) else inl not_regular
    | not_exist ↦ inr (384, none)
    | lstat_fails error ↦ inl (check_destination error)
  ]

  -- `io.Copy(dst, src)`
  unfoldable pub copy : String → Source → D → Option String × D
  copy temp src d = and_then (s.write d temp src.bytes) (λ e. (src.error, e))

  unfoldable pub chown_back : String → Option (ℕ × ℕ) → D → Option String × D
  chown_back temp none d = (none, d)
  chown_back temp (some owner) d = s.chown d temp owner

  -- The bytes, the owner and the mode.
  unfoldable pub fill : String → Kept → Source → D → Option String × D
  unfolding copy chown_back
  fill temp (mode, owner) src d =
      and_then (and_then (copy temp src d) (chown_back temp owner)) (λ e. s.chmod e temp mode)

  -- From the closing on: the file is closed whatever `fill` gave, whose error comes first.
  unfoldable pub close_file : String → Option String × D → Option UploadError × D
  close_file temp (some error, d) = (some (upload_fails error), (s.close d temp).1)
  close_file temp (none, d) = (wrap close_fails (s.close d temp).0, (s.close d temp).1)

  -- From `dst.Chmod(0600)` to the closing.
  unfoldable pub write_temp : String → Kept → Source → D → Option UploadError × D
  unfolding fill close_file
  write_temp temp kept src d =
      let (fault, e) = s.chmod d temp 384 in
      elim fault [
        | some error ↦ (some (secure_temporary error), (s.close e temp).1)
        | none ↦ close_file temp (fill temp kept src e)
      ]

  -- The renaming.
  unfoldable pub publish : String → String → D → Option UploadError × D
  publish temp path d =
      if s.has_posix_rename d
      then (let (fault, e) = s.posix_rename d temp path in (wrap publish_fails fault, e))
      else elim (s.lstat d path) [
        | found n ↦ (some no_overwrite, d)
        | lstat_fails error ↦ (some (check_destination error), d)
        | not_exist ↦ let (fault, e) = s.rename d temp path in (wrap publish_fails fault, e)
      ]

  -- The deferred removal.
  unfoldable pub clean_up : String → Option UploadError × D → Option UploadError × D
  clean_up temp (none, d) = (none, d)
  clean_up temp (some error, d) = (some error, (s.remove d temp).1)

  -- What is written is published.
  unfoldable pub publish_written : String → String → Option UploadError × D → Option UploadError × D
  unfolding publish
  publish_written temp path (some error, d) = (some error, d)
  publish_written temp path (none, d) = publish temp path d

  -- From the opening of the temporary file on.
  unfoldable pub replace : String → String → Kept → Source → D → Option UploadError × D
  unfolding write_temp publish_written clean_up
  replace temp path kept src d =
      let (fault, e) = s.open_new d temp in
      elim fault [
        | some error ↦ (some (create_temporary error), e)
        | none ↦ clean_up temp (publish_written temp path (write_temp temp kept src e))
      ]

  -- `Upload(remotePath, src)`; the name of the temporary file, in the destination's directory, is made
  -- of random bytes, or there is the error of their source.
  unfoldable pub upload : String ⊎ String → String → Source → D → Option UploadError × D
  unfolding kept_of replace
  upload name path src d = elim (kept_of d path) [
    | inl error ↦ (some error, d)
    | inr kept ↦ elim name [
      | inl error ↦ (some (random error), d)
      | inr temp ↦ replace temp path kept src d
    ]
  ]
