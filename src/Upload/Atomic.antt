-- ===== src/Upload/Atomic.antt =====
-- An upload replaces its destination as a whole or leaves it as it is.
use opsup.Prelude.{◌≡◌, ◌≢◌, refl, ◌∙◌, ◌⊎◌, inl, inr, Option, none, some, [], String, if_rule}
use opsup.Upload.Remote.{Node, Lstat, found, not_exist, lstat_fails, Sftp, Keeps, IsMove, IsSftp}
use opsup.Upload.Publish.{
  UploadError, Source, wrap, Kept, kept_of, write_temp, publish, clean_up, publish_fails,
  no_overwrite, check_destination, publish_written, replace, upload,
}
use opsup.Upload.Keeping.{Filled, Keeps-trans, write_temp-Keeps, IsAtomic, IsOutcome}
use opsup.Upload.Filling.{write_temp-done}

module _ {D : Type 0} (s : Sftp D) (w : IsSftp s) (temp : String) where
  -- The renaming, where the temporary file is filled: `move` is one of the two.
  move-IsAtomic :
      (move : D → String → String → Option String × D)
      → IsMove s move
      → (path : String) (kept : Kept) (src : Source) (d e : D) → temp ≢ path
      → Keeps s temp d e
      → src.error ≡ none
      → Filled s kept src.bytes temp e
      → IsAtomic s temp path kept src d
          (clean_up s temp (wrap publish_fails (move e temp path).0, (move e temp path).1))
  unfolding clean_up
  move-IsAtomic move m path kept src d e apart h read (n, (there, good)) =
      go (move e temp path).0 refl
    where
      after : D
      after = (move e temp path).1

      go :
          (o : Option String)
          → (move e temp path).0 ≡ o
          → IsAtomic s temp path kept src d (clean_up s temp (wrap publish_fails o, after))
      go (some error) q =
          Keeps-trans s temp d after (s.remove after temp).1
            (Keeps-trans s temp d e after h (m.undone e temp path error q))
            (w.remove_keeps after temp)
      go none q = (
        (n, (m.done e temp path q apart ∙ there, good)),
        read,
        m.gone e temp path q apart,
        λ p away other. m.others e temp path p q away other ∙ h p away,
      )

  publish-IsAtomic :
      (path : String) (kept : Kept) (src : Source) (d e : D)
      → temp ≢ path
      → Keeps s temp d e
      → src.error ≡ none
      → Filled s kept src.bytes temp e
      → IsAtomic s temp path kept src d (clean_up s temp (publish s temp path e))
  unfolding publish clean_up
  publish-IsAtomic path kept src d e apart h read there =
      if_rule (λ r. IsAtomic s temp path kept src d (clean_up s temp r)) (s.has_posix_rename e) _ _
        (λ _. move-IsAtomic s.posix_rename w.posix_moves path kept src d e apart h read there)
        (λ _. go (s.lstat e path))
    where
      removed : Keeps s temp d (s.remove e temp).1
      removed = Keeps-trans s temp d e (s.remove e temp).1 h (w.remove_keeps e temp)

      go :
          (l : Lstat)
          → IsAtomic s temp path kept src d (
              clean_up s temp (elim l [
                | found n ↦ (some no_overwrite, e)
                | lstat_fails error ↦ (some (check_destination error), e)
                | not_exist ↦
                    (wrap publish_fails (s.rename e temp path).0, (s.rename e temp path).1)
              ]))
      go (found n) = removed
      go (lstat_fails error) = removed
      go not_exist = move-IsAtomic s.rename w.moves path kept src d e apart h read there

  replace-IsAtomic :
      (path : String) (kept : Kept) (src : Source) (d : D)
      → temp ≢ path
      → IsAtomic s temp path kept src d (replace s temp path kept src d)
  unfolding replace publish_written clean_up
  replace-IsAtomic path kept src d apart = go (s.open_new d temp).0 refl
    where
      opened : D
      opened = (s.open_new d temp).1

      written : Option UploadError × D
      written = write_temp s temp kept src opened

      keeps : Keeps s temp d written.1
      keeps =
          Keeps-trans s temp d opened written.1 (w.open_keeps d temp)
            (write_temp-Keeps s w temp kept src opened)

      with_file :
          (n : Node)
          → s.look opened temp ≡ some n
          → n.content ≡ []
          → (o : Option UploadError) → written.0 ≡ o
          → IsAtomic s temp path kept src d
              (clean_up s temp (publish_written s temp path (o, written.1)))
      with_file n there empty (some error) q =
          Keeps-trans s temp d written.1 (s.remove written.1 temp).1 keeps
            (w.remove_keeps written.1 temp)
      with_file n there empty none q =
          let (read, here) = write_temp-done s w temp kept src opened n there empty q in
          publish-IsAtomic path kept src d written.1 apart keeps read here

      go :
          (o : Option String)
          → (s.open_new d temp).0 ≡ o
          → IsAtomic s temp path kept src d (replace s temp path kept src d)
      go (some error) q = rw (replace, q) (w.open_keeps d temp)
      go none q =
          let (n, (there, empty)) = w.opened d temp q in
          rw (replace, q) (with_file n there empty written.0 refl)

  -- Wherever it fails, an upload changes nothing but its temporary file. Where it gives no error, the
  -- destination has all the bytes of the reader, which ended without an error, the mode and the owner of
  -- the file that was there, or mode 0600; the temporary file is gone; and no other file has changed.
  -- The server is one whose operations do what they document, and the temporary name is another one than
  -- the destination's.
  pub upload-IsOutcome :
      (path : String) (src : Source) (d : D)
      → temp ≢ path
      → IsOutcome s temp (kept_of s d path) path src d (upload s (inr temp) path src d)
  unfolding upload
  upload-IsOutcome path src d apart = go (kept_of s d path) refl
    where
      go :
          (o : UploadError ⊎ Kept)
          → kept_of s d path ≡ o
          → IsOutcome s temp o path src d (upload s (inr temp) path src d)
      go (inl error) q = rw (upload, q) refl
      go (inr kept) q = rw (upload, q) (replace-IsAtomic path kept src d apart)
