-- ===== src/Upload/Keeping.antt =====
-- What each part of `Upload` may change: nothing but the temporary file.
use opsup.Prelude.{ℕ, ◌≡◌, ◌≢◌, refl, ◌∙◌, ◌⊎◌, inl, inr, Option, none, some, List, String}
use opsup.Upload.Remote.{Node, Sftp, Keeps, IsSftp}
use opsup.Upload.Publish.{
  UploadError, Source, and_then, wrap, Kept, copy, chown_back, fill, close_file, write_temp,
}

-- The file has the bytes, the mode and the owner that it should.
pub record IsFilled (kept : Kept) (bytes : List ℕ) (n : Node) : Type 0 where
  pub content : n.content ≡ bytes
  pub mode : n.mode ≡ kept.0
  pub owner : (o : ℕ × ℕ) → kept.1 ≡ some o → n.owner ≡ some o

module _ {D : Type 0} (s : Sftp D) where
  -- The file is there, filled.
  abbrev pub Filled : Kept → List ℕ → String → D → Type 0
  Filled kept bytes p d = (n : Node) × ((s.look d p ≡ some n) × IsFilled kept bytes n)

  -- The new file is there as a whole and the temporary one is not, or nothing has changed but the
  -- temporary file.
  abbrev pub IsAtomic : String → String → Kept → Source → D → Option UploadError × D → Type 0
  IsAtomic temp path kept src d (none, e) =
      Filled kept src.bytes path e
      × (src.error ≡ none)
      × (s.look e temp ≡ none)
      × ((p : String) → p ≢ temp → p ≢ path → s.look e p ≡ s.look d p)
  IsAtomic temp path kept src d (some error, e) = Keeps s temp d e

  -- What an upload gives, by what the check of the destination gave: its error, with nothing changed, or
  -- a whole replacement.
  abbrev pub IsOutcome :
      String → UploadError ⊎ Kept → String → Source → D → Option UploadError × D → Type 0
  IsOutcome temp (inl error) path src d r = r ≡ (some error, d)
  IsOutcome temp (inr kept) path src d r = IsAtomic temp path kept src d r

  pub Keeps-trans : (p : String) (d e f : D) → Keeps s p d e → Keeps s p e f → Keeps s p d f
  Keeps-trans p d e f h k q apart = k q apart ∙ h q apart

  and_then-Keeps :
      (p : String) (d : D) (r : Option String × D) (next : D → Option String × D)
      → Keeps s p d r.1
      → ((e : D) → Keeps s p e (next e).1)
      → Keeps s p d (and_then r next).1
  and_then-Keeps p d (some error, e) next h k = h
  and_then-Keeps p d (none, e) next h k = Keeps-trans p d e (next e).1 h (k e)

  -- Both steps work where the two together work.
  pub and_then-none :
      (r : Option String × D) (next : D → Option String × D)
      → (and_then r next).0 ≡ none
      → (r.0 ≡ none) × ((next r.1).0 ≡ none) × ((and_then r next).1 ≡ (next r.1).1)
  and_then-none (some error, d) next h = absurd (cc h)
  and_then-none (none, d) next h = (refl, h, refl)

  pub wrap-none : (f : String → UploadError) (o : Option String) → wrap f o ≡ none → o ≡ none
  wrap-none f none h = refl
  wrap-none f (some error) h = absurd (cc h)

  module _ (w : IsSftp s) (temp : String) where
    pub chown_back-Keeps :
        (owner : Option (ℕ × ℕ)) (d : D) → Keeps s temp d (chown_back s temp owner d).1
    unfolding chown_back
    chown_back-Keeps none d = λ p apart. refl
    chown_back-Keeps (some o) d = w.chown_keeps d temp o

    pub copy-Keeps : (src : Source) (d : D) → Keeps s temp d (copy s temp src d).1
    unfolding copy
    copy-Keeps src d =
        and_then-Keeps temp d (s.write d temp src.bytes) (λ e. (src.error, e))
          (w.write_keeps d temp src.bytes) (λ e p apart. refl)

    pub fill-Keeps :
        (kept : Kept) (src : Source) (d : D) → Keeps s temp d (fill s temp kept src d).1
    unfolding fill
    fill-Keeps (mode, owner) src d =
        and_then-Keeps temp d (and_then (copy s temp src d) (chown_back s temp owner))
          (λ e. s.chmod e temp mode)
          (and_then-Keeps temp d (copy s temp src d) (chown_back s temp owner) (copy-Keeps src d)
            (chown_back-Keeps owner))
          (λ e. w.chmod_keeps e temp mode)

    pub close_file-Keeps :
        (d : D) (r : Option String × D)
        → Keeps s temp d r.1
        → Keeps s temp d (close_file s temp r).1
    unfolding close_file
    close_file-Keeps d (some error, e) h =
        Keeps-trans temp d e (s.close e temp).1 h (w.close_keeps e temp)
    close_file-Keeps d (none, e) h =
        Keeps-trans temp d e (s.close e temp).1 h (w.close_keeps e temp)

    pub write_temp-Keeps :
        (kept : Kept) (src : Source) (d : D) → Keeps s temp d (write_temp s temp kept src d).1
    unfolding write_temp
    write_temp-Keeps kept src d = go (s.chmod d temp 384).0 refl
      where
        go :
            (o : Option String)
            → (s.chmod d temp 384).0 ≡ o
            → Keeps s temp d (write_temp s temp kept src d).1
        go (some error) e =
            let secured = (s.chmod d temp 384).1 in
            rw (write_temp, e)
              (Keeps-trans temp d secured (s.close secured temp).1 (w.chmod_keeps d temp 384)
                (w.close_keeps secured temp))
        go none e =
            let secured = (s.chmod d temp 384).1 in
            let filled = fill s temp kept src secured in
            rw (write_temp, e)
              (close_file-Keeps d filled (
                Keeps-trans temp d secured filled.1 (w.chmod_keeps d temp 384)
                  (fill-Keeps kept src secured)))
