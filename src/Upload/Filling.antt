-- ===== src/Upload/Filling.antt =====
-- Where the steps of `Upload` work, the temporary file has what it should.
use opsup.Prelude.{ℕ, ◌≡◌, refl, ap, ◌∙◌, Option, none, some, List, [], ◌++◌, String, arith}
use opsup.Upload.Remote.{Node, Sftp, IsSftp}
use opsup.Upload.Publish.{
  Source, and_then, Kept, copy, chown_back, fill, close_file, write_temp, close_fails,
}
use opsup.Upload.Keeping.{Filled, and_then-none, wrap-none}

module _ {D : Type 0} (s : Sftp D) (w : IsSftp s) (temp : String) where
  -- Where the steps work, the temporary file is filled.
  copy-done :
      (src : Source) (d : D) (n : Node)
      → s.look d temp ≡ some n
      → (copy s temp src d).0 ≡ none
      → (src.error ≡ none)
        × (s.look (copy s temp src d).1 temp ≡ some (record n { content = n.content ++ src.bytes }))
  unfolding copy
  copy-done src d n there h =
      let (wrote, read, same) =
        and_then-none s (s.write d temp src.bytes) (λ e. (src.error, e)) h in
      (read, ap (λ e. s.look e temp) same ∙ w.writes d temp src.bytes n wrote there)

  owned :
      (owner : Option (ℕ × ℕ)) (d : D) (n : Node)
      → s.look d temp ≡ some n
      → (chown_back s temp owner d).0 ≡ none
      → (m : Node) × ((s.look (chown_back s temp owner d).1 temp ≡ some m)
          × (m.content ≡ n.content)
          × ((o : ℕ × ℕ) → owner ≡ some o → m.owner ≡ some o))
  unfolding chown_back
  owned none d n there h = (n, (there, refl, λ o e. absurd (cc e)))
  owned (some u) d n there h =
      (record n { owner = some u }, (w.chowns d temp u n h there, refl, λ o e. e))

  fill-done :
      (kept : Kept) (src : Source) (d : D) (n : Node)
      → s.look d temp ≡ some n
      → n.content ≡ []
      → (fill s temp kept src d).0 ≡ none
      → (src.error ≡ none) × Filled s kept src.bytes temp (fill s temp kept src d).1
  unfolding fill
  fill-done (mode, owner) src d n there empty h =
      let copied = copy s temp src d in
      let both = and_then copied (chown_back s temp owner) in
      let (before, moded, last) = and_then-none s both (λ e. s.chmod e temp mode) h in
      let (wrote, chowned, next) = and_then-none s copied (chown_back s temp owner) before in
      let (read, bytes) = copy-done src d n there wrote in
      let (m, (here, content, user)) =
        owned owner copied.1 (record n { content = n.content ++ src.bytes }) bytes chowned in
      let at_both : s.look both.1 temp ≡ some m = ap (λ e. s.look e temp) next ∙ here in
      (
        read,
        (
          record m { mode = mode },
          (
            ap (λ e. s.look e temp) last ∙ w.chmods both.1 temp mode m moded at_both,
            record {
              content = content ∙ ap (λ xs. xs ++ src.bytes) empty;
              mode = refl;
              owner = user;
            },
          ),
        ),
      )

  close_file-done :
      (kept : Kept) (bytes : List ℕ) (r : Option String × D)
      → (r.0 ≡ none → Filled s kept bytes temp r.1)
      → (close_file s temp r).0 ≡ none
      → (r.0 ≡ none) × Filled s kept bytes temp (close_file s temp r).1
  unfolding close_file
  close_file-done kept bytes (some error, d) f h = absurd (cc h)
  close_file-done kept bytes (none, d) f h =
      let (n, (there, good)) = f refl in
      (refl, (n, (w.closes d temp (wrap-none s close_fails (s.close d temp).0 h) ∙ there, good)))

  pub write_temp-done :
      (kept : Kept) (src : Source) (d : D) (n : Node)
      → s.look d temp ≡ some n
      → n.content ≡ []
      → (write_temp s temp kept src d).0 ≡ none
      → (src.error ≡ none) × Filled s kept src.bytes temp (write_temp s temp kept src d).1
  unfolding write_temp
  write_temp-done kept src d n there empty h = go (s.chmod d temp 384).0 refl
    where
      go :
          (o : Option String)
          → (s.chmod d temp 384).0 ≡ o
          → (src.error ≡ none) × Filled s kept src.bytes temp (write_temp s temp kept src d).1
      go (some error) e = absurd (ground (arith, h, e))
      go none e =
          let secured = (s.chmod d temp 384).1 in
          let filled = fill s temp kept src secured in
          let fills =
            fill-done kept src secured (record n { mode = 384 }) (w.chmods d temp 384 n e there)
              empty in
          let (fine, here) =
            close_file-done kept src.bytes filled (λ q. (fills q).1) (rw (write_temp, e) at h) in
          ((fills fine).0, rw (write_temp, e) here)
