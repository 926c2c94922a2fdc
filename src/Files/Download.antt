-- ===== src/Files/Download.antt =====
-- ui/src/components/FileManager.tsx, lines 98 to 111: `handleDownload`, with what the API answers and
-- the calls of the browser in their order.
use opsup.Prelude.{
  ℕ, suc, ◌-◌, String, true, not, ◌||◌, ◌≡◌, refl, ◌⊎◌, inl, inr, Option, none, some, List, [], ◌∷◌,
  All, or_text, if◌then◌else◌, Bool-cases, arith,
}
use opsup.Files.Directory.{Directory, FileEntry, shown_ready, capture, is_current}

pub data Call : Type 0 where
  downloads : ℕ → String → Call
  creates_url revokes_url : Call
  clicks : String → Call
  errs : String → Call

-- The calls once there is an answer: an error, whose text may be missing, or the file.
abbrev pub after_download : FileEntry → Option (Option String) → List Call
after_download entry none = creates_url ∷ clicks entry.name ∷ revokes_url ∷ []
after_download entry (some none) = errs "下载失败" ∷ []
after_download entry (some (some text)) = errs (or_text text "下载失败") ∷ []

-- `handleDownload(record)`
unfoldable pub handle_download : FileEntry → Option (Option String) → Directory → List Call
handle_download entry error d =
    if not (shown_ready d) || not (is_current (capture d) d)
    then []
    else downloads d.visible.server_id entry.path ∷ after_download entry error

-- How many of the made URLs are still held at the end.
abbrev pub held : ℕ → List Call → ℕ
held n [] = n
held n (creates_url ∷ cs) = held (suc n) cs
held n (revokes_url ∷ cs) = held (n - 1) cs
held n (_ ∷ cs) = held n cs

abbrev pub IsFrom : ℕ → Call → Type 0
IsFrom id (downloads server path) = server ≡ id
IsFrom id _ = Unit

-- Whatever the API answers: a download asks the server whose directory is shown, and only where that
-- directory is ready; and no URL that was made for a file is left.
pub handle_download-releases :
    (entry : FileEntry) (error : Option (Option String)) (d : Directory)
    → (held 0 (handle_download entry error d) ≡ 0)
      × All (IsFrom d.visible.server_id) (handle_download entry error d)
      × ((shown_ready d ≡ true) ⊎ (handle_download entry error d ≡ []))
unfolding handle_download
handle_download-releases entry error d =
    elim (Bool-cases (not (shown_ready d) || not (is_current (capture d) d))) [
      | inl e ↦ rw e (refl, tt, inr refl)
      | inr e ↦ rw e (asked error (ground (arith, e)))
    ]
  where
    cs : Option (Option String) → List Call
    cs error = downloads d.visible.server_id entry.path ∷ after_download entry error

    asked :
        (error : Option (Option String))
        → shown_ready d ≡ true
        → (held 0 (cs error) ≡ 0)
          × All (IsFrom d.visible.server_id) (cs error)
          × ((shown_ready d ≡ true) ⊎ (cs error ≡ []))
    asked none r = (refl, (refl, (tt, (tt, (tt, tt)))), inl r)
    asked (some none) r = (refl, (refl, (tt, tt)), inl r)
    asked (some (some text)) r = (refl, (refl, (tt, tt)), inl r)
