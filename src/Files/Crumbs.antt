-- ===== src/Files/Crumbs.antt =====
-- The parts of the paths that ui/src/components/FileManager.tsx makes.
use Prim.Native.Char.{Char, code}
use Prim.Native.String
use text.Mathlib.TextEquality.{eq_iff}
use text.Mathlib.TextLemmas.{nil-append, cons-append}
use opsup.Prelude.{
  ℕ, zero, suc, ◌≡◌, ◌≢◌, refl, sym, ap, ◌∙◌, String, true, List, [], ◌∷◌, ◌++◌, arith, ◌==◌,
  str_eq, truthy, take, inl, inr, Bool-cases, All,
}
use opsup.Files.Paths.{
  slash, extend, split_slash, keep_truthy, path_parts, join_slash, crumb_path, folder_path, trim,
  starts_with_slash, go_path,
}

abbrev NoSlash : String → Type 0
NoSlash String.[] = Unit
NoSlash (String.◌∷◌ c s) = (code c ≢ b'/') × NoSlash s

-- The name of a file or a directory: not empty, and without a slash.
abbrev pub IsPart : String → Type 0
IsPart part = (truthy part ≡ true) × NoSlash part

extend_twice :
    (c d : Char) (qs ps : List String) → extend c (extend d qs ++ ps) ≡ extend c (extend d qs) ++ ps
extend_twice c d [] ps = refl
extend_twice c d (q ∷ qs) ps = refl

extend-append :
    (c : Char) (s : String) (ps : List String)
    → extend c (split_slash s ++ ps) ≡ extend c (split_slash s) ++ ps
unfolding split_slash
extend-append c String.[] ps = refl
extend-append c (String.◌∷◌ d s) ps = elim (Bool-cases (code d == b'/')) [
  | inl e ↦ rw (e, split_slash)
  | inr e ↦ rw (e, split_slash) (extend_twice c d (split_slash s) ps)
]

split_slash-append :
    (s t : String)
    → split_slash (String.◌++◌ s (String.◌∷◌ slash t)) ≡ split_slash s ++ split_slash t
unfolding split_slash
split_slash-append String.[] t = rw (nil-append (String.◌∷◌ slash t))
split_slash-append (String.◌∷◌ c s) t =
    rw (cons-append c s (String.◌∷◌ slash t)) (elim (Bool-cases (code c == b'/')) [
      | inl e ↦ rw (e, split_slash) (ap (◌∷◌ "") (split_slash-append s t))
      | inr e ↦
          rw (e, split_slash)
            (ap (extend c) (split_slash-append s t) ∙ extend-append c s (split_slash t))
    ])

keep_truthy-append :
    (ps qs : List String) → keep_truthy (ps ++ qs) ≡ keep_truthy ps ++ keep_truthy qs
unfolding keep_truthy
keep_truthy-append [] qs = refl
keep_truthy-append (p ∷ ps) qs = ground (arith, keep_truthy-append ps qs)

-- A slash between two texts joins their parts.
path_parts-append :
    (s t : String) → path_parts (String.◌++◌ s (String.◌∷◌ slash t)) ≡ path_parts s ++ path_parts t
unfolding path_parts
path_parts-append s t =
    ap keep_truthy (split_slash-append s t) ∙ keep_truthy-append (split_slash s) (split_slash t)

split_slash-part : (s : String) → NoSlash s → split_slash s ≡ s ∷ []
unfolding split_slash
split_slash-part String.[] h = refl
split_slash-part (String.◌∷◌ c s) h = ground (arith, split_slash-part s h.1)

path_parts-part : (s : String) → IsPart s → path_parts s ≡ s ∷ []
unfolding path_parts
path_parts-part s h = rw (split_slash-part s h.1) (ground arith)

path_parts-slash : (s : String) → path_parts (String.◌++◌ "/" s) ≡ path_parts s
unfolding path_parts split_slash keep_truthy
path_parts-slash s = rw (cons-append slash "" s, nil-append s)

path_parts-join_slash :
    (parts : List String) → All IsPart parts → path_parts (join_slash parts) ≡ parts
unfolding join_slash
path_parts-join_slash [] h = unfold path_parts split_slash keep_truthy in refl
path_parts-join_slash (part ∷ []) h = path_parts-part part h.0
path_parts-join_slash (part ∷ next ∷ parts) h =
    path_parts-append part (join_slash (next ∷ parts))
    ∙ ap (λ ps. ps ++ path_parts (join_slash (next ∷ parts))) (path_parts-part part h.0)
    ∙ ap (◌∷◌ part) (path_parts-join_slash (next ∷ parts) h.1)

extend-NoSlash :
    (c : Char) (ps : List String) → code c ≢ b'/' → All NoSlash ps → All NoSlash (extend c ps)
extend-NoSlash c [] ne h = ((ne, tt), tt)
extend-NoSlash c (p ∷ ps) ne h = ((ne, h.0), h.1)

split_slash-NoSlash : (s : String) → All NoSlash (split_slash s)
unfolding split_slash
split_slash-NoSlash String.[] = (tt, tt)
split_slash-NoSlash (String.◌∷◌ c s) = elim (Bool-cases (code c == b'/')) [
  | inl e ↦ rw (e, split_slash) (tt, split_slash-NoSlash s)
  | inr e ↦
      rw (e, split_slash) (extend-NoSlash c (split_slash s) (ground arith) (split_slash-NoSlash s))
]

keep_truthy-IsPart : (ps : List String) → All NoSlash ps → All IsPart (keep_truthy ps)
unfolding keep_truthy
keep_truthy-IsPart [] h = tt
keep_truthy-IsPart (p ∷ ps) h = elim (Bool-cases (truthy p)) [
  | inl e ↦ rw (e, keep_truthy) ((e, h.0), keep_truthy-IsPart ps h.1)
  | inr e ↦ rw (e, keep_truthy) (keep_truthy-IsPart ps h.1)
]

-- Each part of a path is the name of a file or directory: not empty, and without a slash.
pub path_parts-IsPart : (path : String) → All IsPart (path_parts path)
unfolding path_parts
path_parts-IsPart path = keep_truthy-IsPart (split_slash path) (split_slash-NoSlash path)

take-IsPart : (n : ℕ) (ps : List String) → All IsPart ps → All IsPart (take n ps)
take-IsPart zero ps h = tt
take-IsPart (suc n) [] h = tt
take-IsPart (suc n) (p ∷ ps) h = (h.0, take-IsPart n ps h.1)

-- The breadcrumb at `i` of any path leads to the directory that its first `i + 1` parts name.
pub path_parts-crumb_path :
    (path : String) (i : ℕ)
    → path_parts (crumb_path (path_parts path) i) ≡ take (suc i) (path_parts path)
unfolding crumb_path
path_parts-crumb_path path i =
    path_parts-slash (join_slash (take (suc i) (path_parts path)))
    ∙ path_parts-join_slash _ (take-IsPart (suc i) (path_parts path) (path_parts-IsPart path))

-- A new folder has the parts of the directory that was captured, and then those of the typed name.
pub path_parts-folder_path :
    (path name : String) → path_parts (folder_path path name) ≡ path_parts path ++ path_parts name
unfolding folder_path path_parts split_slash keep_truthy
path_parts-folder_path path name = elim (Bool-cases (str_eq path "/")) [
  | inl root ↦
      rw (root, folder_path)
        (path_parts-slash name
          ∙ ap (λ p. path_parts p ++ path_parts name) (sym ((eq_iff path "/").0 root)))
  | inr other ↦
      rw (other, folder_path, cons-append slash "" name, nil-append name)
        (path_parts-append path name)
]

-- The path that is typed leads to its own parts, less the white space around it, and is absolute.
pub path_parts-go_path :
    (input : String)
    → (path_parts (go_path input) ≡ path_parts (trim input))
      × (starts_with_slash (go_path input) ≡ true)
unfolding go_path
path_parts-go_path input = elim (Bool-cases (starts_with_slash (trim input))) [
  | inl absolute ↦ rw (absolute, go_path) (refl, absolute)
  | inr relative ↦
      rw (relative, go_path) (path_parts-slash (trim input), rw (cons-append slash "" (trim input)))
]
