-- ===== src/Files/Paths.antt =====
-- ui/src/components/FileManager.tsx: the paths that it makes. Lines 66 to 70 (`handleGoPath`), 151
-- (the path of a new folder), 161 and 238 (the breadcrumbs).
use Prim.Native.Char.{Char, code}
use Prim.Native.String
use opsup.Prelude.{
  ℕ, suc, String, Bool, false, not, ◌&&◌, ◌||◌, List, [], ◌∷◌, leb, ◌==◌, str_eq, truthy,
  if◌then◌else◌, take,
}

abbrev pub slash : Char
slash = "/"

-- `path.split('/')`: a character of the rest goes to its first part.
abbrev pub extend : Char → List String → List String
extend c [] = (String.◌∷◌ c "") ∷ []
extend c (part ∷ parts) = (String.◌∷◌ c part) ∷ parts

unfoldable pub split_slash : String → List String
split_slash String.[] = "" ∷ []
split_slash (String.◌∷◌ c s) =
    let rest = split_slash s in if code c == b'/' then "" ∷ rest else extend c rest

-- `.filter(Boolean)`
unfoldable pub keep_truthy : List String → List String
keep_truthy [] = []
keep_truthy (part ∷ parts) =
    let rest = keep_truthy parts in if truthy part then part ∷ rest else rest

-- `currentPath.split('/').filter(Boolean)`
unfoldable pub path_parts : String → List String
unfolding split_slash keep_truthy
path_parts path = keep_truthy (split_slash path)

-- `parts.join('/')`
unfoldable pub join_slash : List String → String
join_slash [] = ""
join_slash (part ∷ []) = part
join_slash (part ∷ next ∷ parts) = String.◌++◌ part (String.◌∷◌ slash (join_slash (next ∷ parts)))

-- The path of the breadcrumb at `i`.
unfoldable pub crumb_path : List String → ℕ → String
unfolding join_slash
crumb_path parts i = String.◌++◌ "/" (join_slash (take (suc i) parts))

-- `target.path === '/' ? `/${dirName}` : `${target.path}/${dirName}``
unfoldable pub folder_path : String → String → String
folder_path path name =
    if str_eq path "/" then String.◌++◌ "/" name else String.◌++◌ path (String.◌++◌ "/" name)

-- The white space of ECMAScript.
abbrev pub is_space : ℕ → Bool
is_space c =
    (leb 9 c && leb c 13)
    || ((c == 32)
        || ((c == 160)
            || ((c == 0x1680)
                || ((leb 0x2000 c && leb c 0x200a)
                    || ((c == 0x2028)
                        || ((c == 0x2029)
                            || ((c == 0x202f)
                                || ((c == 0x205f) || ((c == 0x3000) || (c == 0xfeff))))))))))

unfoldable pub trim_start : String → String
trim_start String.[] = ""
trim_start (String.◌∷◌ c s) =
    let rest = trim_start s in if is_space (code c) then rest else String.◌∷◌ c s

-- Without the white space at its end.
unfoldable pub trim_end : String → String
trim_end String.[] = ""
trim_end (String.◌∷◌ c s) =
    let rest = trim_end s in
    if is_space (code c) && not (truthy rest) then "" else String.◌∷◌ c rest

unfoldable pub trim : String → String
unfolding trim_start trim_end
trim s = trim_end (trim_start s)

abbrev pub starts_with_slash : String → Bool
starts_with_slash String.[] = false
starts_with_slash (String.◌∷◌ c s) = code c == b'/'

-- `handleGoPath`: the path that it loads.
unfoldable pub go_path : String → String
go_path input = let p = trim input in if starts_with_slash p then p else String.◌++◌ "/" p
