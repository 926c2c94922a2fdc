-- ===== src/Upload/Tests.antt =====
-- A file server in memory, uploads to it, and instances of the theorems.
use text.Mathlib.TextEquality.{eq_iff}
use opsup.Prelude.{
  ◌≡◌, ◌≢◌, refl, sym, ap, ◌∙◌, inl, inr, Option, none, some, [], ◌∷◌, ◌++◌, String, true, false,
  Bool-cases, str_eq, if◌then◌else◌,
}
use opsup.Upload.Remote.{Node, found, not_exist, Sftp, IsMove, IsSftp}
use opsup.Upload.Publish.{
  Source, kept_of, copy, chown_back, fill, close_file, write_temp, publish, clean_up,
  publish_written, replace, upload,
}
use opsup.Upload.Keeping.{IsOutcome}
use opsup.Upload.Atomic.{upload-IsOutcome}

-- What is under each path.
abbrev Files : Type 0
Files = String → Option Node

abbrev put : String → Option Node → Files → Files
put path n d p = if str_eq p path then n else d p

-- A change of the file that is there.
abbrev change : (Node → Node) → Option Node → Option Node
change f none = none
change f (some n) = some (f n)

abbrev moved : Files → String → String → Option String × Files
moved d a b = (none, put a none (put b (d a) d))

abbrev server : Sftp Files
server = record {
  look = λ d p. d p;
  lstat = λ d p. elim (d p) [ none ↦ not_exist | some n ↦ found n ];
  open_new = λ d p.
      (none, put p (some (record { regular = true; mode = 420; owner = none; content = [] })) d);
  chmod = λ d p m. (none, put p (change (λ n. record n { mode = m }) (d p)) d);
  chown = λ d p o. (none, put p (change (λ n. record n { owner = some o }) (d p)) d);
  write = λ d p bs. (none, put p (change (λ n. record n { content = n.content ++ bs }) (d p)) d);
  close = λ d p. (none, d);
  remove = λ d p. (none, put p none d);
  rename = moved;
  posix_rename = moved;
  has_posix_rename = λ d. true;
}

str_eq_same : (p : String) → str_eq p p ≡ true
str_eq_same p = (eq_iff p p).1 refl

str_eq_other : (p q : String) → p ≢ q → str_eq p q ≡ false
str_eq_other p q apart = elim (Bool-cases (str_eq p q)) [
  | inl e ↦ absurd (apart ((eq_iff p q).0 e))
  | inr e ↦ e
]

put_same : (p : String) (n : Option Node) (d : Files) → put p n d p ≡ n
put_same p n d = rw (str_eq_same p) refl

put_other : (p q : String) (n : Option Node) (d : Files) → q ≢ p → put p n d q ≡ d q
put_other p q n d apart = rw (str_eq_other q p apart) refl

moved-IsMove : IsMove server moved
moved-IsMove = record {
  done =
      λ d a b e apart. put_other a b none (put b (d a) d) (λ q. apart (sym q)) ∙ put_same b (d a) d;
  gone = λ d a b e apart. put_same a none (put b (d a) d);
  others =
      λ d a b p e away other. put_other a p none (put b (d a) d) away ∙ put_other b p (d a) d other;
  undone = λ d a b error e. absurd (cc e);
}

server-IsSftp : IsSftp server
server-IsSftp = record {
  open_keeps = λ d p q apart. put_other p q _ d apart;
  chmod_keeps = λ d p m q apart. put_other p q _ d apart;
  chown_keeps = λ d p o q apart. put_other p q _ d apart;
  write_keeps = λ d p bs q apart. put_other p q _ d apart;
  close_keeps = λ d p q apart. refl;
  remove_keeps = λ d p q apart. put_other p q _ d apart;
  opened = λ d p e.
      (record { regular = true; mode = 420; owner = none; content = [] }, (put_same p _ d, refl));
  chmods = λ d p m n e there. put_same p _ d ∙ ap (change (λ u. record u { mode = m })) there;
  chowns = λ d p o n e there. put_same p _ d ∙ ap (change (λ u. record u { owner = some o })) there;
  writes = λ d p bs n e there.
      put_same p _ d ∙ ap (change (λ u. record u { content = u.content ++ bs })) there;
  closes = λ d p e. refl;
  moves = moved-IsMove;
  posix_moves = moved-IsMove;
}

abbrev temporary : String
temporary = "/etc/.opsup"

abbrev destination : String
destination = "/etc/app"

-- A file of three bytes, and one that replaces it.
abbrev old : Files
old =
    put "/etc/app"
      (some
        (record { regular = true; mode = 416; owner = some (1000, 100); content = 1 ∷ 2 ∷ 3 ∷ [] }))
      (λ _. none)

abbrev new : Source
new = record { bytes = 7 ∷ 8 ∷ []; error = none }

abbrev cut : Source
cut = record { bytes = 7 ∷ []; error = some "unexpected EOF" }

all_steps : Unit {0}
unfolding kept_of copy chown_back fill close_file write_temp publish clean_up publish_written
    replace upload
all_steps = tt

replaced :
    (upload server (inr temporary) destination new old).1 destination
    ≡ some (record { regular = true; mode = 416; owner = some (1000, 100); content = 7 ∷ 8 ∷ [] })
unfolding all_steps
replaced = refl

cut_off : (upload server (inr temporary) destination cut old).1 destination ≡ old destination
unfolding all_steps
cut_off = refl

apart : temporary ≢ destination
apart e = cc (sym (str_eq_same temporary) ∙ ap (str_eq temporary) e)

upload-IsOutcome_example :
    IsOutcome server temporary
      (kept_of server old destination)
      destination
      new
      old
      (upload server (inr temporary) destination new old)
upload-IsOutcome_example = upload-IsOutcome server server-IsSftp temporary destination new old apart
