-- ===== src/Files/Requests.antt =====
-- The requests of a directory: their generations, and the controllers that were aborted.
use opsup.Prelude.{
  ℕ, suc, ◌≤◌, ◌<◌, ◌≡◌, ◌≢◌, refl, String, Bool, false, some, List, [], ◌∷◌, ◌==◌, any, All, arith,
  inl, inr, Bool-cases, Option-cases,
}
use opsup.Files.Directory.{Request, Directory, load_files, abort, leave, find_request, drop_request}

pub find_request-id :
    (id : ℕ) (rs : List Request) (r : Request) → find_request id rs ≡ some r → r.id ≡ id
unfolding find_request
find_request-id id [] r e = cc
find_request-id id (q ∷ rs) r e = ground (arith, find_request-id id rs r)

pub find_request-drop_request :
    (id other : ℕ) (rs : List Request)
    → other ≢ id
    → find_request id (drop_request other rs) ≡ find_request id rs
unfolding find_request drop_request
find_request-drop_request id other [] ne = refl
find_request-drop_request id other (q ∷ rs) ne =
    ground (arith, find_request-drop_request id other rs ne)

-- A request was made at the generation `g` or before, and for the path `p` if it was made at `g`.
abbrev pub MadeBy : ℕ → String → Request → Type 0
MadeBy g p r = (r.id ≤ g) × (r.id ≡ g → r.path ≡ p)

pub find_request-MadeBy :
    (g : ℕ) (p : String) (id : ℕ) (rs : List Request) (r : Request)
    → All (MadeBy g p) rs
    → find_request id rs ≡ some r
    → MadeBy g p r
unfolding find_request
find_request-MadeBy g p id [] r h e = absurd (cc e)
find_request-MadeBy g p id (q ∷ rs) r h e = elim (Bool-cases (q.id == id)) [
  | inl hit ↦ ground arith
  | inr miss ↦ find_request-MadeBy g p id rs r h.1 (ground arith)
]

pub drop_request-MadeBy :
    (g : ℕ) (p : String) (id : ℕ) (rs : List Request)
    → All (MadeBy g p) rs
    → All (MadeBy g p) (drop_request id rs)
unfolding drop_request
drop_request-MadeBy g p id [] h = h
drop_request-MadeBy g p id (q ∷ rs) h = ground (arith, drop_request-MadeBy g p id rs h.1)

-- At a later generation no request is the latest.
MadeBy-suc :
    (g : ℕ) (p q : String) (rs : List Request) → All (MadeBy g p) rs → All (MadeBy (suc g) q) rs
MadeBy-suc g p q [] h = tt
MadeBy-suc g p q (r ∷ rs) h =
    ((omega (arith, h.0.0), λ e. absurd (omega (arith, h.0.0))), MadeBy-suc g p q rs h.1)

Below-suc : (g : ℕ) (is : List ℕ) → All (λ i. i < g) is → All (λ i. i < suc g) is
Below-suc g [] h = tt
Below-suc g (i ∷ is) h = (omega (arith, h.0), Below-suc g is h.1)

pub any-Below : (g : ℕ) (is : List ℕ) → All (λ i. i < g) is → any (λ i. i == g) is ≡ false
any-Below g [] h = refl
any-Below g (i ∷ is) h = ground (arith, any-Below g is h.1)

abbrev pub latest : Directory → Request
latest d = record { id = d.generation; server_id = d.visible.server_id; path = d.current_path }

-- What does not depend on the server's answers.
pub record Kept (d : Directory) : Type 0 where
  pub seen : d.visible.path ≡ d.current_path
  pub made : All (MadeBy d.generation d.current_path) d.flying
  pub older : All (λ i. i < d.generation) d.aborted
  pub controlled : (i : ℕ) → d.controller ≡ some i → i ≤ d.generation
  pub bounded : d.rendered_generation ≤ d.generation

abort-older : (d : Directory) → Kept d → All (λ i. i < suc d.generation) (abort d)
abort-older d v = elim (Option-cases d.controller) [
  | inl off ↦ rw off (Below-suc d.generation d.aborted v.older)
  | inr (i, on) ↦ rw on (omega (arith, v.controlled i on), Below-suc d.generation d.aborted v.older)
]

-- The refs of a render with `open` and `serverId`.
abbrev pub view : Bool → ℕ → Directory → Directory
view o server d = record d { visible = record (d.visible) { open_now = o; server_id = server } }

pub view-Kept : (o : Bool) (server : ℕ) (d : Directory) → Kept d → Kept (view o server d)
view-Kept o server d v = record {
  seen = v.seen;
  made = v.made;
  older = v.older;
  controlled = v.controlled;
  bounded = v.bounded;
}

pub load_files-Kept :
    (server : ℕ) (p : String) (d : Directory) → Kept d → Kept (load_files server p d)
unfolding load_files
load_files-Kept server p d v = record {
  seen = refl;
  made = ((omega arith, λ _. refl), MadeBy-suc d.generation d.current_path p d.flying v.made);
  older = abort-older d v;
  controlled = λ i e. ground arith;
  bounded = omega arith;
}

pub leave-Kept : (d : Directory) → Kept d → Kept (leave d)
unfolding leave
leave-Kept d v = record {
  seen = v.seen;
  made = MadeBy-suc d.generation d.current_path d.current_path d.flying v.made;
  older = abort-older d v;
  controlled = λ i e. omega (arith, v.controlled i e);
  bounded = omega (arith, v.bounded);
}
