-- ===== src/Tabs/Laws.antt =====
-- The list of tabs: keys, servers and neighbours.
use opsup.Prelude.{
  ℕ, ◌≡◌, ◌≢◌, refl, sym, ◌∙◌, inl, inr, true, Option, none, some, List, [], ◌∷◌, ◌++◌, arith, All,
  All-append, Bool-cases,
}
use opsup.Tabs.Workspace.{
  TabInfo, key_eq, make_key, find_server, without, last_tab, neighbour, has_key, next_tab,
}
use opsup.Tabs.Keys.{key_eq_iff, make_key-injective}

-- No two tabs are of one server.
abbrev pub Apart : List TabInfo → Type 0
Apart [] = Unit
Apart (t ∷ ts) = All (λ u. t.server.id ≢ u.server.id) ts × Apart ts

-- A tab's key was made for its server.
abbrev pub Keyed : TabInfo → Type 0
Keyed t = (now : ℕ) × (t.key ≡ make_key t.server.id now)

-- The key is that of a tab; without tabs it is empty.
abbrev pub IsActive : List ℕ → List TabInfo → Type 0
IsActive key [] = key ≡ []
IsActive key (t ∷ ts) = has_key key (t ∷ ts) ≡ true

pub has_key-IsActive : (key : List ℕ) (ts : List TabInfo) → has_key key ts ≡ true → IsActive key ts
unfolding has_key
has_key-IsActive key [] h = cc h
has_key-IsActive key (t ∷ ts) h = h

key_eq_refl : (key : List ℕ) → key_eq key key ≡ true
key_eq_refl key = (key_eq_iff key key).1 refl

-- Tabs of two servers have two keys.
apart_keys : (t u : TabInfo) → Keyed t → Keyed u → t.server.id ≢ u.server.id → t.key ≢ u.key
apart_keys t u (m, e) (n, f) ne same =
    ne (make_key-injective t.server.id u.server.id m n (sym e ∙ same ∙ f))

pub find_server-none :
    (id : ℕ) (ts : List TabInfo) → find_server id ts ≡ none → All (λ u. u.server.id ≢ id) ts
unfolding find_server
find_server-none id [] e = tt
find_server-none id (t ∷ ts) e = ground (arith, find_server-none id ts)

pub find_server-has_key :
    (id : ℕ) (ts : List TabInfo) (t : TabInfo)
    → find_server id ts ≡ some t
    → (has_key t.key ts ≡ true) × (t.server.id ≡ id)
unfolding find_server has_key
find_server-has_key id [] t e = absurd (cc e)
find_server-has_key id (u ∷ ts) t e = ground (arith, find_server-has_key id ts t, key_eq_refl u.key)

pub has_key-concat : (ts : List TabInfo) (t : TabInfo) → has_key t.key (ts ++ t ∷ []) ≡ true
unfolding has_key
has_key-concat [] t = ground (arith, key_eq_refl t.key)
has_key-concat (u ∷ ts) t = ground (arith, has_key-concat ts t)

pub Apart-concat :
    (ts : List TabInfo) (t : TabInfo)
    → Apart ts
    → All (λ u. u.server.id ≢ t.server.id) ts
    → Apart (ts ++ t ∷ [])
Apart-concat [] t a h = (tt, tt)
Apart-concat (u ∷ ts) t a h = (
  All-append (λ v. u.server.id ≢ v.server.id) ts (t ∷ []) a.0 (h.0, tt),
  Apart-concat ts t a.1 h.1,
)

pub without-All :
    (P : TabInfo → Type 0) (key : List ℕ) (ts : List TabInfo) → All P ts → All P (without key ts)
unfolding without
without-All P key [] h = tt
without-All P key (t ∷ ts) h = elim (Bool-cases (key_eq t.key key)) [
  | inl gone ↦ rw (gone, without) (without-All P key ts h.1)
  | inr kept ↦ rw (kept, without) (h.0, without-All P key ts h.1)
]

pub without-Apart : (key : List ℕ) (ts : List TabInfo) → Apart ts → Apart (without key ts)
unfolding without
without-Apart key [] a = tt
without-Apart key (t ∷ ts) a = elim (Bool-cases (key_eq t.key key)) [
  | inl gone ↦ rw (gone, without) (without-Apart key ts a.1)
  | inr kept ↦
      rw (kept, without)
        (without-All (λ u. t.server.id ≢ u.server.id) key ts a.0, without-Apart key ts a.1)
]

pub has_key-without :
    (k key : List ℕ) (ts : List TabInfo) → k ≢ key → has_key k (without key ts) ≡ has_key k ts
unfolding has_key without
has_key-without k key [] ne = refl
has_key-without k key (t ∷ ts) ne =
    ground (arith, has_key-without k key ts ne, key_eq_iff t.key key, key_eq_iff t.key k)

pub has_key-last_tab :
    (t : TabInfo) (ts : List TabInfo) → has_key (last_tab t ts).key (t ∷ ts) ≡ true
unfolding has_key last_tab
has_key-last_tab t [] = ground (arith, key_eq_refl t.key)
has_key-last_tab t (u ∷ us) = ground (arith, has_key-last_tab u us)

abbrev front : Option TabInfo → List TabInfo → List TabInfo
front none ts = ts
front (some t) ts = t ∷ ts

has_key-front :
    (k : List ℕ) (before : Option TabInfo) (ts : List TabInfo)
    → has_key k ts ≡ true
    → has_key k (front before ts) ≡ true
unfolding has_key
has_key-front k none ts h = h
has_key-front k (some p) ts h = ground arith

neighbour-has_key :
    (key : List ℕ) (before : Option TabInfo) (ts : List TabInfo) (u : TabInfo)
    → Apart ts
    → All Keyed ts
    → All (λ t. t.key ≢ key) (front before [])
    → neighbour key before ts ≡ some u
    → (has_key u.key (front before ts) ≡ true) × (u.key ≢ key)
unfolding has_key neighbour
neighbour-has_key key before [] u a k h e = absurd (cc e)
neighbour-has_key key none (t ∷ []) u a k h e = ground arith
neighbour-has_key key (some p) (t ∷ []) u a k h e = ground (arith, key_eq_refl p.key, h.0)
neighbour-has_key key before (t ∷ v ∷ ts) u a k h e = elim (Bool-cases (key_eq t.key key)) [
  | inl hit ↦
      let other = apart_keys t v k.0 k.1.0 a.0.0 in
      let same : v ≡ u = ground arith in
      let differs : v.key ≢ key = λ p. other ((key_eq_iff t.key key).0 hit ∙ sym p) in
      ground (
        arith,
        same,
        differs,
        has_key-front v.key before (t ∷ v ∷ ts) (ground (arith, key_eq_refl v.key)),
      )
  | inr miss ↦
      let differs : t.key ≢ key = λ p. cc (miss, (key_eq_iff t.key key).1 p) in
      let found = neighbour-has_key key (some t) (v ∷ ts) u a.1 k.1 (differs, tt) (ground arith) in
      (has_key-front u.key before (t ∷ v ∷ ts) found.0, found.1)
]

-- The tab that `closeTab` selects is another one of the list.
pub next_tab-has_key :
    (key : List ℕ) (ts : List TabInfo) (u : TabInfo)
    → Apart ts
    → All Keyed ts
    → next_tab key ts ≡ some u
    → (has_key u.key ts ≡ true) × (u.key ≢ key)
unfolding has_key
next_tab-has_key key [] u a k e = ground arith
next_tab-has_key key (t ∷ ts) u a k e = elim (Bool-cases (has_key key (t ∷ ts))) [
  | inl there ↦ neighbour-has_key key none (t ∷ ts) u a k tt (ground (arith, there))
  | inr missing ↦
      let same : t ≡ u = ground (arith, missing) in
      let differs : u.key ≢ key = λ p. ground (arith, missing, same, (key_eq_iff u.key key).1 p) in
      (ground (arith, same, key_eq_refl u.key), differs)
]
