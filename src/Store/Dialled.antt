-- ===== src/Store/Dialled.antt =====
-- What the backend dials for a server, and which host keys it takes.
use opsup.Prelude.{
  ℕ, zero, suc, ◌≡◌, ◌≢◌, refl, subst, ◌∙◌, String, ◌⊎◌, inl, inr, true, false, Option, none, some,
  List, [], ◌∷◌, ◌==◌, arith, Bool-cases,
}
use opsup.Types.{ssh}
use opsup.Store.Records.{Row, Table, find_row}
use opsup.Store.Dialing.{
  Config, DialError, Hop, Plan, direct, via, same_bytes, host_key_callback, connection_columns,
  load_connection_server, connection_config, make_config, names_jump, jump_from, dial,
  dial_via_jump, dial_through, dial_server,
}

same_bytes-equal : (xs ys : List ℕ) → same_bytes xs ys ≡ true → xs ≡ ys
same_bytes-equal [] [] h = refl
same_bytes-equal [] (y ∷ ys) h = absurd (cc h)
same_bytes-equal (x ∷ xs) [] h = absurd (cc h)
same_bytes-equal (x ∷ xs) (y ∷ ys) h = ground (arith, same_bytes-equal xs ys)

-- A host key is taken only where it is the one that was saved, and one was saved.
host_key_callback-taken :
    (pin observed : List ℕ) → host_key_callback pin observed ≡ true → (observed ≡ pin) × (pin ≢ [])
unfolding host_key_callback
host_key_callback-taken [] observed h = absurd (cc h)
host_key_callback-taken (p ∷ pin) observed h =
    (ground (arith, same_bytes-equal (p ∷ pin) observed), λ e. absurd (cc e))

-- The connection is the one of the server's record.
pub record IsHopTo {K : Type 0} (s : Row) (h : Hop K) : Type 0 where
  pub protocol : s.protocol ≡ ssh
  pub host : h.host ≡ s.host
  pub port : h.port ≡ s.port
  pub user : h.user ≡ s.username
  pub taken :
      (observed : List ℕ)
      → host_key_callback h.pin observed ≡ true
      → (observed ≡ s.host_key) × (s.host_key ≢ [])

-- No jump server is named.
abbrev pub IsDirect : Row → Type 0
IsDirect s = (s.jump_server_id ≡ none) ⊎ (s.jump_server_id ≡ some 0)

-- The plan goes to the server, directly or through one other server of the table, to which it goes
-- directly.
abbrev pub IsPlanOf : {K : Type 0} → Table → Row → Plan K → Type 0
IsPlanOf t s (direct h) = IsHopTo s h × IsDirect s
IsPlanOf t s (via j h) =
    IsHopTo s h
    × ((k : ℕ) × (jump : Row) × ((s.jump_server_id ≡ some k)
          × (k ≢ s.id)
          × (find_row k t.rows ≡ some jump)
          × IsHopTo jump j
          × IsDirect jump))

names_jump-IsDirect : (s : Row) → names_jump s.jump_server_id ≡ false → IsDirect s
names_jump-IsDirect s h = go s.jump_server_id refl
  where
    go : (o : Option ℕ) → s.jump_server_id ≡ o → IsDirect s
    go none e = inl e
    go (some zero) e = inr e
    go (some (suc k)) e = absurd (ground (arith, h, e))

module _ {E K : Type 0} (decrypt : String → E ⊎ List ℕ) (text : List ℕ → String)
    (parse : List ℕ → String ⊎ K) where
  -- The fields of a configuration.
  connection_config-fields :
      (s : Row) (c : Config)
      → connection_config decrypt text s ≡ inr c
      → (s.protocol ≡ ssh)
        × (c.host ≡ s.host)
        × (c.port ≡ s.port)
        × (c.username ≡ s.username)
        × (c.host_key ≡ s.host_key)
  unfolding connection_config
  connection_config-fields s c e =
      (ground arith, ground arith, ground arith, ground arith, ground arith)

  make_config-fields :
      (c : Config) (h : Hop K)
      → make_config {E = E} parse c ≡ inr h
      → (h.host ≡ c.host) × (h.port ≡ c.port) × (h.user ≡ c.username) × (h.pin ≡ c.host_key)
  unfolding make_config
  make_config-fields c h e = (ground arith, ground arith, ground arith, ground arith)

  configured-IsHopTo :
      (s : Row) (c : Config) (h : Hop K)
      → connection_config decrypt text s ≡ inr c
      → make_config {E = E} parse c ≡ inr h
      → IsHopTo s h
  configured-IsHopTo s c h e g =
      let (is_ssh, host, port, user, key) = connection_config-fields s c e in
      let (near_host, near_port, near_user, pin) = make_config-fields c h g in
      record {
        protocol = is_ssh;
        host = near_host ∙ host;
        port = near_port ∙ port;
        user = near_user ∙ user;
        taken = λ observed taken.
            let (same, saved) = host_key_callback-taken h.pin observed taken in
            (same ∙ pin ∙ key, λ none_saved. saved (pin ∙ key ∙ none_saved));
      }

  -- A jump server's connection needs no other columns than the ones that are read.
  columns-IsHopTo : (s : Row) (h : Hop K) → IsHopTo (connection_columns s) h → IsHopTo s h
  unfolding connection_columns
  columns-IsHopTo s h w = record {
    protocol = w.protocol;
    host = w.host;
    port = w.port;
    user = w.user;
    taken = w.taken;
  }

  dial-IsPlanOf :
      (t : Table) (s : Row) (c : Config) (p : Plan K)
      → connection_config decrypt text s ≡ inr c
      → IsDirect s
      → dial {E = E} parse c ≡ inr p
      → IsPlanOf t s p
  unfolding dial
  dial-IsPlanOf t s c p e d g = go (make_config parse c) refl
    where
      go : (o : DialError E ⊎ Hop K) → make_config parse c ≡ o → IsPlanOf t s p
      go (inl error) m = absurd (ground (arith, g, m))
      go (inr h) m =
          let same : direct h ≡ p = ground (arith, g, m) in
          subst (IsPlanOf t s) same (configured-IsHopTo s c h e m, d)

  dial_via_jump-IsPlanOf :
      (t : Table) (s jump : Row) (k : ℕ) (c j : Config) (p : Plan K)
      → connection_config decrypt text s ≡ inr c
      → connection_config decrypt text (connection_columns jump) ≡ inr j
      → s.jump_server_id ≡ some k
      → k ≢ s.id
      → find_row k t.rows ≡ some jump
      → IsDirect jump
      → dial_via_jump {E = E} parse j c ≡ inr p
      → IsPlanOf t s p
  unfolding dial_via_jump
  dial_via_jump-IsPlanOf t s jump k c j p e f named apart found d g =
      go (make_config parse c) refl (make_config parse j) refl
    where
      go :
          (o : DialError E ⊎ Hop K)
          → make_config parse c ≡ o
          → (q : DialError E ⊎ Hop K) → make_config parse j ≡ q
          → IsPlanOf t s p
      go (inl error) m q n = absurd (ground (arith, g, m))
      go (inr h) m (inl error) n = absurd (ground (arith, g, m, n))
      go (inr h) m (inr first) n =
          let first_hop = configured-IsHopTo (connection_columns jump) j first f n in
          let same : via first h ≡ p = ground (arith, g, m, n) in
          subst (IsPlanOf t s) same (
            configured-IsHopTo s c h e m,
            (k, jump, (named, apart, found, columns-IsHopTo jump first first_hop, d)),
          )

  dial_through-IsPlanOf :
      (late : Option String) (t : Table) (s jump : Row) (k : ℕ) (c : Config) (p : Plan K)
      → connection_config decrypt text s ≡ inr c
      → s.jump_server_id ≡ some k
      → k ≢ s.id
      → find_row k t.rows ≡ some jump
      → dial_through decrypt text parse late (connection_columns jump) c ≡ inr p
      → IsPlanOf t s p
  unfolding dial_through jump_from connection_columns
  dial_through-IsPlanOf late t s jump k c p e named apart found g =
      elim (Bool-cases (names_jump jump.jump_server_id)) [
        | inl two ↦ absurd (ground (arith, two, g))
        | inr one ↦ go (connection_config decrypt text (connection_columns jump)) refl late refl one
      ]
    where
      go :
          (o : DialError E ⊎ Config)
          → connection_config decrypt text (connection_columns jump) ≡ o
          → (l : Option String) → late ≡ l
          → names_jump jump.jump_server_id ≡ false
          → IsPlanOf t s p
      go (inl error) f l m one = absurd (ground (arith, f, one, g))
      go (inr j) f (some error) m one = absurd (ground (arith, f, m, one, g))
      go (inr j) f none m one =
          dial_via_jump-IsPlanOf t s jump k c j p e f named apart found
            (names_jump-IsDirect jump one) (ground (arith, f, m, one, g))

  -- Whatever the table has: where a server is dialled, it is an SSH server, with its own host, port and
  -- user, directly or through the one server that it names, another one of the table, which is an SSH
  -- server and named no jump server itself; and each of these connections takes no host key but the one
  -- that was saved for it, and none where no key was saved.
  pub dial_server-IsPlanOf :
      (early late fault : Option String) (t : Table) (s : Row) (p : Plan K)
      → dial_server decrypt text parse early late fault t (some s) ≡ inr p
      → IsPlanOf t s p
  unfolding dial_server load_connection_server
  dial_server-IsPlanOf early late fault t s p g =
      go early refl (connection_config decrypt text s) refl
    where
      looked_up :
          (k : ℕ) (c : Config) (o : Option Row)
          → early ≡ none
          → connection_config decrypt text s ≡ inr c
          → s.jump_server_id ≡ some (suc k)
          → suc k ≢ s.id
          → find_row (suc k) t.rows ≡ o
          → (l : Option String) → fault ≡ l
          → IsPlanOf t s p
      looked_up k c o x e named apart found (some error) l =
          absurd (ground (arith, x, e, named, apart, l, g))
      looked_up k c none x e named apart found none l =
          absurd (ground (arith, x, e, named, apart, l, found, g))
      looked_up k c (some jump) x e named apart found none l =
          dial_through-IsPlanOf late t s jump (suc k) c p e named apart found
            (ground (arith, x, e, named, apart, l, found, g))

      named_jump :
          (c : Config) (o : Option ℕ)
          → early ≡ none
          → connection_config decrypt text s ≡ inr c
          → s.jump_server_id ≡ o
          → IsPlanOf t s p
      named_jump c none x e named =
          dial-IsPlanOf t s c p e (inl named) (ground (arith, x, e, named, g))
      named_jump c (some zero) x e named =
          dial-IsPlanOf t s c p e (inr named) (ground (arith, x, e, named, g))
      named_jump c (some (suc k)) x e named = elim (Bool-cases (suc k == s.id)) [
        | inl same ↦ absurd (ground (arith, x, e, named, same, g))
        | inr apart ↦
            looked_up k c (find_row (suc k) t.rows) x e named (ground (arith, apart)) refl fault
              refl
      ]

      go :
          (x : Option String)
          → early ≡ x
          → (o : DialError E ⊎ Config) → connection_config decrypt text s ≡ o
          → IsPlanOf t s p
      go (some error) x o e = absurd (ground (arith, x, g))
      go none x (inl error) e = absurd (ground (arith, x, e, g))
      go none x (inr c) e = named_jump c s.jump_server_id x e refl
