-- ===== src/Compare/Connect/Paired.antt =====
-- Which items of the options' lists (src/drivers/compare/drv_compare.c) a connection is made with.
use sysbench.Prelude.{
  ℕ, zero, suc, ◌+◌, ◌≤◌, ◌<◌, ◌≡◌, ◌∙◌, refl, sym, ap, subst, Bool, true, false, none, some, List,
  [], ◌∷◌, arith, length, get_elem?,
}
use sysbench.Prelude.Text.{Str}
use sysbench.Compare.Connect.{
  Args, count_items, list_size, drv_init, next, entry, Conn, Opening, Places, port_of, conn_at,
  next_places, connect_each, drv_connect,
}

count_items-length : (n : ℕ) (xs : List Str) → count_items n xs ≡ n + length xs
unfolding count_items
count_items-length n [] = omega arith
count_items-length n (x ∷ xs) = omega (arith, count_items-length (suc n) xs)

pub list_size-length : (xs : List Str) → list_size xs ≡ length xs
unfolding list_size
list_size-length [] = refl
list_size-length (x ∷ xs) = omega (arith, count_items-length 1 xs)

-- The lists that mysql_drv_init accepts have as many users and passwords as hosts.
pub drv_init-sizes :
    (a : Args) (ssl_known : Bool)
    → drv_init a ssl_known ≡ 0
    → (length a.users ≡ length a.hosts) × (length a.passwords ≡ length a.hosts)
unfolding drv_init
drv_init-sizes a ssl_known h =
    let u = list_size-length a.users in
    let p = list_size-length a.passwords in
    let n = list_size-length a.hosts in ground (arith, h, u, p, n)

-- The item is the k-th of what follows a place, or the head after all of them.
abbrev pub IsConn : List Str → Places → ℕ → Conn → Type 0
IsConn hosts p k c =
    (c.host ≡ get_elem? hosts k)
    × (c.port ≡ port_of (get_elem? p.ports k))
    × (c.socket ≡ get_elem? p.sockets k)
    × (c.user ≡ get_elem? p.users k)
    × (c.password ≡ get_elem? p.passwords k)

entry-get : (xs : List Str) → entry xs ≡ get_elem? xs 0
unfolding entry
entry-get [] = refl
entry-get (x ∷ xs) = refl

next-get :
    (all xs : List Str) (k : ℕ)
    → suc k ≤ length xs
    → get_elem? (next all xs) k ≡ get_elem? xs (suc k)
unfolding next
next-get all [] k h = absurd (omega arith)
next-get all (x ∷ xs) k h = refl

length-next : (all xs : List Str) (k : ℕ) → suc k ≤ length xs → k ≤ length (next all xs)
unfolding next
length-next all [] k h = absurd (omega arith)
length-next all (x ∷ xs) k h = omega arith

-- The connections that are made.
conns_of : Args → List Str → Places → List Conn
conns_of a [] p = []
conns_of a (h ∷ hosts) p = conn_at (h ∷ hosts) p ∷ conns_of a hosts (next_places a p)

module _ (a : Args) where
  connect_each-conns_of :
      (openings : ℕ → Opening) (i : ℕ) (hosts : List Str) (p : Places)
      → ((j : ℕ) → ((openings j).initialised ≡ true) × ((openings j).connects ≡ true))
      → connect_each a openings i hosts p
        ≡ record { status = 0; conns = some (conns_of a hosts p); lost = 0 }
  unfolding connect_each conns_of
  connect_each-conns_of openings i [] p good = refl
  connect_each-conns_of openings i (h ∷ hosts) p good =
      rw
        (
          (good i).0,
          (good i).1,
          connect_each-conns_of openings (suc i) hosts (next_places a p) good,
        )
        refl

  conns_of-IsConn :
      (hosts : List Str) (p : Places) (k : ℕ)
      → k < length hosts
      → k ≤ length p.ports
      → k ≤ length p.sockets
      → k ≤ length p.users
      → k ≤ length p.passwords
      → (c : Conn) × (get_elem? (conns_of a hosts p) k ≡ some c) × IsConn hosts p k c
  unfolding conns_of conn_at next_places
  conns_of-IsConn [] p k inside to_p to_s to_u to_w = absurd (omega arith)
  conns_of-IsConn (h ∷ hosts) p zero inside to_p to_s to_u to_w = (
    conn_at (h ∷ hosts) p,
    refl,
    (
      refl,
      ap port_of (entry-get p.ports),
      entry-get p.sockets,
      entry-get p.users,
      entry-get p.passwords,
    ),
  )
  conns_of-IsConn (h ∷ hosts) p (suc k) inside to_p to_s to_u to_w =
      let (c, e, (host, port, socket, user, password)) =
        conns_of-IsConn hosts (next_places a p) k (omega arith) (length-next a.ports p.ports k to_p)
          (length-next a.sockets p.sockets k to_s) (length-next a.users p.users k to_u)
          (length-next a.passwords p.passwords k to_w) in
      (
        c,
        e,
        (
          host,
          port ∙ ap port_of (next-get a.ports p.ports k to_p),
          socket ∙ next-get a.sockets p.sockets k to_s,
          user ∙ next-get a.users p.users k to_u,
          password ∙ next-get a.passwords p.passwords k to_w,
        ),
      )

-- The lists themselves.
abbrev pub whole : Args → Places
whole a = record { ports = a.ports; sockets = a.sockets; users = a.users; passwords = a.passwords }

-- When mysql_drv_init accepts the options and every connection can be made, mysql_drv_connect
-- returns 0, and its k-th connection, where there are that many hosts and there are k ports and k
-- sockets before it, is made with the k-th host, user and password, and with the k-th port and the
-- k-th socket, or, where there is none, with what is read from the head of that list.
pub drv_connect-paired :
    (a : Args) (ssl_known : Bool) (openings : ℕ → Opening) (k : ℕ)
    → drv_init a ssl_known ≡ 0
    → ((j : ℕ) → ((openings j).initialised ≡ true) × ((openings j).connects ≡ true))
    → k < length a.hosts
    → k ≤ length a.ports
    → k ≤ length a.sockets
    → (conns : List Conn) × (drv_connect false a openings
        ≡ record { status = 0; conns = some conns; lost = 0 })
      × ((c : Conn) × (get_elem? conns k ≡ some c) × IsConn a.hosts (whole a) k c)
unfolding drv_connect next
drv_connect-paired a ssl_known openings k accepted good inside to_p to_s =
    let (u, w) = drv_init-sizes a ssl_known accepted in
    (
      _,
      connect_each-conns_of a openings 0 a.hosts (whole a) good,
      conns_of-IsConn a a.hosts (whole a) k inside to_p to_s (omega arith) (omega arith),
    )

connect_each-loses :
    (a : Args) (openings : ℕ → Opening) (i m : ℕ) (hosts : List Str) (p : Places)
    → m < length hosts
    → ((j : ℕ) → j < i + m → ((openings j).initialised ≡ true) × ((openings j).connects ≡ true))
    → (openings (i + m)).initialised ≡ true
    → (openings (i + m)).connects ≡ false
    → connect_each a openings i hosts p ≡ record { status = 1; conns = none; lost = suc (i + m) }
unfolding connect_each
connect_each-loses a openings i m [] p inside before initialised refused = absurd (omega arith)
connect_each-loses a openings i zero (h ∷ hosts) p inside before initialised refused =
    let here : i + 0 ≡ i = omega arith in
    let has_handle : (openings i).initialised ≡ true =
      subst (λ n. (openings n).initialised ≡ true) here initialised in
    let stays_out : (openings i).connects ≡ false =
      subst (λ n. (openings n).connects ≡ false) here refused in
    rw (has_handle, stays_out, here) refl
connect_each-loses a openings i (suc m) (h ∷ hosts) p inside before initialised refused =
    let step : i + suc m ≡ suc i + m = omega arith in
    let now = before i (omega arith) in
    let later =
      connect_each-loses a openings (suc i) m hosts (next_places a p) (omega arith)
        (λ j below. before j (omega arith))
        (subst (λ n. (openings n).initialised ≡ true) step initialised)
        (subst (λ n. (openings n).connects ≡ false) step refused) in
    rw (now.0, now.1, later, step) refl

-- The connections that were made before one that cannot be made are not closed: their handles, and
-- its own if mysql_init gave one, are lost.
pub drv_connect-loses :
    (a : Args) (openings : ℕ → Opening) (k : ℕ)
    → k < length a.hosts
    → ((j : ℕ) → j < k → ((openings j).initialised ≡ true) × ((openings j).connects ≡ true))
    → (openings k).initialised ≡ true
    → (openings k).connects ≡ false
    → drv_connect false a openings ≡ record { status = 1; conns = none; lost = suc k }
unfolding drv_connect next
drv_connect-loses a openings k inside before initialised refused =
    connect_each-loses a openings 0 k a.hosts (whole a) inside (λ j below. before j (omega arith))
      (subst (λ n. (openings n).initialised ≡ true) (sym (zero_add k)) initialised)
      (subst (λ n. (openings n).connects ≡ false) (sym (zero_add k)) refused)
    ∙ ap (λ n. record { status = 1; conns = none; lost = suc n }) (zero_add k)
  where
    zero_add : (n : ℕ) → 0 + n ≡ n
    zero_add n = omega arith
