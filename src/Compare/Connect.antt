-- ===== src/Compare/Connect.antt =====
-- src/drivers/compare/drv_compare.c: the options that name the servers, and connecting to them.
-- An option's list is circular: the list's head stands between its last item and its first. What
-- the client library answers is an argument.
pub mod Paired
mod Tests
use sysbench.Prelude.{
  ℕ, zero, suc, ◌+◌, Bool, true, false, not, Option, none, some, List, [], ◌∷◌, ◌==◌, ◌&&◌,
  if◌then◌else◌, ◌>>=◌, u32_mod,
}
use sysbench.Prelude.Int.{to_word}
use sysbench.Prelude.Text.{Str}
use sysbench.Options.Size.{strtol}

-- The lists of mysql_drv_args_t
pub record Args : Type 0 where
  pub hosts : List Str
  pub ports : List Str
  pub sockets : List Str
  pub users : List Str
  pub passwords : List Str

-- The do-while loop of sb_list_size, from an item to the head.
unfoldable pub count_items : ℕ → List Str → ℕ
count_items count [] = count
count_items count (x ∷ xs) = count_items (suc count) xs

-- sb_list_size
unfoldable pub list_size : List Str → ℕ
unfolding count_items
list_size [] = 0
list_size (x ∷ xs) = count_items 1 xs

abbrev is_empty : List Str → Bool
is_empty [] = true
is_empty (x ∷ xs) = false

-- mysql_drv_init; `ssl_known` says that --mysql-ssl names a mode.
unfoldable pub drv_init : Args → Bool → ℕ
unfolding list_size
drv_init a ssl_known =
    if is_empty a.hosts
    then 1
    else if is_empty a.ports
    then 1
    else if list_size a.users == 0
    then 1
    else if not (list_size a.hosts == list_size a.users)
    then 1
    else if list_size a.passwords == 0
    then 1
    else if not (list_size a.hosts == list_size a.passwords)
    then 1
    else if not ssl_known
    then 1
    else 0

-- SB_LIST_ITEM_NEXT: a place in a list is what follows it, and nothing follows the head.
unfoldable pub next : List Str → List Str → List Str
next all [] = all
next all (x ∷ xs) = xs

-- SB_LIST_ENTRY(...)->data; none at the head, which is no value_t.
unfoldable pub entry : List Str → Option Str
entry [] = none
entry (x ∷ xs) = some x

-- db_mysql_conn_t; none for what is read from the head of a list.
pub record Conn : Type 0 where
  pub host : Option Str
  pub port : Option ℕ
  pub socket : Option Str
  pub user : Option Str
  pub password : Option Str

-- Whether mysql_init gives a handle, and whether mysql_drv_real_connect connects.
pub record Opening : Type 0 where
  pub initialised : Bool
  pub connects : Bool

-- The places in the lists but the hosts'.
pub record Places : Type 0 where
  pub ports : List Str
  pub sockets : List Str
  pub users : List Str
  pub passwords : List Str

-- conn->port = atoi(...), an unsigned int
unfoldable pub port_of : Option Str → Option ℕ
unfolding strtol
port_of s = s >>= (λ v. some (to_word u32_mod (strtol v).0))

unfoldable pub conn_at : List Str → Places → Conn
unfolding entry port_of
conn_at hosts p = record {
  host = entry hosts;
  port = port_of (entry p.ports);
  socket = entry p.sockets;
  user = entry p.users;
  password = entry p.passwords;
}

unfoldable pub next_places : Args → Places → Places
unfolding next
next_places a p = record {
  ports = next a.ports p.ports;
  sockets = next a.sockets p.sockets;
  users = next a.users p.users;
  passwords = next a.passwords p.passwords;
}

-- What mysql_drv_connect returns; the connections, when it has set sb_conn->ptr; and the number of
-- the client library's handles that are left open although nothing points to them.
pub record Connected : Type 0 where
  pub status : ℕ
  pub conns : Option (List Conn)
  pub lost : ℕ

-- The loop over the hosts, whose `index` is the number of the connection.
unfoldable pub connect_each : Args → (ℕ → Opening) → ℕ → List Str → Places → Connected
unfolding conn_at next_places
connect_each a openings index [] p = record { status = 0; conns = some []; lost = 0 }
connect_each a openings index (h ∷ hosts) p =
    let o = openings index in
    let rest = connect_each a openings (suc index) hosts (next_places a p) in
    if not o.initialised
    then record { status = 1; conns = none; lost = index }
    else if not o.connects
    then record { status = 1; conns = none; lost = suc index }
    else record rest { conns = rest.conns >>= (λ conns. some (conn_at (h ∷ hosts) p ∷ conns)) }

-- mysql_drv_connect, when there is a host and memory; in a dry run it does nothing.
unfoldable pub drv_connect : Bool → Args → (ℕ → Opening) → Connected
unfolding connect_each
drv_connect dry_run a openings =
    let places : Places = record {
      ports = next a.ports [];
      sockets = next a.sockets [];
      users = next a.users [];
      passwords = next a.passwords [];
    } in
    if dry_run
    then record { status = 0; conns = none; lost = 0 }
    else connect_each a openings 0 a.hosts places
