-- ===== src/Compare/Connect/Tests.antt =====
-- Options for one and for two servers (src/drivers/compare/drv_compare.c).
use sysbench.Prelude.{
  ℕ, ◌≡◌, ◌<◌, refl, true, false, none, some, List, [], ◌∷◌, arith, get_elem?, leb,
}
use sysbench.Prelude.Text.{codes}
use sysbench.Compare.Connect.{Args, Conn, Opening, drv_init, drv_connect}
use sysbench.Compare.Connect.Paired.{IsConn, whole, drv_connect-paired, drv_connect-loses}

abbrev two_hosts : Args
two_hosts = record {
  hosts = codes "db1" ∷ codes "db2" ∷ [];
  ports = codes "3306" ∷ [];
  sockets = [];
  users = codes "sbtest" ∷ codes "sbtest" ∷ [];
  passwords = codes "a" ∷ codes "b" ∷ [];
}

abbrev with_sockets : Args
with_sockets = record two_hosts { sockets = codes "/tmp/1" ∷ codes "/tmp/2" ∷ [] }

abbrev all_up : ℕ → Opening
all_up i = record { initialised = true; connects = true }

abbrev second_down : ℕ → Opening
second_down i = record { initialised = true; connects = leb i 0 }

accepted : drv_init two_hosts true ≡ 0
unfolding drv_init
accepted = refl

accepted_sockets : drv_init with_sockets true ≡ 0
unfolding drv_init
accepted_sockets = refl

-- The first connection reads a socket from the head of the empty list, and the second a port from
-- the head of the list of one.
heads_read : drv_connect false two_hosts all_up ≡ record {
  status = 0;
  conns = some (
      record {
        host = some (codes "db1");
        port = some 3306;
        socket = none;
        user = some (codes "sbtest");
        password = some (codes "a");
      }
      ∷ record {
        host = some (codes "db2");
        port = none;
        socket = none;
        user = some (codes "sbtest");
        password = some (codes "b");
      }
      ∷ []);
  lost = 0;
}
unfolding drv_connect
heads_read = refl

drv_connect-paired_example :
    (conns : List Conn) × (drv_connect false with_sockets all_up
      ≡ record { status = 0; conns = some conns; lost = 0 })
    × ((c : Conn) × (get_elem? conns 1 ≡ some c)
        × IsConn with_sockets.hosts (whole with_sockets) 1 c)
drv_connect-paired_example =
    drv_connect-paired with_sockets true all_up 1 accepted_sockets (λ j. (refl, refl)) (omega arith)
      (omega arith) (omega arith)

first_up : (j : ℕ) → j < 1 → leb j 0 ≡ true
first_up j below = ground arith

drv_connect-loses_example :
    drv_connect false two_hosts second_down ≡ record { status = 1; conns = none; lost = 2 }
drv_connect-loses_example =
    drv_connect-loses two_hosts second_down 1 (omega arith) (λ j below. (refl, first_up j below))
      refl refl
