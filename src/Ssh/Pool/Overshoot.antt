-- ===== src/Ssh/Pool/Overshoot.antt =====
-- Two tasks that open connections at the same time.
use merlya.Common.{suc, ◌≡◌, String, false, arith, length, str_eq}
use merlya.Common.Dict.{has, insert, has-insert, length-insert}
use merlya.Ssh.Types.{SshConnection}
use merlya.Ssh.Pool.{PoolConfig, Pool, make_room, store}

-- Where the pool has room for one more connection and two tasks, each connecting for a key of its
-- own that the pool does not have, both make room before either stores its connection, the pool
-- ends with one connection more than `max_connections`.
pub concurrent_overshoot :
    (c : PoolConfig) (s : Pool) (a b : String) (x y : SshConnection)
    → suc (length s.connections) ≡ c.max_connections
    → has a s.connections ≡ false
    → has b s.connections ≡ false
    → str_eq a b ≡ false
    → length (store b y (store a x (make_room c (make_room c s)))).connections
      ≡ suc c.max_connections
unfolding make_room store
concurrent_overshoot c s a b x y h f g n = ground (
  arith,
  has-insert a b x s.connections,
  length-insert a x s.connections,
  length-insert b y (insert a x s.connections),
)
