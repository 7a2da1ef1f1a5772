-- ===== src/Ssh/Pool/Disconnect.antt =====
-- Which connections `disconnect` drops.
use merlya.Common.{◌≡◌, String, none, [], ◌∷◌, arith, if◌then◌else◌, eq_iff}
use merlya.Common.Dict.{Dict, lookup}
use merlya.Common.Text.{codes, contains}
use merlya.Ssh.Types.{SshConnection}
use merlya.Ssh.Pool.{Pool, without_host, disconnect}

lookup-without_host :
    (h k : String) (d : Dict SshConnection)
    → lookup k (without_host h d) ≡ (if contains (codes h) (codes k) then none else lookup k d)
unfolding lookup without_host
lookup-without_host h k [] = ground arith
lookup-without_host h k ((j, c) ∷ d) = ground (arith, lookup-without_host h k d, eq_iff j k)

-- After disconnect no connection is left whose key has the host's name anywhere in it, the user's
-- part and a longer host's name included, and every other key has the connection it had.
pub lookup-disconnect :
    (h k : String) (s : Pool)
    → lookup k (disconnect h s).connections
      ≡ (if contains (codes h) (codes k) then none else lookup k s.connections)
unfolding disconnect
lookup-disconnect h k s = lookup-without_host h k s.connections
