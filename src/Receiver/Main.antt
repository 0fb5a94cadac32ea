-- ===== src/Receiver/Main.antt =====
-- `wait_for_client` and `main` of src/receiver.c.
--
-- What is printed is left out. The loop of `main` has no end; it runs over the answers and the
-- datagrams of its rounds.
use lossless_transport.Common.{
  ℕ, Bool, true, false, not, Option, none, some, List, [], ◌∷◌, ◌++◌, Outcome, returns, ◌>>=◌, ◌>>◌,
  or_exit, check, get_elem?, set, if◌then◌else◌, Text,
}
use lossless_transport.Log.{quiet}
use lossless_transport.CommandLine.{CommandLine, parse_args}
use lossless_transport.Sockets.{
  Address, Sockets, SocketAnswers, Lookup, real_address, resolved, create_socket,
}
use lossless_transport.Receiver.{Receiver, Answers, init, main_loop}

-- `recvfrom` with `MSG_PEEK` gives the address of the first sender and takes nothing from the
-- socket's queue; `connect` makes it the socket's peer. The flag is false for -1.
unfoldable pub wait_for_client : Option Address → Bool → Sockets → ℕ → Bool × Sockets
wait_for_client none connected k sockfd = (false, k)
wait_for_client (some addr) connected k sockfd =
    if not connected then (false, k) else elim (get_elem? k.sockets sockfd) [
      | none ↦ (false, k)
      | some s ↦ (true, record { sockets = set k.sockets sockfd (record s { peer = some addr }) })
    ]

-- What the system answers to `main` before its loop; `opened` says which names `fopen` opens.
pub record Setup : Type 0 where
  pub command_line : CommandLine
  pub allocated : Bool
  pub lookup : Text → Lookup
  pub socket : SocketAnswers
  pub opened : Text → Bool
  pub client : Option Address
  pub connected : Bool

-- With no name the output is `stdout`.
abbrev open_file : Setup → Option Text → Outcome (Unit {0})
open_file u none = returns tt
open_file u (some name) = check (u.opened name)

unfoldable pub start : Setup → Outcome (Receiver × ℕ × Sockets)
start u = do
  a ← quiet (parse_args u.command_line [])
  open_file u a.filename
  r ← init u.allocated
  addr ← resolved (real_address (u.lookup a.hostname) (record { ip = 0; sin6_port = 0 }))
  let c = create_socket u.socket (record { sockets = [] }) (some addr) a.port none 0
  sockfd ← or_exit c.0
  let d = wait_for_client u.client u.connected c.1 sockfd
  check d.0
  returns (r, sockfd, d.1)

module _ (crc32 : ℕ → List ℕ → ℕ) where
  -- The rounds, each with what `recv` gives; the datagrams sent are collected.
  unfoldable pub rounds :
      List (Answers × Option (List ℕ)) → Receiver → Outcome (Receiver × List (List ℕ))
  rounds [] r = returns (r, [])
  rounds ((io, received) ∷ ios) r = do
    one ← main_loop crc32 io r received
    rest ← rounds ios one.0
    returns (rest.0, one.1 ++ rest.1)

  unfoldable pub main :
      Setup → List (Answers × Option (List ℕ)) → Outcome (Receiver × List (List ℕ))
  main u ios = do r ← start u; rounds ios r.0
