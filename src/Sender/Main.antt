-- ===== src/Sender/Main.antt =====
-- `main` of src/sender.c: the arguments, the window, the socket, the file, and the rounds.
--
-- What is printed is left out, and so are `window_free` and `fclose` at the end.
use lossless_transport.Common.{
  ℕ, Bool, Option, none, some, List, [], Outcome, returns, ◌>>=◌, or_exit, Text,
}
use lossless_transport.Log.{quiet}
use lossless_transport.CommandLine.{CommandLine, parse_args}
use lossless_transport.Sockets.{
  Sockets, SocketAnswers, Lookup, real_address, resolved, create_socket,
}
use lossless_transport.Sender.{Sender, Answers}
use lossless_transport.Sender.Loop.{init, rounds}

-- What the system answers to `main` before its loop: the arguments, `calloc`, `getaddrinfo` for a
-- name, the socket's calls, what `stdin` holds, and what `fopen` finds under a name.
pub record Setup : Type 0 where
  pub command_line : CommandLine
  pub allocated : Bool
  pub lookup : Text → Lookup
  pub socket : SocketAnswers
  pub standard_input : List ℕ
  pub files : Text → Option (List ℕ)

abbrev open_file : Setup → Option Text → Outcome (List ℕ)
open_file u none = returns u.standard_input
open_file u (some name) = or_exit (u.files name)

-- The sender before its first round, its descriptor, and the sockets. The content of `dst_addr`
-- before the call of `real_address` does not matter.
unfoldable pub start : Setup → Outcome (Sender × ℕ × Sockets)
start u = do
  a ← quiet (parse_args u.command_line [])
  s ← init u.allocated []
  dst_addr ← resolved (real_address (u.lookup a.hostname) (record { ip = 0; sin6_port = 0 }))
  let c = create_socket u.socket (record { sockets = [] }) none 0 (some dst_addr) a.port
  sockfd ← or_exit c.0
  infile ← open_file u a.filename
  returns (record s { infile = infile }, sockfd, c.1)

module _ (crc32 : ℕ → List ℕ → ℕ) where
  unfoldable pub main : ℕ → Setup → List Answers → Outcome Sender
  main fuel u ios = do r ← start u; rounds crc32 fuel ios r.0
