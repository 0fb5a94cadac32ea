-- ===== src/Sockets/Tests.antt =====
-- `create_socket` for a concrete address.
use lossless_transport.Common.{◌+◌, ◌*◌, true, false, none, some, [], ◌∷◌, dec_lt}
use lossless_transport.Sockets.{
  Address, Sockets, SocketAnswers, create_socket, Makes, create_socket-Makes,
}

abbrev answers : SocketAnswers
answers = record { created = true; bound = true; connected = true }

-- One socket is open already.
abbrev opened : Sockets
opened = record { sockets = record { source = none; peer = none } ∷ [] }

abbrev loopback : Address
loopback = record { ip = 1; sin6_port = 0 }

create_socket-Makes_example :
    Makes answers opened false true
      (record { source = none; peer = some (record { ip = 1; sin6_port = 48 + 256 * 57 }) })
      (create_socket answers opened none 0 (some loopback) 12345)
unfolding dec_lt
create_socket-Makes_example = create_socket-Makes answers opened none 0 (some loopback) 12345
