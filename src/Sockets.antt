-- ===== src/Sockets.antt =====
-- src/util.c: `real_address` and `create_socket`.
--
-- `Sockets` holds the sockets of the process; a descriptor is a place in it. What `getaddrinfo`,
-- `socket`, `bind` and `connect` answer are arguments. A descriptor of -1 is `none`, and a port
-- argument of -1 is 0, since both are not positive.
mod Tests
use lossless_transport.Common.{
  ℕ, ◌+◌, ◌*◌, ◌/◌, ◌||◌, ◌%◌, ◌^◌, ◌<◌, ◌≡◌, ◌≢◌, ap, sym, subst, ◌⊎◌, inl, inr, refl, Bool, true,
  false, ◌&&◌, not, Option, none, some, List, [], ◌∷◌, ◌++◌, ltb, if◌then◌else◌, length, set,
  get_elem?, htons, Text, arith, Bool-cases, Outcome, returns, exits,
}

-- `struct sockaddr_in6`: the address, and `sin6_port`, in network order.
pub record Address : Type 0 where
  pub ip : ℕ
  pub sin6_port : ℕ

-- The address that `bind` gave to the socket, and that which `connect` set.
pub record Socket : Type 0 where
  pub source : Option Address
  pub peer : Option Address

pub record Sockets : Type 0 where
  pub sockets : List Socket

-- What `getaddrinfo` answers for an IPv6 address for UDP: the text of its error, or the first address.
pub data Lookup : Type 0 where
  fails : Text → Lookup
  finds : Address → Lookup

-- The result, and `*rval` afterwards.
unfoldable pub real_address : Lookup → Address → Option Text × Address
real_address (fails reason) rval = (some reason, rval)
real_address (finds address) rval = (none, address)

pub record SocketAnswers : Type 0 where
  pub created : Bool
  pub bound : Bool
  pub connected : Bool

-- `err != NULL` ends the program.
abbrev pub resolved : Option Text × Address → Outcome Address
resolved (none, address) = returns address
resolved (some reason, address) = exits

abbrev is_some : Option Address → Bool
is_some none = false
is_some (some a) = true

abbrev with_port : Option Address → ℕ → Option Address
with_port none port = none
with_port (some a) port = some (record a { sin6_port = htons (port % 2 ^ 16) })

-- The result, the sockets, and the two addresses, in which the ports are set.
abbrev pub Created : Type 0
Created = Option ℕ × Sockets × Option Address × Option Address

-- The part from `connect` on, for the descriptor `fd` with the socket `s`.
unfoldable pub connect_socket :
    SocketAnswers → Sockets → ℕ → Socket → Option Address → Option Address → ℕ → Created
connect_socket io k fd s source_addr dest_addr dst_port =
    let dest = with_port dest_addr dst_port in
    let joined : Sockets = record { sockets = set k.sockets fd (record s { peer = dest }) } in
    if not (is_some dest_addr && ltb 0 dst_port)
    then (some fd, k, source_addr, dest_addr)
    else if not io.connected
    then (none, k, source_addr, dest)
    else (some fd, joined, source_addr, dest)

-- On an error after `socket` the descriptor stays open.
unfoldable pub create_socket :
    SocketAnswers → Sockets → Option Address → ℕ → Option Address → ℕ → Created
create_socket io k source_addr src_port dest_addr dst_port =
    let fd = length k.sockets in
    let s : Socket = record { source = none; peer = none } in
    let source = with_port source_addr src_port in
    let s1 = record s { source = source } in
    let k1 : Sockets = record { sockets = k.sockets ++ s ∷ [] } in
    let k2 : Sockets = record { sockets = set k1.sockets fd s1 } in
    if not io.created
    then (none, k, source_addr, dest_addr)
    else if not (is_some source_addr && ltb 0 src_port)
    then connect_socket io k1 fd s source_addr dest_addr dst_port
    else if not io.bound
    then (none, k1, source, dest_addr)
    else connect_socket io k2 fd s1 source dest_addr dst_port

set-append {ℓ} :
    {A : Type ℓ} (xs : List A) (x y : A) → set (xs ++ x ∷ []) (length xs) y ≡ xs ++ y ∷ []
set-append [] x y = refl
set-append (z ∷ xs) x y = ap (◌∷◌ z) (set-append xs x y)

-- Whether an address and a port are given.
abbrev pub given : Option Address → ℕ → Bool
given addr port = is_some addr && ltb 0 port

-- An address with a port: in the memory of a little-endian host the high byte of a port in network
-- order comes first, as the low byte of `sin6_port`.
abbrev pub at_port : Option Address → ℕ → Option Address
at_port none port = none
at_port (some a) port =
    some (record { ip = a.ip; sin6_port = port / 256 % 256 + 256 * (port % 256) })

-- The socket that src/util.h promises: bound to the source if one is given, connected to the
-- destination if one is given, with the ports in network order.
abbrev pub promised : Option Address → ℕ → Option Address → ℕ → Socket
promised source_addr src_port dest_addr dst_port = record {
  source = if given source_addr src_port then at_port source_addr src_port else none;
  peer = if given dest_addr dst_port then at_port dest_addr dst_port else none;
}

-- Whether every system call that is made succeeds.
abbrev pub succeeds : SocketAnswers → Bool → Bool → Bool
succeeds io with_source with_dest =
    io.created && ((not with_source || io.bound) && (not with_dest || io.connected))

-- What a call gives: -1 just if a system call failed, or else the descriptor of a new socket.
abbrev pub Makes : SocketAnswers → Sockets → Bool → Bool → Socket → Created → Type 0
Makes io k with_source with_dest s r =
    ((succeeds io with_source with_dest ≡ false) × (r.0 ≡ none))
    ⊎ ((succeeds io with_source with_dest ≡ true)
        × (r.0 ≡ some (length k.sockets))
        × (r.1.sockets ≡ k.sockets ++ s ∷ []))

with_port-at_port : (addr : Option Address) (port : ℕ) → with_port addr port ≡ at_port addr port
unfolding htons
with_port-at_port none port = refl
with_port-at_port (some a) port =
    let same : port % 2 ^ 16 % 256 * 256 + port % 2 ^ 16 / 256 % 256
        ≡ port / 256 % 256 + 256 * (port % 256) =
      omega arith in
    ap (λ n. some (record { ip = a.ip; sin6_port = n })) same

-- The part from `connect` on, for a socket that was created and bound as far as that was asked for.
connect_socket-Makes :
    (io : SocketAnswers) (k : Sockets) (b : Bool) (s : Socket) (source dest : Option Address)
    (port : ℕ)
    → io.created ≡ true
    → (not b || io.bound) ≡ true
    → s.peer ≡ none
    → Makes io k b
        (given dest port)
        (record s { peer = if given dest port then at_port dest port else none })
        (connect_socket io
          (record { sockets = k.sockets ++ s ∷ [] })
          (length k.sockets)
          s
          source
          dest
          port)
unfolding connect_socket
connect_socket-Makes io k b s source dest port made bound e = elim (Bool-cases (given dest port)) [
  | inr g ↦
      rw (g, made, bound) (inr (refl, refl, ap (λ p. k.sockets ++ record s { peer = p } ∷ []) e))
  | inl g ↦ elim (Bool-cases io.connected) [
    | inr c ↦ rw (g, made, bound, c) (inl (refl, refl))
    | inl c ↦
        rw (g, made, bound, c, ← with_port-at_port dest port)
          (inr (refl, refl, set-append k.sockets s (record s { peer = with_port dest port })))
  ]
]

-- `create_socket` returns -1 just if one of the calls that it makes failed: `socket`, `bind` if a
-- source is given, or `connect` if a destination is given. Else it returns the descriptor of a new
-- socket, which is bound to the source and connected to the destination that are given, each with
-- its port in network order, and leaves the other sockets alone.
pub create_socket-Makes :
    (io : SocketAnswers) (k : Sockets) (source : Option Address) (src_port : ℕ)
    (dest : Option Address) (dst_port : ℕ)
    → Makes io k
        (given source src_port)
        (given dest dst_port)
        (promised source src_port dest dst_port)
        (create_socket io k source src_port dest dst_port)
unfolding create_socket
create_socket-Makes io k source src_port dest dst_port =
    let s : Socket = record { source = none; peer = none } in
    let s1 : Socket = record { source = with_port source src_port; peer = none } in
    elim (Bool-cases io.created) [
      | inr c ↦ rw c (inl (refl, refl))
      | inl c ↦ elim (Bool-cases (given source src_port)) [
        | inr g ↦
            let made = connect_socket-Makes io k false s source dest dst_port c refl refl in
            rw (c, g) (rw c at made)
        | inl g ↦ elim (Bool-cases io.bound) [
          | inr b ↦ rw (c, g, b) (inl (refl, refl))
          | inl b ↦
              let made =
                connect_socket-Makes io k true s1 (with_port source src_port) dest dst_port c b
                  refl in
              rw (c, g, b, set-append k.sockets s s1, ← with_port-at_port source src_port)
                (rw (c, b) at made)
        ]
      ]
    ]
