-- ===== src/Dogstatsd/Address.antt =====
-- dogstatsd.py: mapto_v6 and get_socket_address. The conversions and the resolver of the socket library
-- are parameters.
use mathlib.Core.Logic.{ite}
use dd_agent.Prelude.{
  ℕ, Option, none, some, List, [], ◌∷◌, ◌++◌, Bool, true, false, not, ◌&&◌, if◌then◌else◌,
}
use dd_agent.Prelude.Text.{Text, Text-discrete, codes}

pub data Family : Type 0 where
  inet inet6 : Family

abbrev pub is_inet : Family → Bool
is_inet inet = true
is_inet inet6 = false

-- A socket address: a host and a port, and for IPv6 two more numbers. The host may be None.
pub record SockAddr : Type 0 where
  pub host : Option Text
  pub port : ℕ
  pub rest : Option (ℕ × ℕ)

-- Does inet_pton accept the address, and what does getaddrinfo find? `none` is a gaierror.
pub record Sockets : Type 0 where
  pub inet_pton : Family → Text → Bool
  pub getaddrinfo : Text → ℕ → Family → Option (List (Family × SockAddr))

pub data Address : Type 0 where
  address : SockAddr → Address
  nothing : Address
  index_error : Address

module _ (sockets : Sockets) where
  open sockets use {inet_pton, getaddrinfo}

  unfoldable pub mapto_v6 : Text → Option Text
  mapto_v6 addr =
      if inet_pton inet addr
      then some (codes "::ffff:" ++ addr)
      else if inet_pton inet6 addr
      then some addr
      else none

  -- the answer of the resolver, with the two fallbacks
  unfoldable pub resolve : Text → ℕ → Bool → Option (List (Family × SockAddr))
  unfolding Text-discrete
  resolve host port ipv4_only = elim (getaddrinfo host port inet) [
    | some info ↦ some info
    | none ↦
        if not ipv4_only
        then getaddrinfo host port inet6
        else ite (Text-discrete host (codes "localhost"))
            (getaddrinfo (codes "127.0.0.1") port inet) none
  ]

  -- mapto_v6 of a host
  abbrev mapped : Option Text → Option Text
  mapped none = none
  mapped (some h) = mapto_v6 h

  unfoldable pub get_socket_address : Text → ℕ → Bool → Address
  unfolding resolve mapto_v6
  get_socket_address host port ipv4_only = elim (resolve host port ipv4_only) [
    | none ↦ nothing
    | some [] ↦ index_error
    | some ((family, a) ∷ _) ↦
        if is_inet family && not ipv4_only
        then address (record { host = mapped a.host; port = a.port; rest = some (0, 0) })
        else address a
  ]
