-- ===== src/House/Caller.antt =====
-- internal/house/house.go: whose request it is, behind the proxies that are trusted. Splitting a
-- host from its port, parsing an address and a net's Contains are Go's net package, here arguments.
pub mod Chain
use mathlib.Core.List.{reverse}
use curtilage.Prelude.{
  Bool, true, false, not, List, [], ◌∷◌, ◌++◌, Option, none, some, Text, any, if◌then◌else◌,
}
use curtilage.Strings.{split, trim_space}

-- The addresses and nets of package net, and its functions.
pub record Net (Ip Block : Type 0) : Type 0 where
  pub parse_ip : Text → Option Ip
  pub split_host_port : Text → Option Text
  pub holds : Block → Ip → Bool

module _ {Ip Block : Type 0} (net : Net Ip Block) where
  unfoldable pub in_any : Ip → List Block → Bool
  in_any ip nets = any (λ n. net.holds n ip) nets

  -- The values of the header, split at their commas, in order
  unfoldable pub chain_of : List Text → List Text
  chain_of [] = []
  chain_of (v ∷ vs) = split 44 v ++ chain_of vs

  -- The loop of Caller, over the chain from its right
  unfoldable pub walk : List Block → Ip → List Text → Option Ip
  unfolding in_any
  walk proxies peer [] = some peer
  walk proxies peer (hop ∷ hops) = elim (net.parse_ip (trim_space hop)) [
    | none ↦ none
    | some ip ↦
        let rest = walk proxies peer hops in if not (in_any ip proxies) then some ip else rest
  ]

  -- The first two statements of Caller
  unfoldable pub peer_of : Text → Option Ip
  peer_of remote_addr =
      net.parse_ip (elim (net.split_host_port remote_addr) [ none ↦ remote_addr | some h ↦ h ])

  -- Caller: the remote address and the values of X-Forwarded-For; none is nil.
  unfoldable pub caller : List Block → Text → List Text → Option Ip
  unfolding peer_of chain_of walk
  caller proxies remote_addr forwarded = elim (peer_of remote_addr) [
    | none ↦ none
    | some peer ↦
        if not (in_any peer proxies)
        then some peer
        else walk proxies peer (reverse (chain_of forwarded))
  ]

  -- Allowed
  unfoldable pub allowed : List Block → List Block → Text → List Text → Bool
  unfolding caller
  allowed [] proxies remote_addr forwarded = false
  allowed (n ∷ ns) proxies remote_addr forwarded = elim (caller proxies remote_addr forwarded) [
    | none ↦ false
    | some ip ↦ in_any ip (n ∷ ns)
  ]
