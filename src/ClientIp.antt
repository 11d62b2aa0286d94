-- ===== src/ClientIp.antt =====
-- internal/adapter/driving/http/middleware/clientip.go and ratelimit_exempt.go: which address a
-- request is attributed to, and which requests are not limited. The package net/netip, and
-- strings.TrimSpace, are arguments. A header is the list of its values; `Get` answers the first.
pub mod Spoofing
pub mod Exemption
use go_rest_api_service_temp.Base.{
  ℕ, String, Bool, true, false, not, ◌||◌, Option, none, some, List, [], ◌∷◌, if◌then◌else◌, ◌=ₛ◌,
  ◌+ₛ◌, any, has_prefix, split, length, ltb,
}
use mathlib.Core.List.{reverse}

-- ParsePrefix and Masked, ParseAddr, ParseAddrPort and Addr, SplitHostPort; PrefixFrom with all
-- the bits of an address; Contains, Unmap, WithZone(""), String.
pub record Netip (Addr Prefix : Type 0) : Type 0 where
  pub parse_prefix : String → Option Prefix
  pub masked : Prefix → Prefix
  pub parse_addr : String → Option Addr
  pub parse_addr_port : String → Option Addr
  pub split_host_port : String → Option String
  pub prefix_from : Addr → Prefix
  pub contains : Prefix → Addr → Bool
  pub unmap : Addr → Addr
  pub without_zone : Addr → Addr
  pub text : Addr → String
  pub trim_space : String → String

-- What is read of an http.Request.
pub record Request : Type 0 where
  pub remote_addr : String
  pub forwarded_for : List String
  pub real_ip : List String
  pub path : String

-- http.Header.Get
unfoldable pub header_get : List String → String
header_get [] = ""
header_get (value ∷ values) = value

module _ {Addr Prefix : Type 0} (net : Netip Addr Prefix) where
  -- ParseIPMatchers, of one entry that is not blank
  unfoldable pub parse_matcher : String → Option Prefix
  parse_matcher entry = elim (net.parse_prefix entry) [
    | some prefix ↦ some (net.masked prefix)
    | none ↦ elim (net.parse_addr entry) [
      | none ↦ none
      | some addr ↦ some (net.prefix_from (net.unmap addr))
    ]
  ]

  unfoldable pub parse_ip_matchers : List String → Option (List Prefix)
  parse_ip_matchers [] = some []
  parse_ip_matchers (raw ∷ entries) =
      let entry = net.trim_space raw in
      let rest = parse_ip_matchers entries in
      if entry =ₛ "" then rest else elim (parse_matcher entry) [
        | none ↦ none
        | some prefix ↦ elim rest [ none ↦ none | some prefixes ↦ some (prefix ∷ prefixes) ]
      ]

  abbrev pub clean : Addr → Addr
  clean addr = net.without_zone (net.unmap addr)

  -- parseChainAddr
  unfoldable pub parse_chain_addr : String → Option Addr
  parse_chain_addr entry =
      let trimmed = net.trim_space entry in
      if trimmed =ₛ "" then none else elim (net.parse_addr trimmed) [
        | some addr ↦ some (clean addr)
        | none ↦ elim (net.parse_addr_port trimmed) [ some addr ↦ some (clean addr) | none ↦ none ]
      ]

  -- peerAddr
  unfoldable pub peer_addr : String → Option Addr
  peer_addr remote_addr = elim (net.parse_addr_port remote_addr) [
    | some addr ↦ some (clean addr)
    | none ↦ elim (net.parse_addr remote_addr) [
      | some addr ↦ some (clean addr)
      | none ↦ elim (net.split_host_port remote_addr) [
        | none ↦ none
        | some host ↦ elim (net.parse_addr host) [ none ↦ none | some addr ↦ some (clean addr) ]
      ]
    ]
  ]

  -- isTrusted; the field `trusted` of the resolver is the first argument.
  unfoldable pub is_trusted : List Prefix → Addr → Bool
  is_trusted trusted addr = any (λ prefix. net.contains prefix (net.unmap addr)) trusted

  -- walkForwardedFor, the loop over the hops from the right; `leftmost` is the last one seen.
  unfoldable pub walk_back :
      List Prefix → (hops : List String) → (leftmost : Option Addr) → Option Addr
  walk_back trusted [] leftmost = leftmost
  walk_back trusted (hop ∷ hops) leftmost = elim (parse_chain_addr hop) [
    | none ↦ none
    | some addr ↦
        let rest = walk_back trusted hops (some addr) in
        if not (is_trusted trusted addr) then some addr else rest
  ]

  unfoldable pub walk_forwarded_for : List Prefix → String → Option Addr
  walk_forwarded_for trusted header = walk_back trusted (reverse (split b',' header)) none

  -- ClientIP
  unfoldable pub client_ip : List Prefix → Request → String
  client_ip trusted r = elim (peer_addr r.remote_addr) [
    | none ↦ r.remote_addr
    | some peer ↦
        if not (is_trusted trusted peer)
        then net.text peer
        else if not (header_get r.forwarded_for =ₛ "")
        then elim (walk_forwarded_for trusted (header_get r.forwarded_for)) [
          | some client ↦ net.text client
          | none ↦ net.text peer
        ]
        else let real_ip = net.trim_space (header_get r.real_ip) in
          if not (real_ip =ₛ "")
          then elim (parse_chain_addr real_ip) [ some addr ↦ net.text addr | none ↦ net.text peer ]
          else net.text peer
  ]
