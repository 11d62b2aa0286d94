-- ===== src/ClientIp/Spoofing.antt =====
-- What a caller can write into the forwarding headers without changing the address that its
-- request is attributed to.
use mathlib.Core.List.{reverse, reverse-append}
use Prim.Native.Char.{char}
use text.Mathlib.TextLemmas.{append-eq-nil_iff, cons-ne-nil}
use go_rest_api_service_temp.Base.{
  String, ◌≡◌, refl, ap, ◌∙◌, Bool, true, false, not, Option, none, some, List, [], ◌∷◌, ◌++◌, ◌=ₛ◌,
  ◌+ₛ◌, any, split, split-append, arith, eq_iff, Bool-cases, Option-cases, inl, inr,
}
use go_rest_api_service_temp.ClientIp.{
  Netip, Request, header_get, parse_chain_addr, is_trusted, walk_back, walk_forwarded_for,
  client_ip, peer_addr,
}

module _ {Addr Prefix : Type 0} (net : Netip Addr Prefix) (trusted : List Prefix) where
  -- A hop at which the walk ends: it cannot be read, or is no trusted proxy.
  abbrev pub ends_walk : String → Bool
  ends_walk hop = elim (parse_chain_addr net hop) [
    | none ↦ true
    | some addr ↦ not (is_trusted net trusted addr)
  ]

  walk_back-ended :
      (hops more : List String) (leftmost : Option Addr)
      → any ends_walk hops ≡ true
      → walk_back net trusted (hops ++ more) leftmost ≡ walk_back net trusted hops leftmost
  unfolding walk_back
  walk_back-ended [] more leftmost h = cc
  walk_back-ended (hop ∷ hops) more leftmost h = elim (Option-cases (parse_chain_addr net hop)) [
    | inl malformed ↦ ground arith
    | inr (addr, read) ↦ elim (Bool-cases (is_trusted net trusted addr)) [
      | inr untrusted ↦ ground arith
      | inl known ↦ ground (arith, walk_back-ended hops more (some addr) (ground arith))
    ]
  ]

  -- A request from a peer that is no trusted proxy is attributed to the peer, whatever its headers
  -- say.
  pub client_ip-direct :
      (r : Request) (peer : Addr)
      → peer_addr net r.remote_addr ≡ some peer
      → is_trusted net trusted peer ≡ false
      → client_ip net trusted r ≡ net.text peer
  unfolding client_ip
  client_ip-direct r peer from_peer untrusted = rw (client_ip, from_peer, untrusted) refl

  walk-spoofed :
      (spoofed chain : String)
      → any ends_walk (reverse (split b',' chain)) ≡ true
      → walk_forwarded_for net trusted (spoofed +ₛ "," +ₛ chain)
        ≡ walk_forwarded_for net trusted chain
  unfolding walk_forwarded_for
  walk-spoofed spoofed chain h =
      ap (λ l. walk_back net trusted l none)
        (ap reverse (split-append (char 44 tt) spoofed chain)
          ∙ reverse-append (split b',' spoofed) (split b',' chain))
      ∙ walk_back-ended (reverse (split b',' chain)) (reverse (split b',' spoofed)) none h

  joined-filled : (s t : String) → ((s +ₛ "," +ₛ t) =ₛ "") ≡ false
  joined-filled s t = elim (Bool-cases ((s +ₛ "," +ₛ t) =ₛ "")) [
    | inr filled ↦ filled
    | inl same ↦
        let tail = (append-eq-nil_iff {p = s} {q = "," +ₛ t}).0 ((eq_iff _ "").0 same) in
        let comma : ◌≡◌ {A = String} "," "" = ((append-eq-nil_iff {p = ","} {q = t}).0 tail.1).0 in
        absurd (cons-ne-nil (char 44 tt) "" comma)
  ]

  -- Where the proxies append to the first line of X-Forwarded-For, and what they wrote there is not
  -- empty and has a hop that is no trusted proxy, or cannot be read, neither what the caller wrote
  -- before it in that line nor any further line changes the address. Nothing is said of proxies that
  -- add a line of their own after the caller's.
  pub client_ip-spoofed :
      (r : Request) (spoofed chain : String) (more others : List String)
      → (chain =ₛ "") ≡ false
      → any ends_walk (reverse (split b',' chain)) ≡ true
      → client_ip net trusted (record r { forwarded_for = (spoofed +ₛ "," +ₛ chain) ∷ more })
        ≡ client_ip net trusted (record r { forwarded_for = chain ∷ others })
  unfolding client_ip header_get
  client_ip-spoofed r spoofed chain more others filled h =
      elim (Option-cases (peer_addr net r.remote_addr)) [
        | inl unread ↦ rw (client_ip, unread) refl
        | inr (peer, read) ↦ elim (Bool-cases (is_trusted net trusted peer)) [
          | inr untrusted ↦ rw (client_ip, read, untrusted) refl
          | inl known ↦
              rw
                (
                  client_ip,
                  read,
                  known,
                  header_get,
                  joined-filled spoofed chain,
                  filled,
                  walk-spoofed spoofed chain h,
                )
                refl
        ]
      ]
