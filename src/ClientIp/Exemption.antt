-- ===== src/ClientIp/Exemption.antt =====
-- RateLimitExemptions of internal/adapter/driving/http/middleware/ratelimit_exempt.go.
use go_rest_api_service_temp.Base.{
  String, ◌≡◌, ◌↔◌, ◌⊎◌, inl, inr, Bool, true, false, not, Option, none, some, List, [], ◌∷◌,
  if◌then◌else◌, ◌=ₛ◌, any, has_prefix, arith, is_some, ◌&&◌, length, ◌==◌, Bool-cases,
  Option-cases,
}
use go_rest_api_service_temp.ClientIp.{Netip, Request, client_ip, parse_ip_matchers, parse_matcher}

-- NewRateLimitExemptions makes one; the resolver is its list of trusted networks.
pub record RateLimitExemptions (Prefix : Type 0) : Type 0 where
  pub trusted : List Prefix
  pub excluded : List Prefix
  pub bypass_prefixes : List String

module _ {Addr Prefix : Type 0} (net : Netip Addr Prefix) where
  -- The loop over the prefixes: trimmed, the blank ones dropped.
  unfoldable pub trimmed : List String → List String
  trimmed [] = []
  trimmed (raw ∷ prefixes) =
      let rest = trimmed prefixes in
      let p = net.trim_space raw in if not (p =ₛ "") then p ∷ rest else rest

  -- NewRateLimitExemptions; `none` for an error.
  unfoldable pub new_rate_limit_exemptions :
      (trusted : List Prefix) (excluded_ips bypass_prefixes : List String)
      → Option (RateLimitExemptions Prefix)
  new_rate_limit_exemptions trusted excluded_ips bypass_prefixes =
      elim (parse_ip_matchers net excluded_ips) [
        | none ↦ none
        | some excluded ↦ some (record {
          trusted = trusted;
          excluded = excluded;
          bypass_prefixes = trimmed bypass_prefixes;
        })
      ]

  -- bypassed
  unfoldable pub bypassed : String → List String → Bool
  bypassed path prefixes = any (λ p. has_prefix path p) prefixes

  -- ipExcluded
  unfoldable pub ip_excluded : RateLimitExemptions Prefix → String → Bool
  ip_excluded ref ip = if length ref.excluded == 0 then false else elim (net.parse_addr ip) [
    | none ↦ false
    | some addr ↦ any (λ p. net.contains p (net.unmap addr)) ref.excluded
  ]

  -- Exempt; `none` is the nil receiver.
  unfoldable pub exempt : Option (RateLimitExemptions Prefix) → Request → Bool
  exempt none r = false
  exempt (some ref) r =
      if bypassed r.path ref.bypass_prefixes
      then true
      else ip_excluded ref (client_ip net ref.trusted r)

  -- Wrap: a limiter and the next handler are functions on the state.
  unfoldable pub wrap :
      {W : Type 0}
      → Option (RateLimitExemptions Prefix)
      → (limiter : Option ((next : W → W) → Request → W → W)) → (next : W → W) → Request
      → W
      → W
  wrap ref none next r w = next w
  wrap ref (some limiter) next r w = if exempt ref r then next w else limiter next r w

  -- An entry that is not blank and is neither a CIDR block nor an address
  abbrev pub is_bad : String → Bool
  is_bad raw =
      not (net.trim_space raw =ₛ "") && not (is_some (parse_matcher net (net.trim_space raw)))

  -- A list of networks is refused exactly when one of its entries that are not blank is neither a
  -- CIDR block nor an address: no entry is dropped in silence.
  pub parse_ip_matchers_iff :
      (entries : List String) → (parse_ip_matchers net entries ≡ none) ↔ (any is_bad entries ≡ true)
  unfolding parse_ip_matchers
  parse_ip_matchers_iff [] = (λ h. cc, λ h. cc)
  parse_ip_matchers_iff (raw ∷ entries) =
      let rest = parse_ip_matchers_iff entries in ground (arith, rest)

  -- A request is exempt exactly when its path starts with one of the trimmed prefixes, or the
  -- address that it is attributed to can be read and lies in an excluded network.
  pub exempt_iff :
      (ref : RateLimitExemptions Prefix) (r : Request)
      → (exempt (some ref) r ≡ true) ↔ (
          (any (λ p. has_prefix r.path p) ref.bypass_prefixes ≡ true)
          ⊎ ((addr : Addr) × (net.parse_addr (client_ip net ref.trusted r) ≡ some addr)
              × (any (λ p. net.contains p (net.unmap addr)) ref.excluded ≡ true)))
  unfolding exempt bypassed ip_excluded
  exempt_iff ref r = (to, from)
    where
      to :
          exempt (some ref) r ≡ true
          → (any (λ p. has_prefix r.path p) ref.bypass_prefixes ≡ true)
            ⊎ ((addr : Addr) × (net.parse_addr (client_ip net ref.trusted r) ≡ some addr)
                × (any (λ p. net.contains p (net.unmap addr)) ref.excluded ≡ true))
      to h = elim (Bool-cases (any (λ p. has_prefix r.path p) ref.bypass_prefixes)) [
        | inl by_path ↦ inl by_path
        | inr other ↦ elim (Option-cases (net.parse_addr (client_ip net ref.trusted r))) [
          | inl unread ↦ absurd (ground arith)
          | inr (addr, read) ↦ inr (addr, read, ground arith)
        ]
      ]

      from :
          (any (λ p. has_prefix r.path p) ref.bypass_prefixes ≡ true)
            ⊎ ((addr : Addr) × (net.parse_addr (client_ip net ref.trusted r) ≡ some addr)
                × (any (λ p. net.contains p (net.unmap addr)) ref.excluded ≡ true))
          → exempt (some ref) r ≡ true
      from (inl by_path) = ground arith
      from (inr (addr, read, inside)) = ground (arith, filled ref.excluded inside)
        where
          filled :
              (ps : List Prefix)
              → any (λ p. net.contains p (net.unmap addr)) ps ≡ true
              → (length ps == 0) ≡ false
          filled [] h = cc
          filled (p ∷ ps) h = ground arith
