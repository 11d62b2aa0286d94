-- ===== src/Tests/Requests.antt =====
-- Client addresses, over addresses that are texts.
use go_rest_api_service_temp.Base.{
  ◌≡◌, refl, String, Option, none, some, List, [], ◌∷◌, if◌then◌else◌, ◌=ₛ◌, ◌+ₛ◌, split,
}
use go_rest_api_service_temp.ClientIp.{
  Netip, Request, client_ip, peer_addr, is_trusted, parse_chain_addr, walk_forwarded_for, walk_back,
  header_get,
}
use go_rest_api_service_temp.ClientIp.Spoofing.{client_ip-spoofed}
use go_rest_api_service_temp.ClientIp.Exemption.{RateLimitExemptions}

-- Every text but "unknown" and the empty one is an address, and a network of itself alone.
abbrev read : String → Option String
read s = if s =ₛ "unknown" then none else if s =ₛ "" then none else some s

abbrev net : Netip String String
net = record {
  parse_prefix = read;
  masked = λ p. p;
  parse_addr = read;
  parse_addr_port = read;
  split_host_port = λ s. none;
  prefix_from = λ a. a;
  contains = λ p a. p =ₛ a;
  unmap = λ a. a;
  without_zone = λ a. a;
  text = λ a. a;
  trim_space = λ s. s;
}

abbrev direct : Request
direct = record {
  remote_addr = "1.1.1.1";
  forwarded_for = "9.9.9.9" ∷ [];
  real_ip = "8.8.8.8" ∷ [];
  path = "/models";
}

abbrev proxied : Request
proxied = record { remote_addr = "10.0.0.1"; forwarded_for = []; real_ip = []; path = "/models" }

abbrev trusted : List String
trusted = "10.0.0.1" ∷ "10.0.0.2" ∷ []

program : Unit {0}
unfolding client_ip peer_addr is_trusted parse_chain_addr walk_forwarded_for walk_back header_get
    split
program = tt

client_ip-spoofed_example :
    client_ip net trusted
      (record proxied { forwarded_for = ("6.6.6.6" +ₛ "," +ₛ "7.7.7.7,10.0.0.2") ∷ "8.8.8.8" ∷ [] })
    ≡ client_ip net trusted (record proxied { forwarded_for = "7.7.7.7,10.0.0.2" ∷ [] })
unfolding program
client_ip-spoofed_example =
    client_ip-spoofed net trusted proxied "6.6.6.6" "7.7.7.7,10.0.0.2" ("8.8.8.8" ∷ []) [] refl refl

forwarded :
    client_ip net trusted (record proxied { forwarded_for = "7.7.7.7,10.0.0.2" ∷ [] }) ≡ "7.7.7.7"
unfolding program
forwarded = refl

abbrev exemptions : RateLimitExemptions String
exemptions = record {
  trusted = trusted;
  excluded = "1.1.1.1" ∷ [];
  bypass_prefixes = "/health" ∷ [];
}
