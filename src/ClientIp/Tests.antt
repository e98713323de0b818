-- ===== src/ClientIp/Tests.antt =====
-- A forged entry before the one of our proxy.
use hydra_server.Shared.{◌≡◌, refl, true, ◌||◌, if◌then◌else◌, none, some, [], ◌∷◌}
use hydra_server.CloudSaves.Request.{codes}
use hydra_server.ClientIp.{
  Text, Header, x_forwarded_for, Config, Addresses, entries, parse_address, forwarded_for,
  same_text,
}
use hydra_server.ClientIp.Forwarded.{forwarded, unreadable, forwarded_for-own}

abbrev ours : Text
ours = codes "203.0.113.7"

abbrev forged : Text
forged = codes "1.1.1.1"

-- A parser that knows two addresses.
abbrev two_addresses : Addresses
two_addresses = record {
  ip_of = λ t. if same_text t ours || same_text t forged then some t else none;
  socket_ip_of = λ t. none;
}

ours_alone : entries ours ≡ ours ∷ []
unfolding entries
ours_alone = refl

-- A line of the visitor's, before the one that our proxy extends.
abbrev claims : Header
claims = record { name = x_forwarded_for; value = some forged }

forwarded_for-own_example :
    (forwarded_for two_addresses (claims ∷ forwarded forged ours ∷ []) 0
      ≡ parse_address two_addresses ours)
    × (forwarded_for two_addresses (claims ∷ unreadable ∷ []) 0
        ≡ forwarded_for two_addresses (claims ∷ []) 0)
forwarded_for-own_example =
    forwarded_for-own two_addresses (claims ∷ []) forged ours ours [] ours_alone

ours_parsed : parse_address two_addresses ours ≡ some ours
unfolding parse_address
ours_parsed = refl

abbrev trusting : Config
trusting = record { trust_proxy_headers = true; client_ip_header = []; trusted_proxy_hops = 0 }
