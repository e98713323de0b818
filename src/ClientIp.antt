-- ===== src/ClientIp.antt =====
-- client_ip.rs: the address that a request comes from. A text is the list of its characters' codes;
-- a header value that is not visible ASCII has no text. The address parsers of std::net, with their
-- printers, are a parameter.
pub mod Forwarded
mod Tests
use hydra_server.Shared.{
  ℕ, suc, String, ◌+◌, ◌-◌, Bool, true, false, not, ◌&&◌, ◌||◌, Option, none, some, List, [], ◌∷◌,
  ◌++◌, map, length, get_elem?, select, if◌then◌else◌, ltb, leb, nat_eq,
}
use hydra_server.CloudSaves.Request.{codes}

abbrev pub Text : Type 0
Text = List ℕ

abbrev pub same_text : Text → Text → Bool
same_text [] [] = true
same_text [] (d ∷ t) = false
same_text (c ∷ s) [] = false
same_text (c ∷ s) (d ∷ t) = nat_eq c d && same_text s t

-- A header's name is in lower case, as `HeaderMap` has it.
pub record Header : Type 0 where
  pub name : Text
  pub value : Option Text

pub record Config : Type 0 where
  pub trust_proxy_headers : Bool
  pub client_ip_header : Text
  pub trusted_proxy_hops : ℕ

-- `parse::<IpAddr>` and `parse::<SocketAddr>`, each with the print of the address that it finds.
pub record Addresses : Type 0 where
  pub ip_of : Text → Option Text
  pub socket_ip_of : Text → Option Text

pub record Resolved : Type 0 where
  pub ip : Text
  pub source : Text

abbrev pub cloudflare : Text
cloudflare = codes "cf-connecting-ip"

abbrev pub true_client : Text
true_client = codes "true-client-ip"

abbrev pub x_forwarded_for : Text
x_forwarded_for = codes "x-forwarded-for"

abbrev pub real_ip : Text
real_ip = codes "x-real-ip"

abbrev pub comma : ℕ
comma = b','

-- The white space that visible ASCII and tabs leave room for.
abbrev is_space : ℕ → Bool
is_space c = (leb 9 c && leb c 13) || nat_eq c 32

abbrev pub is_empty : Text → Bool
is_empty [] = true
is_empty (c ∷ s) = false

abbrev trim_start : Text → Text
trim_start [] = []
trim_start (c ∷ s) = let rest = trim_start s in if is_space c then rest else c ∷ s

abbrev trim_end : Text → Text
trim_end [] = []
trim_end (c ∷ s) = let rest = trim_end s in if is_space c && is_empty rest then [] else c ∷ rest

unfoldable pub trim : Text → Text
trim s = trim_end (trim_start s)

abbrev pub push : ℕ → List Text → List Text
push c [] = (c ∷ []) ∷ []
push c (w ∷ ws) = (c ∷ w) ∷ ws

-- `value.split(',')`
unfoldable pub split : Text → List Text
split [] = [] ∷ []
split (c ∷ s) = let rest = split s in if nat_eq c comma then [] ∷ rest else push c rest

-- `raw.strip_prefix('[')` and `rest.strip_suffix(']')`
abbrev strip_suffix : Text → Option Text
strip_suffix [] = none
strip_suffix (c ∷ []) = if nat_eq c b']' then some [] else none
strip_suffix (c ∷ d ∷ s) = elim (strip_suffix (d ∷ s)) [ none ↦ none | some rest ↦ some (c ∷ rest) ]

abbrev unbracketed : Text → Option Text
unbracketed [] = none
unbracketed (c ∷ s) = if nat_eq c b'[' then strip_suffix s else none

abbrev or_else : Option Text → Option Text → Option Text
or_else none next = next
or_else (some t) next = some t

abbrev and_then : Option Text → (Text → Option Text) → Option Text
and_then none f = none
and_then (some t) f = f t

unfoldable pub parse_address : Addresses → Text → Option Text
unfolding trim
parse_address addresses raw =
    let t = trim raw in
    if is_empty t
    then none
    else or_else (addresses.ip_of t)
        (or_else (addresses.socket_ip_of t) (and_then (unbracketed t) addresses.ip_of))

-- The texts of a header's lines, in their order (`get_all`, less those without a text).
unfoldable pub values : Text → List Header → List Text
values name [] = []
values name (h ∷ headers) =
    let rest = values name headers in
    if same_text h.name name then elim h.value [ none ↦ rest | some t ↦ t ∷ rest ] else rest

-- The entries of one value that are not blank.
unfoldable pub entries : Text → List Text
unfolding split trim
entries value = select (λ e. not (is_empty e)) (map trim (split value))

unfoldable pub chain_of : List Text → List Text
unfolding entries
chain_of [] = []
chain_of (v ∷ vs) = entries v ++ chain_of vs

unfoldable pub forwarded_for : Addresses → List Header → ℕ → Option Text
unfolding chain_of values parse_address
forwarded_for addresses headers hops =
    let chain = chain_of (values x_forwarded_for headers) in
    if ltb (length chain) (1 + hops)
    then none
    else and_then (get_elem? chain (length chain - (1 + hops))) (parse_address addresses)

abbrev first_line : Text → List Header → Option Text
first_line name [] = none
first_line name (h ∷ headers) =
    let rest = first_line name headers in if same_text h.name name then h.value else rest

abbrev head_of : List Text → Option Text
head_of [] = none
head_of (w ∷ ws) = some w

unfoldable pub first_address : Addresses → List Header → Text → Option Text
unfolding split parse_address
first_address addresses headers name =
    and_then (first_line name headers) (λ v. and_then (head_of (split v)) (parse_address addresses))

-- The answer by an address that was found, or the next way to find one.
abbrev pub found : Option Text → Text → Resolved → Resolved
found none source next = next
found (some ip) source next = record { ip = ip; source = source }

abbrev to_lower : ℕ → ℕ
to_lower c = if leb b'A' c && leb c b'Z' then c + 32 else c

abbrev pub peer : Option Text → Resolved
peer none = record { ip = codes "unknown"; source = codes "peer address" }
peer (some ip) = record { ip = ip; source = codes "peer address" }

-- `socket` is the print of the peer's address, where there is one.
unfoldable pub resolve : Addresses → Config → List Header → Option Text → Resolved
unfolding first_address forwarded_for
resolve addresses config headers socket =
    let named = map to_lower config.client_ip_header in
    if not config.trust_proxy_headers
    then peer socket
    else if not (is_empty config.client_ip_header)
    then found (first_address addresses headers named) named (peer socket)
    else found (first_address addresses headers cloudflare) cloudflare (
        found (first_address addresses headers true_client) true_client (
          found (forwarded_for addresses headers config.trusted_proxy_hops) x_forwarded_for
            (found (first_address addresses headers real_ip) real_ip (peer socket))))
