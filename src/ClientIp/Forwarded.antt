-- ===== src/ClientIp/Forwarded.antt =====
-- What a visitor can make of the address that is recorded for it.
use hydra_server.Shared.{
  ℕ, suc, ◌+◌, ◌-◌, ◌≡◌, refl, ap, sym, ◌∙◌, false, not, ◌⊎◌, inl, inr, Option, none, some, List,
  [], ◌∷◌, ◌++◌, map, length, length-append, get_elem?, select-append, arith, ltb, nat_eq,
  Bool-cases, Option-cases,
}
use mathlib.Core.List.{append_assoc, map-append, append-nil}
use hydra_server.ClientIp.{
  Text, Header, Config, Addresses, Resolved, comma, x_forwarded_for, split, trim, is_empty, entries,
  chain_of, values, parse_address, and_then, first_line, head_of, to_lower, cloudflare, true_client,
  real_ip, forwarded_for, first_address, found, peer, resolve, same_text,
}

-- A split has a first piece.
split-cons : (s : Text) → (w : Text) × (ws : List Text) × (split s ≡ w ∷ ws)
unfolding split
split-cons [] = ([], [], refl)
split-cons (c ∷ s) = elim (Bool-cases (nat_eq c comma)) [
  | inl y ↦ ([], split s, rw (y, split) refl)
  | inr n ↦ let (w, ws, e) = split-cons s in (c ∷ w, ws, rw (n, split) (rw e refl))
]

-- A comma parts the pieces before it from those after it.
split-comma : (a b : Text) → split (a ++ comma ∷ b) ≡ split a ++ split b
unfolding split
split-comma [] b = refl
split-comma (c ∷ a) b = elim (Bool-cases (nat_eq c comma)) [
  | inl y ↦ rw (y, split) (ap (λ (l : List Text). [] ∷ l) (split-comma a b))
  | inr n ↦ let (w, ws, e) = split-cons a in rw (n, split) (rw (split-comma a b) (rw e refl))
]

entries-comma : (a b : Text) → entries (a ++ comma ∷ b) ≡ entries a ++ entries b
unfolding entries
entries-comma a b =
    rw (entries, split-comma a b)
      (rw (map-append trim (split a) (split b))
        (select-append (λ e. not (is_empty e)) (map trim (split a)) (map trim (split b))))

values-append :
    (name : Text) (a b : List Header) → values name (a ++ b) ≡ values name a ++ values name b
unfolding values
values-append name [] b = refl
values-append name (h ∷ a) b = elim (Bool-cases (same_text h.name name)) [
  | inl y ↦ elim (Option-cases h.value) [
    | inl k ↦ rw (y, values) (rw k (values-append name a b))
    | inr (t, k) ↦ rw (y, values) (rw k (ap (λ (l : List Text). t ∷ l) (values-append name a b)))
  ]
  | inr n ↦ rw (n, values) (values-append name a b)
]

chain_of-append : (a b : List Text) → chain_of (a ++ b) ≡ chain_of a ++ chain_of b
unfolding chain_of
chain_of-append [] b = refl
chain_of-append (v ∷ a) b =
    ap (λ (l : List Text). entries v ++ l) (chain_of-append a b)
    ∙ sym (append_assoc (entries v) (chain_of a) (chain_of b))

get_elem?-append :
    (a : List Text) (e : Text) (b : List Text) → get_elem? (a ++ e ∷ b) (length a) ≡ some e
get_elem?-append [] e b = refl
get_elem?-append (x ∷ a) e b = get_elem?-append a e b

-- The last line of a list of forwarded addresses, which `to_str` reads, and of which our own proxies
-- wrote the part after `claimed`.
abbrev pub forwarded : Text → Text → Header
forwarded claimed own = record { name = x_forwarded_for; value = some (claimed ++ comma ∷ own) }

-- The same where `to_str` refuses the line, for a byte in either part.
abbrev pub unreadable : Header
unreadable = record { name = x_forwarded_for; value = none }

values-unreadable :
    (before : List Header)
    → values x_forwarded_for (before ++ unreadable ∷ []) ≡ values x_forwarded_for before
unfolding values
values-unreadable before =
    values-append x_forwarded_for before (unreadable ∷ [])
    ∙ append-nil (values x_forwarded_for before)

chain-forwarded :
    (before : List Header) (claimed own : Text)
    → (a : List Text) × (chain_of (values x_forwarded_for (before ++ forwarded claimed own ∷ []))
        ≡ a ++ entries own)
unfolding values chain_of
chain-forwarded before claimed own = (
  chain_of (values x_forwarded_for before) ++ entries claimed,
  ap chain_of (values-append x_forwarded_for before (forwarded claimed own ∷ []))
      ∙ chain_of-append (values x_forwarded_for before) ((claimed ++ comma ∷ own) ∷ [])
      ∙ ap (λ (l : List Text). chain_of (values x_forwarded_for before) ++ (l ++ []))
          (entries-comma claimed own)
      ∙ ap (λ (l : List Text). chain_of (values x_forwarded_for before) ++ l)
          (append-nil (entries claimed ++ entries own))
      ∙ sym
          (append_assoc (chain_of (values x_forwarded_for before)) (entries claimed) (entries own)),
)

-- Where our proxies wrote the end of the last line of `X-Forwarded-For`, with one entry more than the
-- configured hops, and `to_str` reads that line, the address is read from the first of those entries,
-- whatever the visitor sent before them in that line or in others. Where `to_str` refuses the line, as
-- it does for one byte of the visitor's that is not visible ASCII, our entries are dropped with it, and
-- the address is what the lines before it give.
pub forwarded_for-own :
    (addresses : Addresses) (before : List Header) (claimed own entry : Text) (rest : List Text)
    → entries own ≡ entry ∷ rest
    → (forwarded_for addresses (before ++ forwarded claimed own ∷ []) (length rest)
        ≡ parse_address addresses entry)
      × (forwarded_for addresses (before ++ unreadable ∷ []) (length rest)
          ≡ forwarded_for addresses before (length rest))
unfolding forwarded_for
forwarded_for-own addresses before claimed own entry rest e =
    let (a, c) = chain-forwarded before claimed own in
    let chain : chain_of (values x_forwarded_for (before ++ forwarded claimed own ∷ []))
        ≡ a ++ entry ∷ rest =
      rw (← e) c in
    let n : length (a ++ entry ∷ rest) ≡ length a + suc (length rest) =
      length-append a (entry ∷ rest) in
    let enough : ltb (length (a ++ entry ∷ rest)) (1 + length rest) ≡ false = ground (arith, n) in
    let at : length (a ++ entry ∷ rest) - (1 + length rest) ≡ length a = omega (arith, n) in
    (
      rw (forwarded_for, chain, enough, at, get_elem?-append a entry rest) refl,
      rw (forwarded_for, values-unreadable before) refl,
    )

and_then-some :
    (o : Option Text) (f : Text → Option Text) (b : Text)
    → and_then o f ≡ some b
    → (a : Text) × (f a ≡ some b)
and_then-some none f b e = cc
and_then-some (some a) f b e = (a, e)

module _ (addresses : Addresses) where
  -- What the parser can answer.
  abbrev IsParsed : Text → Type 0
  IsParsed ip = (raw : Text) × (parse_address addresses raw ≡ some ip)

  first_address-IsParsed :
      (headers : List Header) (name ip : Text)
      → first_address addresses headers name ≡ some ip
      → IsParsed ip
  unfolding first_address
  first_address-IsParsed headers name ip e =
      let (v, k) =
        and_then-some (first_line name headers)
          (λ v. and_then (head_of (split v)) (parse_address addresses)) ip e in
      and_then-some (head_of (split v)) (parse_address addresses) ip k

  forwarded_for-IsParsed :
      (headers : List Header) (hops : ℕ) (ip : Text)
      → forwarded_for addresses headers hops ≡ some ip
      → IsParsed ip
  unfolding forwarded_for
  forwarded_for-IsParsed headers hops ip e =
      elim (Bool-cases (ltb (length (chain_of (values x_forwarded_for headers))) (1 + hops))) [
        | inl y ↦ absurd (cc (rw (forwarded_for, y) at e))
        | inr n ↦
            and_then-some
              (get_elem? (chain_of (values x_forwarded_for headers))
                (length (chain_of (values x_forwarded_for headers)) - (1 + hops)))
              (parse_address addresses) ip (rw (forwarded_for, n) at e)
      ]

  found-IsParsed :
      (o : Option Text) (source peer_ip : Text) (next : Resolved)
      → ((ip : Text) → o ≡ some ip → IsParsed ip)
      → (next.ip ≡ peer_ip) ⊎ IsParsed next.ip
      → ((found o source next).ip ≡ peer_ip) ⊎ IsParsed (found o source next).ip
  found-IsParsed none source peer_ip next h k = k
  found-IsParsed (some ip) source peer_ip next h k = inr (h ip refl)

-- The address that is recorded is the peer's, or what the parser read out of some text of the
-- request: no text that is not an address becomes one.
pub resolve-parsed :
    (addresses : Addresses) (config : Config) (headers : List Header) (socket : Option Text)
    → ((resolve addresses config headers socket).ip ≡ (peer socket).ip)
      ⊎ ((raw : Text) × (parse_address addresses raw
            ≡ some (resolve addresses config headers socket).ip))
unfolding resolve
resolve-parsed addresses config headers socket =
    let named = map to_lower config.client_ip_header in
    elim (Bool-cases config.trust_proxy_headers) [
      | inr u ↦ rw (resolve, u) (inl refl)
      | inl t ↦ elim (Bool-cases (is_empty config.client_ip_header)) [
        | inr n ↦
            rw (resolve, t, n)
              (found-IsParsed addresses (first_address addresses headers named) named
                (peer socket).ip (peer socket)
                (λ ip e. first_address-IsParsed addresses headers named ip e) (inl refl))
        | inl n ↦
            rw (resolve, t, n)
              (found-IsParsed addresses _ cloudflare (peer socket).ip _
                (λ ip e. first_address-IsParsed addresses headers cloudflare ip e)
                (found-IsParsed addresses _ true_client (peer socket).ip _
                  (λ ip e. first_address-IsParsed addresses headers true_client ip e)
                  (found-IsParsed addresses _ x_forwarded_for (peer socket).ip _
                    (λ ip e.
                      forwarded_for-IsParsed addresses headers config.trusted_proxy_hops ip e)
                    (found-IsParsed addresses _ real_ip (peer socket).ip (peer socket)
                      (λ ip e. first_address-IsParsed addresses headers real_ip ip e) (inl refl)))))
      ]
    ]
