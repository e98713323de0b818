-- ===== src/Combined/Placed.antt =====
-- combined_achievements.rs: what the loops over the copies leave in the map of groups.
use mathlib.Core.List.{append-nil, append_assoc}
use hydra_server.Shared.{
  ℕ, zero, suc, String, ◌-◌, ◌≡◌, refl, sym, ap, ◌∙◌, true, false, ◌&&◌, Option, none, some, List,
  [], ◌∷◌, ◌++◌, arith, if◌then◌else◌, nat_eq, nat_eq_iff, ltb, ◌==◌, str-eq, str_refl, Bool-cases,
  inl, inr,
}
use hydra_server.Json.{Json}
use hydra_server.Combined.Lookups.{Named, named_value}
use hydra_server.Combined.Groups.{
  Alphabet, Copy, Grouping, group_key, paired, occurrence, bump, counted_key, placed, push_variant,
  place, place_all, place_copies, definitions_of, fallback_of, is_none_left,
}
use hydra_server.Combined.Keys.{group_key-injective}

-- The variants of the pairing key among the definitions of a copy, in their order.
abbrev pub variant_at : String → Option (String × Json) → List Json
variant_at base none = []
variant_at base (some (k, v)) = if k == base then v ∷ [] else []

unfoldable pub variants_named : Alphabet → Copy → String → List Json → List Json
variants_named abc copy base [] = []
variants_named abc copy base (d ∷ ds) =
    variant_at base (paired abc copy d) ++ variants_named abc copy base ds

-- The n-th of a list, as a list of one or none.
abbrev pub nth : {A : Type 0} → ℕ → List A → List A
nth n [] = []
nth zero (x ∷ xs) = x ∷ []
nth (suc n) (x ∷ xs) = nth n xs

-- What a copy shows: its own definitions, or those it borrows where it has none.
abbrev pub or_borrowed : List Json → List Json → List Json
or_borrowed borrowed [] = borrowed
or_borrowed borrowed (d ∷ ds) = d ∷ ds

-- The definitions of the first copy that has some.
unfoldable pub first_defined : List Copy → List Json
first_defined [] = []
first_defined (copy ∷ copies) = or_borrowed (first_defined copies) copy.definitions

or_borrowed-if :
    (borrowed own : List Json)
    → (if is_none_left own then borrowed else own) ≡ or_borrowed borrowed own
or_borrowed-if borrowed [] = refl
or_borrowed-if borrowed (d ∷ ds) = refl

pub fallback_of-first_defined : (copies : List Copy) → fallback_of copies ≡ first_defined copies
unfolding fallback_of first_defined
fallback_of-first_defined [] = refl
fallback_of-first_defined (copy ∷ copies) =
    ap (λ (l : List Json). if is_none_left copy.definitions then l else copy.definitions)
      (fallback_of-first_defined copies)
    ∙ or_borrowed-if (first_defined copies) copy.definitions

-- For each copy, its n-th achievement of the pairing key.
unfoldable pub paired_variants : Alphabet → List Json → String → ℕ → List Copy → List Json
unfolding variants_named
paired_variants abc fallback base n [] = []
paired_variants abc fallback base n (copy ∷ copies) =
    nth n (variants_named abc copy base (or_borrowed fallback copy.definitions))
    ++ paired_variants abc fallback base n copies

abbrev pub items : Option (List Json) → List Json
items none = []
items (some vs) = vs

-- What a map of groups holds at a key.
abbrev pub held : String → Named (List Json) → List Json
held key m = items (named_value key m)

held-push :
    (key : String) (v : Json) (m : Named (List Json)) (other : String)
    → held other (push_variant key v m) ≡ held other m ++ (if key == other then v ∷ [] else [])
held-push key v [] other = ground arith
held-push key v ((k, vs) ∷ m) other = ground (
  arith,
  held-push key v m other,
  str-eq k key,
  str-eq k other,
  str-eq key other,
  append-nil vs,
  append-nil (held other m),
)

occurrence-bump :
    (base : String) (m : Named ℕ) (other : String)
    → occurrence other (bump base m)
      ≡ (if base == other then suc (occurrence other m) else occurrence other m)
occurrence-bump base [] other = ground arith
occurrence-bump base ((k, n) ∷ m) other =
    ground (arith, occurrence-bump base m other, str-eq k base, str-eq k other, str-eq base other)

-- What is still owed at the key, when `seen` of the pairing key have been.
abbrev owed : ℕ → ℕ → List Json → List Json
owed n seen vs = if ltb n seen then [] else nth (n - seen) vs

owed-step :
    (n o : ℕ) (v : Json) (vs : List Json)
    → (if nat_eq o n then v ∷ [] else []) ++ owed n (suc o) vs ≡ owed n o (v ∷ vs)
owed-step n o v vs = elim (Bool-cases (ltb n o)) [
  | inl y ↦ ground arith
  | inr k ↦ elim (Bool-cases (nat_eq o n)) [
    | inl e ↦
        let z : n - o ≡ 0 = ground arith in
        let l : ltb n (suc o) ≡ true = ground arith in rw (e, k, z, l) refl
    | inr d ↦
        let z : n - o ≡ suc (n - suc o) = ground arith in
        let l : ltb n (suc o) ≡ false = ground arith in rw (d, k, z, l) refl
  ]
]

key-eq :
    (b base : String) (m n : ℕ) → (group_key b m == group_key base n) ≡ ((b == base) && nat_eq m n)
key-eq b base m n = elim (Bool-cases (group_key b m == group_key base n)) [
  | inl y ↦
      let (p, q) = group_key-injective b base m n ((str-eq _ _).0 y) in
      rw y (ground (arith, (str-eq b base).1 p, (nat_eq_iff m n).1 q))
  | inr k ↦ elim (Bool-cases ((b == base) && nat_eq m n)) [
    | inr d ↦ k ∙ sym d
    | inl y ↦
        let p : b ≡ base = (str-eq b base).0 (ground arith) in
        let q : m ≡ n = (nat_eq_iff m n).0 (ground arith) in
        absurd (cc (rw (p, q, str_refl (group_key base n)) at k))
  ]
]

append_owed :
    (hs vs : List Json) (n o : ℕ) (v : Json)
    → (hs ++ (if nat_eq o n then v ∷ [] else [])) ++ owed n (suc o) vs ≡ hs ++ owed n o (v ∷ vs)
append_owed hs vs n o v =
    append_assoc hs (if nat_eq o n then v ∷ [] else []) (owed n (suc o) vs)
    ∙ ap (λ (l : List Json). hs ++ l) (owed-step n o v vs)

-- One definition moves its variant from what is owed to what is held.
placed-held :
    (p : Option (String × Json)) (seen : Named ℕ) (g : Grouping) (base : String) (n : ℕ)
    (vs : List Json)
    → held (group_key base n) (placed p seen g).groups
        ++ owed n (occurrence base (counted_key p seen)) vs
      ≡ held (group_key base n) g.groups ++ owed n (occurrence base seen) (variant_at base p ++ vs)
unfolding place
placed-held none seen g base n vs = refl
placed-held (some (b, v)) seen g base n vs =
    let o = occurrence b seen in
    let key = group_key base n in
    let hs = held key g.groups in
    let put : held key (push_variant (group_key b o) v g.groups)
        ≡ hs ++ (if (b == base) && nat_eq o n then v ∷ [] else []) =
      rw (key-eq b base o n) at (held-push (group_key b o) v g.groups key) in
    let after = occurrence base (bump b seen) in
    let count = occurrence-bump b seen base in
    elim (Bool-cases (b == base)) [
      | inl y ↦
          let q : o ≡ occurrence base seen = ap (λ t. occurrence t seen) ((str-eq b base).0 y) in
          let c : after ≡ suc o = rw y at count ∙ ap suc (sym q) in
          let a : held key (push_variant (group_key b o) v g.groups)
              ≡ hs ++ (if nat_eq o n then v ∷ [] else []) =
            rw y at put in
          rw y (
            ap (λ (l : List Json). l ++ owed n after vs) a
            ∙ ap (λ m. (hs ++ (if nat_eq o n then v ∷ [] else [])) ++ owed n m vs) c
            ∙ append_owed hs vs n o v
            ∙ ap (λ m. hs ++ owed n m (v ∷ vs)) q)
      | inr k ↦
          let c : after ≡ occurrence base seen = rw k at count in
          let a : held key (push_variant (group_key b o) v g.groups) ≡ hs ++ [] = rw k at put in
          rw k (
            ap (λ (l : List Json). l ++ owed n after vs) (a ∙ append-nil hs)
            ∙ ap (λ m. hs ++ owed n m vs) c)
    ]

owed-none : (n : ℕ) (vs : List Json) → owed n 0 vs ≡ nth n vs
owed-none n vs =
    let z : n - 0 ≡ n = omega arith in let l : ltb n 0 ≡ false = ground arith in rw (l, z) refl

place_all-held :
    (abc : Alphabet) (copy : Copy) (ds : List Json) (seen : Named ℕ) (g : Grouping) (base : String)
    (n : ℕ)
    → held (group_key base n) (place_all abc copy ds seen g).groups
      ≡ held (group_key base n) g.groups
        ++ owed n (occurrence base seen) (variants_named abc copy base ds)
unfolding place_all variants_named
place_all-held abc copy [] seen g base n =
    ground (arith, append-nil (held (group_key base n) g.groups))
place_all-held abc copy (d ∷ ds) seen g base n =
    let p = paired abc copy d in
    place_all-held abc copy ds (counted_key p seen) (placed p seen g) base n
    ∙ placed-held p seen g base n (variants_named abc copy base ds)

pub place_copies-held :
    (abc : Alphabet) (fallback : List Json) (copies : List Copy) (g : Grouping) (base : String)
    (n : ℕ)
    → held (group_key base n) (place_copies abc fallback copies g).groups
      ≡ held (group_key base n) g.groups ++ paired_variants abc fallback base n copies
unfolding place_copies paired_variants
place_copies-held abc fallback [] g base n = sym (append-nil (held (group_key base n) g.groups))
place_copies-held abc fallback (copy ∷ copies) g base n =
    let ds = definitions_of fallback copy in
    let shown : ds ≡ or_borrowed fallback copy.definitions =
      or_borrowed-if fallback copy.definitions in
    let vs = variants_named abc copy base (or_borrowed fallback copy.definitions) in
    let first : held (group_key base n) (place_all abc copy ds [] g).groups
        ≡ held (group_key base n) g.groups ++ nth n vs =
      place_all-held abc copy ds [] g base n
      ∙ ap (λ (l : List Json). held (group_key base n) g.groups ++ l)
          (owed-none n (variants_named abc copy base ds)
            ∙ ap (λ (l : List Json). nth n (variants_named abc copy base l)) shown) in
    place_copies-held abc fallback copies (place_all abc copy ds [] g) base n
    ∙ ap (λ (l : List Json). l ++ paired_variants abc fallback base n copies) first
    ∙ append_assoc (held (group_key base n) g.groups) (nth n vs)
        (paired_variants abc fallback base n copies)
