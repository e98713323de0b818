-- ===== src/Combined/Pairs.antt =====
-- combined_achievements.rs: which achievements stand in one group.
use mathlib.Core.List.{append-nil}
use text.Mathlib.TextLemmas.{append_cancel_left}
use hydra_server.Shared.{
  ℕ, String, ◌≡◌, refl, sym, ap, ◌∙◌, subst, false, Option, none, some, List, [], ◌∷◌, ◌++◌, any,
  delete, arith, if◌then◌else◌, ◌==◌, str-eq, str-ne, Bool-cases, inl, inr,
}
use hydra_server.Json.{Json}
use hydra_server.Combined.Lookups.{Named, named_value}
use hydra_server.Combined.Groups.{
  Alphabet, Copy, Group, group_key, has_key, place_copies, fallback_of, group_id, group_at,
  listed_groups, no_groups, combine,
}
use hydra_server.Combined.Ordered.{IsOrdered, place_copies-IsOrdered}
use hydra_server.Combined.Placed.{
  paired_variants, first_defined, fallback_of-first_defined, items, held, place_copies-held,
}

-- All that the groups of an id hold.
unfoldable pub gathered : String → List Group → List Json
gathered id [] = []
gathered id (g ∷ groups) =
    (if g.canonical_achievement_id == id then g.variants else []) ++ gathered id groups

held-deleted_self : (key : String) (m : Named (List Json)) → held key (delete (has_key key) m) ≡ []
held-deleted_self key [] = refl
held-deleted_self key ((k, vs) ∷ m) = ground (arith, held-deleted_self key m)

held-deleted_apart :
    (key other : String) (m : Named (List Json))
    → (key == other) ≡ false
    → held other (delete (has_key key) m) ≡ held other m
held-deleted_apart key other [] n = refl
held-deleted_apart key other ((k, vs) ∷ m) n =
    ground (arith, held-deleted_apart key other m n, str-eq k key, str-eq k other, str-eq key other)

held-absent : (key : String) (m : Named (List Json)) → any (has_key key) m ≡ false → held key m ≡ []
held-absent key [] n = refl
held-absent key ((k, vs) ∷ m) n = ground (arith, held-absent key m)

id-eq : (canonical a b : String) → (group_id canonical a == group_id canonical b) ≡ (a == b)
id-eq canonical a b = elim (Bool-cases (a == b)) [
  | inl y ↦ (str-eq _ _).1 (ap (group_id canonical) ((str-eq a b).0 y)) ∙ sym y
  | inr k ↦
      str-ne _ _ (λ e.
        let p = append_cancel_left ":" a b (append_cancel_left canonical _ _ e) in
        cc ((str-eq a b).1 p, k))
      ∙ sym k
]

gathered-group_at :
    (canonical key k : String) (o : Option (List Json)) (rest : List Group)
    → gathered (group_id canonical key) (group_at canonical k o ++ rest)
      ≡ (if k == key then items o else []) ++ gathered (group_id canonical key) rest
unfolding gathered
gathered-group_at canonical key k none rest = ground arith
gathered-group_at canonical key k (some vs) rest = rw (id-eq canonical k key) refl

gathered-listed_groups :
    (canonical key : String) (keys : List String) (m : Named (List Json))
    → gathered (group_id canonical key) (listed_groups canonical keys m)
      ≡ (if any (λ k. k == key) keys then held key m else [])
unfolding listed_groups gathered
gathered-listed_groups canonical key [] m = refl
gathered-listed_groups canonical key (k ∷ keys) m =
    let rest = gathered-listed_groups canonical key keys (delete (has_key k) m) in
    let next = listed_groups canonical keys (delete (has_key k) m) in
    let first = gathered-group_at canonical key k (named_value k m) next in
    let id = group_id canonical key in
    elim (Bool-cases (k == key)) [
      | inl y ↦
          let e : k ≡ key = (str-eq k key).0 y in
          let gone : held key (delete (has_key k) m) ≡ [] =
            subst (λ x. held x (delete (has_key k) m) ≡ []) e (held-deleted_self k m) in
          let none_left : gathered id next ≡ [] = ground (arith, rest, gone) in
          rw y (
            first
            ∙ rw y (
                ap (λ (l : List Json). held k m ++ l) none_left
                ∙ append-nil (held k m)
                ∙ ap (λ x. held x m) e))
      | inr d ↦ rw d (first ∙ rw d (rest ∙ rw (held-deleted_apart k key m d) refl))
    ]

-- The groups of an answer hold, under the id of a pairing key and a number, each copy's achievement
-- of that key with that many of the key before it: all of them, each once, in the order of the
-- copies, and nothing else. A copy without definitions has those of the first copy with some.
pub gathered-combine :
    (abc : Alphabet) (canonical : String) (copies : List Copy) (base : String) (n : ℕ)
    → gathered (group_id canonical (group_key base n)) (combine abc canonical copies)
      ≡ paired_variants abc (first_defined copies) base n copies
unfolding combine IsOrdered
gathered-combine abc canonical copies base n =
    let g = place_copies abc (fallback_of copies) copies no_groups in
    let key = group_key base n in
    let all : held key g.groups ≡ paired_variants abc (first_defined copies) base n copies =
      place_copies-held abc (fallback_of copies) copies no_groups base n
      ∙ ap (λ (l : List Json). paired_variants abc l base n copies)
          (fallback_of-first_defined copies) in
    let same : any (has_key key) g.groups ≡ any (λ k. k == key) g.order =
      place_copies-IsOrdered abc (fallback_of copies) copies no_groups (λ k. refl) key in
    gathered-listed_groups canonical key g.order g.groups
    ∙ elim (Bool-cases (any (λ k. k == key) g.order)) [
      | inl y ↦ rw y all
      | inr k ↦ rw k (sym (held-absent key g.groups (same ∙ k)) ∙ all)
    ]
