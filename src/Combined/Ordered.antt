-- ===== src/Combined/Ordered.antt =====
-- combined_achievements.rs: the order of the groups names each key of their map.
use hydra_server.Shared.{
  ℕ, String, ◌≡◌, sym, ◌∙◌, Bool, true, ◌||◌, Option, none, some, List, [], ◌∷◌, ◌++◌, any, arith,
  ◌==◌, str-eq, Bool-cases, inl, inr,
}
use hydra_server.Json.{Json}
use hydra_server.Combined.Lookups.{Named}
use hydra_server.Combined.Groups.{
  Alphabet, Copy, Grouping, group_key, paired, occurrence, counted_key, placed, has_key,
  push_variant, place, place_all, place_copies, definitions_of,
}

has_key-push :
    (key : String) (v : Json) (m : Named (List Json)) (other : String)
    → any (has_key other) (push_variant key v m) ≡ any (has_key other) m || (key == other)
has_key-push key v [] other = ground arith
has_key-push key v ((k, vs) ∷ m) other =
    ground (arith, has_key-push key v m other, str-eq k key, str-eq k other, str-eq key other)

-- A key that the map of groups holds is in the order, and no other is.
unfoldable pub IsOrdered : Grouping → Type 0
IsOrdered g = (key : String) → any (has_key key) g.groups ≡ any (λ k. k == key) g.order

any-end :
    (p : String → Bool) (xs : List String) (y : String) → any p (xs ++ y ∷ []) ≡ any p xs || p y
any-end p [] y = ground arith
any-end p (x ∷ xs) y = ground (arith, any-end p xs y)

placed-IsOrdered :
    (p : Option (String × Json)) (seen : Named ℕ) (g : Grouping)
    → IsOrdered g
    → IsOrdered (placed p seen g)
unfolding IsOrdered place
placed-IsOrdered none seen g h key = h key
placed-IsOrdered (some (b, v)) seen g h key =
    let new = group_key b (occurrence b seen) in
    has_key-push new v g.groups key ∙ elim (Bool-cases (any (has_key new) g.groups)) [
      | inl y ↦ elim (Bool-cases (new == key)) [
        | inl z ↦
            let t : any (has_key key) g.groups ≡ true = rw ((str-eq new key).0 z) at y in
            rw y (ground (arith, t, h key))
        | inr z ↦ rw y (ground (arith, h key))
      ]
      | inr k ↦ rw k (rw (h key) (sym (any-end (λ k. k == key) g.order new)))
    ]

place_all-IsOrdered :
    (abc : Alphabet) (copy : Copy) (ds : List Json) (seen : Named ℕ) (g : Grouping)
    → IsOrdered g
    → IsOrdered (place_all abc copy ds seen g)
unfolding place_all
place_all-IsOrdered abc copy [] seen g h = h
place_all-IsOrdered abc copy (d ∷ ds) seen g h =
    let p = paired abc copy d in
    place_all-IsOrdered abc copy ds (counted_key p seen) (placed p seen g)
      (placed-IsOrdered p seen g h)

pub place_copies-IsOrdered :
    (abc : Alphabet) (fallback : List Json) (copies : List Copy) (g : Grouping)
    → IsOrdered g
    → IsOrdered (place_copies abc fallback copies g)
unfolding place_copies
place_copies-IsOrdered abc fallback [] g h = h
place_copies-IsOrdered abc fallback (copy ∷ copies) g h =
    place_copies-IsOrdered abc fallback copies _
      (place_all-IsOrdered abc copy (definitions_of fallback copy) [] g h)
