-- ===== src/Achievements/Merge.antt =====
-- What a merge keeps.
use hydra_server.Shared.{
  String, ◌≡◌, refl, ap, sym, ◌∙◌, true, Option, none, some, List, [], ◌∷◌, ◌++◌, arith,
  if◌then◌else◌, ◌==◌, str-eq, Bool-cases, Option-cases, inl, inr,
}
use hydra_server.Shared.Int.{ℤ, ltb_ℤ, eq_of_parts}
use hydra_server.Json.{Json}
use hydra_server.Achievements.{
  upper_name, unlocked_at, named, kept, put, absorb, absorb_all, merge_achievements,
}

abbrev pub least : ℤ → ℤ → ℤ
least a b = if ltb_ℤ a b then a else b

abbrev pub sooner : Option ℤ → Option ℤ → Option ℤ
sooner none b = b
sooner (some a) none = some a
sooner (some a) (some b) = some (least a b)

-- The time of a value of the name.
unfoldable pub time_of : (String → String) → String → Json → Option ℤ
time_of upper key a = if named upper key a then some (unlocked_at a) else none

-- The earliest time that a list has for a name; `none` is no value of the name.
unfoldable pub earliest : (String → String) → String → List Json → Option ℤ
earliest upper key [] = none
earliest upper key (a ∷ l) = sooner (time_of upper key a) (earliest upper key l)

least_assoc : (a b c : ℤ) → least (least a b) c ≡ least a (least b c)
least_assoc a b c = ground arith

least_comm : (a b : ℤ) → least a b ≡ least b a
least_comm a b = ground (arith, eq_of_parts a b)

sooner_assoc : (a b c : Option ℤ) → sooner (sooner a b) c ≡ sooner a (sooner b c)
sooner_assoc none b c = refl
sooner_assoc (some a) none c = refl
sooner_assoc (some a) (some b) none = refl
sooner_assoc (some a) (some b) (some c) = ap (λ (z : ℤ). some z) (least_assoc a b c)

sooner_comm : (a b : Option ℤ) → sooner a b ≡ sooner b a
sooner_comm none none = refl
sooner_comm none (some b) = refl
sooner_comm (some a) none = refl
sooner_comm (some a) (some b) = ap (λ (z : ℤ). some z) (least_comm a b)

pub sooner-none : (a : Option ℤ) → sooner a none ≡ a
sooner-none none = refl
sooner-none (some a) = refl

swap : (a b c : Option ℤ) → sooner a (sooner b c) ≡ sooner b (sooner a c)
swap a b c = sym (sooner_assoc a b c) ∙ ap (λ t. sooner t c) (sooner_comm a b) ∙ sooner_assoc b a c

module _ (upper : String → String) where
  named-name :
      (key k : String) (a : Json) → upper_name upper a ≡ some k → named upper key a ≡ (k == key)
  named-name key k a e = rw e refl

  unlocked_at-kept : (a e : Json) → unlocked_at (kept a e) ≡ least (unlocked_at a) (unlocked_at e)
  unfolding kept
  unlocked_at-kept a e = elim (Bool-cases (ltb_ℤ (unlocked_at a) (unlocked_at e))) [
    | inl y ↦ rw y refl
    | inr n ↦ rw n refl
  ]

  pub upper_name-kept :
      (a e : Json) (k : String)
      → upper_name upper a ≡ some k
      → upper_name upper e ≡ some k
      → upper_name upper (kept a e) ≡ some k
  unfolding kept
  upper_name-kept a e k p q = elim (Bool-cases (ltb_ℤ (unlocked_at a) (unlocked_at e))) [
    | inl y ↦ rw y p
    | inr n ↦ rw n q
  ]

  pub named-inv :
      (key : String) (e : Json) → named upper key e ≡ true → upper_name upper e ≡ some key
  named-inv key e h = elim (Option-cases (upper_name upper e)) [
    | inl n ↦ absurd (cc (rw n at h))
    | inr (k, p) ↦ p ∙ ap (λ (x : String). some x) ((str-eq k key).0 (rw p at h))
  ]

  time_of-kept :
      (key k : String) (a e : Json)
      → upper_name upper a ≡ some k
      → upper_name upper e ≡ some k
      → time_of upper key (kept a e) ≡ sooner (time_of upper key a) (time_of upper key e)
  unfolding time_of
  time_of-kept key k a e p q = elim (Bool-cases (k == key)) [
    | inl y ↦
        rw (time_of, p, q, upper_name-kept a e k p q, y)
          (ap (λ (z : ℤ). some z) (unlocked_at-kept a e))
    | inr n ↦ rw (time_of, p, q, upper_name-kept a e k p q, n) refl
  ]

  earliest-put :
      (key k : String) (a : Json) (m : List Json)
      → upper_name upper a ≡ some k
      → earliest upper key (put upper k a m) ≡ earliest upper key (a ∷ m)
  unfolding put earliest
  earliest-put key k a [] p = refl
  earliest-put key k a (e ∷ m) p = elim (Bool-cases (named upper k e)) [
    | inl y ↦
        rw (put, y)
          (ap (λ t. sooner t (earliest upper key m)) (time_of-kept key k a e p (named-inv k e y))
            ∙ sooner_assoc (time_of upper key a) (time_of upper key e) (earliest upper key m))
    | inr n ↦
        rw (put, n)
          (ap (λ t. sooner (time_of upper key e) t) (earliest-put key k a m p)
            ∙ swap (time_of upper key e) (time_of upper key a) (earliest upper key m))
  ]

  earliest-absorb :
      (key : String) (a : Json) (m : List Json)
      → earliest upper key (absorb upper m a) ≡ earliest upper key (a ∷ m)
  unfolding absorb earliest time_of
  earliest-absorb key a m = elim (Option-cases (upper_name upper a)) [
    | inl n ↦ rw (absorb, n, time_of) refl
    | inr (k, p) ↦
        let run : absorb upper m a ≡ put upper k a m = rw (absorb, p) refl in
        ap (λ x. earliest upper key x) run ∙ earliest-put key k a m p
  ]

  pub earliest-absorb_all :
      (key : String) (m l : List Json)
      → earliest upper key (absorb_all upper m l)
        ≡ sooner (earliest upper key m) (earliest upper key l)
  unfolding absorb_all earliest
  earliest-absorb_all key m [] = sym (sooner-none (earliest upper key m))
  earliest-absorb_all key m (a ∷ l) =
      earliest-absorb_all key (absorb upper m a) l
      ∙ ap (λ t. sooner t (earliest upper key l)) (earliest-absorb key a m)
      ∙ sooner_assoc (time_of upper key a) (earliest upper key m) (earliest upper key l)
      ∙ swap (time_of upper key a) (earliest upper key m) (earliest upper key l)

  -- The earliest time of every name is kept: the merge has the name exactly where one of the two
  -- lists has it, with the earliest time that either has for it.
  pub earliest-merge :
      (key : String) (existing incoming : List Json)
      → earliest upper key (merge_achievements upper existing incoming)
        ≡ earliest upper key (existing ++ incoming)
  unfolding merge_achievements earliest
  earliest-merge key existing incoming = earliest-absorb_all key [] (existing ++ incoming)
