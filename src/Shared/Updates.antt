-- ===== src/Shared/Updates.antt =====
-- What an UPDATE leaves of the answers of other statements.
use mathlib.Core.Path.{◌≡◌, refl, ap}
use mathlib.Core.Logic.{inl, inr}
use mathlib.Core.Bool.{Bool, true}
use mathlib.Core.Option.{none, some, some-injective}
use mathlib.Core.List.{List, [], ◌∷◌, ◌++◌}
use native.Mathlib.Omega.{arith}
use hydra_server.Shared.Tests.{if◌then◌else◌, Bool-cases}
use hydra_server.Shared.Tables.{update, first, any}

module _ {ℓ} {A : Type ℓ} where
  pub first-end :
      (p : A → Bool) (xs : List A) (y : A)
      → first p xs ≡ none
      → p y ≡ true
      → first p (xs ++ y ∷ []) ≡ some y
  first-end p [] y e h = rw h refl
  first-end p (x ∷ xs) y e h = ground (arith, first-end p xs y)

  -- An UPDATE that keeps what `p` tests updates the first row that has it.
  pub first-updated :
      (p w : A → Bool) (f : A → A) (a : A) (xs : List A)
      → ((x : A) → p (f x) ≡ p x)
      → first p xs ≡ some a
      → first p (update w f xs) ≡ some (if w a then f a else a)
  first-updated p w f a [] h e = absurd (cc e)
  first-updated p w f a (x ∷ xs) h e = elim (Bool-cases (p x)) [
    | inl y ↦
        let same : x ≡ a = some-injective _ _ (rw y at e) in
        elim (Bool-cases (w x)) [
          | inl k ↦ rw (← same, k, h x, y) refl
          | inr n ↦ rw (← same, n, y) refl
        ]
    | inr n ↦
        let later : first p xs ≡ some a = rw n at e in
        elim (Bool-cases (w x)) [
          | inl k ↦ rw (k, h x, n) (first-updated p w f a xs h later)
          | inr k ↦ rw (k, n) (first-updated p w f a xs h later)
        ]
  ]

  pub any-updated :
      (p w : A → Bool) (f : A → A) (xs : List A)
      → ((x : A) → w x ≡ true → p (f x) ≡ p x)
      → any p (update w f xs) ≡ any p xs
  any-updated p w f [] h = refl
  any-updated p w f (x ∷ xs) h = ground (arith, h x, any-updated p w f xs h)

  pub update-update :
      (w : A → Bool) (f g k : A → A) (xs : List A)
      → ((x : A) → w (g x) ≡ w x)
      → ((x : A) → f (g x) ≡ k (g x))
      → update w f (update w g xs) ≡ update w k (update w g xs)
  update-update w f g k [] h e = refl
  update-update w f g k (x ∷ xs) h e = elim (Bool-cases (w x)) [
    | inl y ↦ rw (y, h x, y, e x) (ap (λ (l : List A). k (g x) ∷ l) (update-update w f g k xs h e))
    | inr n ↦ rw (n, n) (ap (λ (l : List A). x ∷ l) (update-update w f g k xs h e))
  ]
