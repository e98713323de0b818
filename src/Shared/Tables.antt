-- ===== src/Shared/Tables.antt =====
-- SQL statements over a table held as a list of rows: SELECT, UPDATE, DELETE and COUNT with a
-- condition, and the lemmas that say which rows they leave.
use Prim.Native.Nat.{ℕ}
use mathlib.Core.Path.{◌≡◌, refl}
use mathlib.Core.Logic.{inl, inr}
use mathlib.Core.Bool.{Bool, true, false, not, ◌||◌, ◌&&◌}
use mathlib.Core.Option.{Option, none, some}
use mathlib.Core.List.{List, [], ◌∷◌, map, Memᴰ}
use native.Mathlib.Omega.{arith}
use hydra_server.Shared.Tests.{if◌then◌else◌, Bool-cases}
use hydra_server.Shared.Lists.{length, mem-map_inv}

module _ {ℓ} {A : Type ℓ} where
  -- SELECT * WHERE p
  abbrev pub select : (A → Bool) → List A → List A
  select p [] = []
  select p (x ∷ xs) = let rest = select p xs in if p x then x ∷ rest else rest

  -- DELETE WHERE p
  abbrev pub delete : (A → Bool) → List A → List A
  delete p xs = select (λ x. not (p x)) xs

  -- UPDATE SET f WHERE p
  abbrev pub update : (A → Bool) → (A → A) → List A → List A
  update p f xs = map (λ x. if p x then f x else x) xs

  -- SELECT COUNT(*) WHERE p, or the rows that an UPDATE or DELETE affects
  abbrev pub count : (A → Bool) → List A → ℕ
  count p xs = length (select p xs)

  -- The first row of the answer, if there is one (`fetch_optional`).
  abbrev pub first : (A → Bool) → List A → Option A
  first p [] = none
  first p (x ∷ xs) = let rest = first p xs in if p x then some x else rest

  -- EXISTS (SELECT 1 WHERE p)
  abbrev pub any : (A → Bool) → List A → Bool
  any p [] = false
  any p (x ∷ xs) = p x || any p xs

  abbrev pub all : (A → Bool) → List A → Bool
  all p [] = true
  all p (x ∷ xs) = p x && all p xs

  pub mem-select_inv :
      {a : A} (p : A → Bool) (xs : List A) → Memᴰ a (select p xs) → Memᴰ a xs × (p a ≡ true)
  mem-select_inv p [] m = elim m [ ]
  mem-select_inv {a} p (x ∷ xs) m = elim (Bool-cases (p x)) [
    | inl h ↦ from_kept (mem-select_inv p xs) h (rw h at m)
    | inr h ↦ let (k, q) = mem-select_inv p xs (rw h at m) in (Memᴰ.tail k, q)
  ]
    where
      from_kept :
          (Memᴰ a (select p xs) → Memᴰ a xs × (p a ≡ true))
          → p x ≡ true
          → Memᴰ a (x ∷ select p xs)
          → Memᴰ a (x ∷ xs) × (p a ≡ true)
      from_kept rest h (Memᴰ.head e) = (Memᴰ.head e, rw e h)
      from_kept rest h (Memᴰ.tail k) = let (m, q) = rest k in (Memᴰ.tail m, q)

  pub mem-select :
      {a : A} (p : A → Bool) (xs : List A) → Memᴰ a xs → p a ≡ true → Memᴰ a (select p xs)
  mem-select p [] m h = elim m [ ]
  mem-select p (x ∷ xs) (Memᴰ.head e) h = rw (← e) (rw h (Memᴰ.head refl))
  mem-select p (x ∷ xs) (Memᴰ.tail m) h = elim (Bool-cases (p x)) [
    | inl k ↦ rw k (Memᴰ.tail (mem-select p xs m h))
    | inr k ↦ rw k (mem-select p xs m h)
  ]

  pub mem-update_inv :
      {a : A} (p : A → Bool) (f : A → A) (xs : List A)
      → Memᴰ a (update p f xs)
      → (b : A) × Memᴰ b xs × (a ≡ (if p b then f b else b))
  mem-update_inv p f xs m = mem-map_inv _ xs m

  pub mem-delete_inv :
      {a : A} (p : A → Bool) (xs : List A) → Memᴰ a (delete p xs) → Memᴰ a xs × (p a ≡ false)
  mem-delete_inv {a} p xs m = let (k, q) = mem-select_inv (λ x. not (p x)) xs m in (k, ground arith)

  pub mem-delete :
      {a : A} (p : A → Bool) (xs : List A) → Memᴰ a xs → p a ≡ false → Memᴰ a (delete p xs)
  mem-delete p xs m h = mem-select (λ x. not (p x)) xs m (rw h)

  pub any_of_mem : {a : A} (p : A → Bool) (xs : List A) → Memᴰ a xs → p a ≡ true → any p xs ≡ true
  any_of_mem p [] m h = elim m [ ]
  any_of_mem p (x ∷ xs) (Memᴰ.head e) h = rw (← e) (rw h)
  any_of_mem p (x ∷ xs) (Memᴰ.tail m) h = ground (arith, any_of_mem p xs m h)

  pub mem_of_any :
      (p : A → Bool) (xs : List A) → any p xs ≡ true → (a : A) × Memᴰ a xs × (p a ≡ true)
  mem_of_any p [] h = cc
  mem_of_any p (x ∷ xs) h = elim (Bool-cases (p x)) [
    | inl k ↦ (x, Memᴰ.head refl, k)
    | inr k ↦ let (a, m, q) = mem_of_any p xs (ground arith) in (a, Memᴰ.tail m, q)
  ]

  pub not_of_any : {a : A} (p : A → Bool) (xs : List A) → any p xs ≡ false → Memᴰ a xs → p a ≡ false
  not_of_any {a} p xs h m = elim (Bool-cases (p a)) [ inl k ↦ cc (any_of_mem p xs m k) | inr k ↦ k ]

  pub first-some_inv :
      {a : A} (p : A → Bool) (xs : List A) → first p xs ≡ some a → Memᴰ a xs × (p a ≡ true)
  first-some_inv p [] h = cc
  first-some_inv {a} p (x ∷ xs) h = elim (Bool-cases (p x)) [
    | inl k ↦ let e : a ≡ x = ground arith in (Memᴰ.head e, rw e k)
    | inr k ↦ let (m, q) = first-some_inv p xs (ground arith) in (Memᴰ.tail m, q)
  ]

  pub first-none_inv :
      {a : A} (p : A → Bool) (xs : List A) → first p xs ≡ none → Memᴰ a xs → p a ≡ false
  first-none_inv p [] h m = elim m [ ]
  first-none_inv p (x ∷ xs) h (Memᴰ.head e) = rw e (ground arith)
  first-none_inv p (x ∷ xs) h (Memᴰ.tail m) = first-none_inv p xs (ground arith) m
