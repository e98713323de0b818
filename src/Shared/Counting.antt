-- ===== src/Shared/Counting.antt =====
-- Tables: how many rows the statements leave, and which row comes first.
use Prim.Native.Nat.{◌+◌, ◌≤◌}
use mathlib.Core.Path.{◌≡◌, refl, sym, ap, ◌∙◌}
use mathlib.Core.Logic.{inl, inr}
use mathlib.Core.Bool.{Bool, true, false, ◌||◌}
use mathlib.Core.Option.{some}
use mathlib.Core.List.{List, [], ◌∷◌, ◌++◌, Memᴰ}
use native.Mathlib.Omega.{arith}
use hydra_server.Shared.Tests.{if◌then◌else◌, Option-cases}
use hydra_server.Shared.Lists.{mem-map_of}
use hydra_server.Shared.Tables.{
  select, delete, update, count, first, any, not_of_any, first-some_inv, first-none_inv,
}

module _ {ℓ} {A : Type ℓ} where
  -- Counting: how a condition's rows change under the statements.
  pub count-append : (p : A → Bool) (xs ys : List A) → count p (xs ++ ys) ≡ count p xs + count p ys
  count-append p [] ys = omega arith
  count-append p (x ∷ xs) ys = ground (arith, count-append p xs ys)

  pub count-select-le : (p q : A → Bool) (xs : List A) → count p (select q xs) ≤ count p xs
  count-select-le p q [] = omega arith
  count-select-le p q (x ∷ xs) = ground (arith, count-select-le p q xs)

  pub count_mono :
      (p q : A → Bool) (xs : List A) → ((a : A) → p a ≡ true → q a ≡ true) → count p xs ≤ count q xs
  count_mono p q [] h = omega arith
  count_mono p q (x ∷ xs) h = ground (arith, h x, count_mono p q xs h)

  pub count-zero :
      (p : A → Bool) (xs : List A) → ((a : A) → Memᴰ a xs → p a ≡ false) → count p xs ≡ 0
  count-zero p [] h = refl
  count-zero p (x ∷ xs) h =
      ground (arith, h x (Memᴰ.head refl), count-zero p xs (λ a m. h a (Memᴰ.tail m)))

  -- An UPDATE whose new rows satisfy `p` only where the old ones satisfied `q`.
  pub count-update-le :
      (p q w : A → Bool) (f : A → A) (xs : List A)
      → ((a : A) → Memᴰ a xs → p (if w a then f a else a) ≡ true → q a ≡ true)
      → count p (update w f xs) ≤ count q xs
  count-update-le p q w f [] h = omega arith
  count-update-le p q w f (x ∷ xs) h =
      ground (arith, h x (Memᴰ.head refl), count-update-le p q w f xs (λ a m. h a (Memᴰ.tail m)))

  -- An UPDATE adds at most the rows that it touches.
  pub count-update-add :
      (p w : A → Bool) (f : A → A) (xs : List A) → count p (update w f xs) ≤ count p xs + count w xs
  count-update-add p w f [] = omega arith
  count-update-add p w f (x ∷ xs) = ground (arith, count-update-add p w f xs)

  pub count-zero_of_any : (p : A → Bool) (xs : List A) → any p xs ≡ false → count p xs ≡ 0
  count-zero_of_any p xs h = count-zero p xs (λ a m. not_of_any p xs h m)

  pub any-append_left : (p : A → Bool) (xs ys : List A) → any p xs ≡ true → any p (xs ++ ys) ≡ true
  any-append_left p [] ys h = cc
  any-append_left p (x ∷ xs) ys h = ground (arith, any-append_left p xs ys)

  pub any-append_right : (p : A → Bool) (xs ys : List A) → any p ys ≡ true → any p (xs ++ ys) ≡ true
  any-append_right p [] ys h = h
  any-append_right p (x ∷ xs) ys h = ground (arith, any-append_right p xs ys h)

  -- An UPDATE that keeps what `p` tests keeps whether a row satisfies it.
  pub any-update :
      (p w : A → Bool) (f : A → A) (xs : List A)
      → ((a : A) → p (f a) ≡ p a)
      → any p (update w f xs) ≡ any p xs
  any-update p w f [] h = refl
  any-update p w f (x ∷ xs) h = ground (arith, h x, any-update p w f xs h)

  pub count-pos_of_mem :
      {a : A} (p : A → Bool) (xs : List A) → Memᴰ a xs → p a ≡ true → 1 ≤ count p xs
  count-pos_of_mem p [] m h = elim m [ ]
  count-pos_of_mem p (x ∷ xs) (Memᴰ.head e) h = rw (← e) (rw h (omega arith))
  count-pos_of_mem p (x ∷ xs) (Memᴰ.tail m) h = ground (arith, count-pos_of_mem p xs m h)

  pub delete-none : (xs : List A) → delete (λ x. false) xs ≡ xs
  delete-none [] = refl
  delete-none (x ∷ xs) = ap (λ (l : List A). x ∷ l) (delete-none xs)

  pub delete-delete :
      (p q : A → Bool) (xs : List A) → delete p (delete q xs) ≡ delete (λ x. q x || p x) xs
  delete-delete p q [] = refl
  delete-delete p q (x ∷ xs) = ground (arith, delete-delete p q xs)

  pub count-none : (xs : List A) → count (λ x. false) xs ≡ 0
  count-none [] = refl
  count-none (x ∷ xs) = count-none xs

  -- At most one row has the condition, so two that have it are one.
  pub unique_of_count :
      {a b : A} (p : A → Bool) (xs : List A)
      → count p xs ≤ 1
      → Memᴰ a xs
      → Memᴰ b xs
      → p a ≡ true
      → p b ≡ true
      → a ≡ b
  unique_of_count p [] h m n ha hb = elim m [ ]
  unique_of_count p (x ∷ xs) h (Memᴰ.head e) (Memᴰ.head d) ha hb = e ∙ sym d
  unique_of_count {a} p (x ∷ xs) h (Memᴰ.head e) (Memᴰ.tail n) ha hb =
      let hx : p x ≡ true = rw e at ha in absurd (ground (arith, count-pos_of_mem p xs n))
  unique_of_count {b = b} p (x ∷ xs) h (Memᴰ.tail m) (Memᴰ.head d) ha hb =
      let hx : p x ≡ true = rw d at hb in absurd (ground (arith, count-pos_of_mem p xs m))
  unique_of_count p (x ∷ xs) h (Memᴰ.tail m) (Memᴰ.tail n) ha hb =
      unique_of_count p xs (ground arith) m n ha hb

  -- DELETE and UPDATE of rows without the condition leave the first row that has it.
  pub first-delete :
      (p d : A → Bool) (xs : List A)
      → ((a : A) → Memᴰ a xs → p a ≡ true → d a ≡ false)
      → first p (delete d xs) ≡ first p xs
  first-delete p d [] h = refl
  first-delete p d (x ∷ xs) h =
      ground (arith, h x (Memᴰ.head refl), first-delete p d xs (λ a m. h a (Memᴰ.tail m)))

  pub first-update :
      (p w : A → Bool) (f : A → A) (xs : List A)
      → ((a : A) → Memᴰ a xs → w a ≡ true → (p a ≡ false) × (p (f a) ≡ false))
      → first p (update w f xs) ≡ first p xs
  first-update p w f [] h = refl
  first-update p w f (x ∷ xs) h =
      ground (arith, h x (Memᴰ.head refl), first-update p w f xs (λ a m. h a (Memᴰ.tail m)))

  pub first-some_of_unique :
      {a : A} (p : A → Bool) (xs : List A)
      → count p xs ≤ 1
      → Memᴰ a xs
      → p a ≡ true
      → first p xs ≡ some a
  first-some_of_unique {a} p xs h m ha = elim (Option-cases (first p xs)) [
    | inl e ↦ absurd (cc (first-none_inv p xs e m, ha))
    | inr (b, e) ↦
        let (k, hb) = first-some_inv p xs e in
        e ∙ ap (λ (c : A). some c) (unique_of_count p xs h k m hb ha)
  ]

  pub mem-update :
      {a : A} (w : A → Bool) (f : A → A) (xs : List A)
      → Memᴰ a xs
      → Memᴰ (if w a then f a else a) (update w f xs)
  mem-update w f xs m = mem-map_of (λ x. if w x then f x else x) xs m

  pub first-append :
      (p : A → Bool) (xs : List A) (y : A) → p y ≡ false → first p (xs ++ y ∷ []) ≡ first p xs
  first-append p [] y h = rw h
  first-append p (x ∷ xs) y h = ground (arith, first-append p xs y h)

  pub select-append :
      (p : A → Bool) (xs ys : List A) → select p (xs ++ ys) ≡ select p xs ++ select p ys
  select-append p [] ys = refl
  select-append p (x ∷ xs) ys = ground (arith, select-append p xs ys)

  pub select-nil :
      (p : A → Bool) (xs : List A) → ((a : A) → Memᴰ a xs → p a ≡ false) → select p xs ≡ []
  select-nil p [] h = refl
  select-nil p (x ∷ xs) h =
      ground (arith, h x (Memᴰ.head refl), select-nil p xs (λ a m. h a (Memᴰ.tail m)))

  pub select_self :
      (p : A → Bool) (xs : List A) → ((a : A) → Memᴰ a xs → p a ≡ true) → select p xs ≡ xs
  select_self p [] h = refl
  select_self p (x ∷ xs) h =
      ground (arith, h x (Memᴰ.head refl), select_self p xs (λ a m. h a (Memᴰ.tail m)))
