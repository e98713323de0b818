-- ===== src/Achievements/Again.antt =====
-- A merge has a name once, and a sync that is sent again changes nothing.
use hydra_server.Shared.{
  String, ◌≤◌, ◌≡◌, refl, ap, sym, ◌∙◌, Bool, true, false, ◌||◌, ◌&&◌, Option, none, some,
  some-injective, List, [], ◌∷◌, ◌++◌, Memᴰ, arith, ◌==◌, str-eq, str_refl, any, count,
  count-zero_of_any, Bool-cases, Option-cases, inl, inr, mem-append_right,
}
use mathlib.Core.List.{append_assoc, append-nil}
use hydra_server.Shared.Int.{ℤ, ltb_ℤ}
use hydra_server.Json.{Json}
use hydra_server.Achievements.{
  upper_name, unlocked_at, named, kept, put, absorb, absorb_all, merge_achievements,
}
use hydra_server.Achievements.Merge.{
  least, sooner, time_of, earliest, named-inv, upper_name-kept, earliest-merge,
}

module _ (upper : String → String) where
  -- Every value has a name, and no two have the same.
  abbrev pub IsMerged : List Json → Type 0
  IsMerged [] = Unit
  IsMerged (a ∷ m) =
      ((k : String) × (upper_name upper a ≡ some k) × (any (named upper k) m ≡ false)) × IsMerged m

  any-put :
      (k j : String) (a : Json) (m : List Json)
      → upper_name upper a ≡ some k
      → any (named upper j) (put upper k a m) ≡ (k == j) || any (named upper j) m
  unfolding put
  any-put k j a [] p = rw p (ground arith)
  any-put k j a (e ∷ m) p = elim (Bool-cases (named upper k e)) [
    | inl y ↦
        rw (put, y)
          (rw (upper_name-kept upper a e k p (named-inv upper k e y), named-inv upper k e y)
            (ground arith))
    | inr n ↦ rw (put, n) (ground (arith, any-put k j a m p))
  ]

  put-IsMerged :
      (k : String) (a : Json) (m : List Json)
      → upper_name upper a ≡ some k
      → IsMerged m
      → IsMerged (put upper k a m)
  unfolding put
  put-IsMerged k a [] p h = ((k, p, refl), tt)
  put-IsMerged k a (e ∷ m) p ((j, q, d), h) = elim (Bool-cases (named upper k e)) [
    | inl y ↦
        let same : j ≡ k = some-injective _ _ (sym q ∙ named-inv upper k e y) in
        rw (put, y) ((k, upper_name-kept upper a e k p (named-inv upper k e y), rw (← same) d), h)
    | inr n ↦
        let apart : (j == k) ≡ false = rw q at n in
        rw (put, n)
          (
            (j, q, any-put k j a m p ∙ ground (arith, d, str-eq j k, str-eq k j)),
            put-IsMerged k a m p h,
          )
  ]

  absorb-IsMerged : (m : List Json) (a : Json) → IsMerged m → IsMerged (absorb upper m a)
  unfolding absorb
  absorb-IsMerged m a h = elim (Option-cases (upper_name upper a)) [
    | inl n ↦ rw (absorb, n) h
    | inr (k, p) ↦ rw (absorb, p) (put-IsMerged k a m p h)
  ]

  absorb_all-IsMerged : (m l : List Json) → IsMerged m → IsMerged (absorb_all upper m l)
  unfolding absorb_all
  absorb_all-IsMerged m [] h = h
  absorb_all-IsMerged m (a ∷ l) h = absorb_all-IsMerged (absorb upper m a) l (absorb-IsMerged m a h)

  count-IsMerged : (key : String) (m : List Json) → IsMerged m → count (named upper key) m ≤ 1
  count-IsMerged key [] h = omega arith
  count-IsMerged key (a ∷ m) ((k, p, d), h) = elim (Bool-cases (k == key)) [
    | inl y ↦
        let out : any (named upper key) m ≡ false = rw ((str-eq k key).0 y) at d in
        rw (p, y) (omega (arith, count-zero_of_any (named upper key) m out))
    | inr n ↦ rw (p, n) (count-IsMerged key m h)
  ]

  earliest-absent :
      (k : String) (m : List Json) → any (named upper k) m ≡ false → earliest upper k m ≡ none
  unfolding earliest time_of
  earliest-absent k [] h = refl
  earliest-absent k (a ∷ m) h =
      let out : named upper k a ≡ false = ground arith in
      rw (earliest, time_of, out) (earliest-absent k m (ground arith))

  earliest-head :
      (k : String) (b : Json) (m : List Json)
      → named upper k b ≡ true
      → any (named upper k) m ≡ false
      → earliest upper k (b ∷ m) ≡ some (unlocked_at b)
  unfolding earliest time_of
  earliest-head k b m y h = rw (time_of, y, earliest-absent k m h) refl

  earliest-other :
      (k : String) (b : Json) (m : List Json)
      → named upper k b ≡ false
      → earliest upper k (b ∷ m) ≡ earliest upper k m
  unfolding earliest time_of
  earliest-other k b m n = rw (time_of, n) refl

  -- A value whose time is no earlier than what is stored changes nothing.
  put-covered :
      (k : String) (a : Json) (z : ℤ) (m : List Json)
      → IsMerged m
      → earliest upper k m ≡ some z
      → ltb_ℤ (unlocked_at a) z ≡ false
      → put upper k a m ≡ m
  unfolding put kept earliest
  put-covered k a z [] h e l = cc
  put-covered k a z (b ∷ m) ((j, q, d), h) e l = elim (Bool-cases (named upper k b)) [
    | inl y ↦
        let same : j ≡ k = some-injective _ _ (sym q ∙ named-inv upper k b y) in
        let out : any (named upper k) m ≡ false = rw same at d in
        let time : unlocked_at b ≡ z = some-injective _ _ (sym (earliest-head k b m y out) ∙ e) in
        let stays : kept a b ≡ b = rw (kept, time, l) refl in
        rw (put, y) (ap (λ (c : Json). c ∷ m) stays)
    | inr n ↦
        let later : earliest upper k m ≡ some z = sym (earliest-other k b m n) ∙ e in
        rw (put, n) (ap (λ (c : List Json). b ∷ c) (put-covered k a z m h later l))
  ]

  absorb_all-append :
      (m l n : List Json) → absorb_all upper m (l ++ n) ≡ absorb_all upper (absorb_all upper m l) n
  unfolding absorb_all
  absorb_all-append m [] n = refl
  absorb_all-append m (a ∷ l) n = absorb_all-append (absorb upper m a) l n

  put-absent :
      (k : String) (a : Json) (m : List Json)
      → any (named upper k) m ≡ false
      → put upper k a m ≡ m ++ a ∷ []
  unfolding put
  put-absent k a [] n = refl
  put-absent k a (e ∷ m) n =
      let out : named upper k e ≡ false = ground arith in
      rw (put, out) (ap (λ (l : List Json). e ∷ l) (put-absent k a m (ground arith)))

  fresh :
      (k : String) (a : Json) (m : List Json)
      → upper_name upper a ≡ some k
      → (b : Bool) → (b && any (named upper k) (a ∷ m)) ≡ false
      → b ≡ false
  fresh k a m p b e =
      let own : named upper k a ≡ true = rw (p, str_refl k) refl in ground (arith, own)

  any-append :
      (j : String) (l n : List Json)
      → any (named upper j) (l ++ n) ≡ any (named upper j) l || any (named upper j) n
  any-append j [] n = refl
  any-append j (a ∷ l) n = ground (arith, any-append j l n)

  after_step :
      (k j : String) (a : Json) (acc m : List Json)
      → upper_name upper a ≡ some k
      → any (named upper k) m ≡ false
      → (any (named upper j) acc && any (named upper j) (a ∷ m)) ≡ false
      → (any (named upper j) (acc ++ a ∷ []) && any (named upper j) m) ≡ false
  after_step k j a acc m p f e = elim (Bool-cases (k == j)) [
    | inl y ↦
        let out : any (named upper j) m ≡ false = rw ((str-eq k j).0 y) at f in ground (arith, out)
    | inr n ↦
        let other : named upper j a ≡ false = rw (p, n) refl in
        ground (arith, other, any-append j acc (a ∷ []))
  ]

  -- A merged list is read back as it is, after what shares no name with it.
  absorb_all-merged :
      (acc m : List Json)
      → IsMerged m
      → ((k : String) → (any (named upper k) acc && any (named upper k) m) ≡ false)
      → absorb_all upper acc m ≡ acc ++ m
  unfolding absorb_all
  absorb_all-merged acc [] h d = sym (append-nil acc)
  absorb_all-merged acc (a ∷ m) ((k, p, f), h) d =
      let out : any (named upper k) acc ≡ false = fresh k a m p (any (named upper k) acc) (d k) in
      let run : absorb upper acc a ≡ acc ++ a ∷ [] = rw (absorb, p) (put-absent k a acc out) in
      ap (λ (l : List Json). absorb_all upper l m) run
      ∙ absorb_all-merged (acc ++ a ∷ []) m h (λ j. after_step k j a acc m p f (d j))
      ∙ append_assoc acc (a ∷ []) m

  IsLate : String → Json → List Json → Type 0
  IsLate k a m = (z : ℤ) × (earliest upper k m ≡ some z) × (ltb_ℤ (unlocked_at a) z ≡ false)

  sooner-bound :
      (y : ℤ) (o : Option ℤ) → (z : ℤ) × (sooner (some y) o ≡ some z) × (ltb_ℤ y z ≡ false)
  sooner-bound y none = (y, refl, ground arith)
  sooner-bound y (some x) = (least y x, refl, ground arith)

  sooner-later :
      (y z : ℤ) (t o : Option ℤ)
      → o ≡ some z
      → ltb_ℤ y z ≡ false
      → (x : ℤ) × (sooner t o ≡ some x) × (ltb_ℤ y x ≡ false)
  sooner-later y z none o e l = (z, e, l)
  sooner-later y z (some w) o e l = rw e (least w z, refl, ground arith)

  mem-IsLate :
      (k : String) (a : Json) (l : List Json)
      → Memᴰ a l
      → upper_name upper a ≡ some k
      → IsLate k a l
  unfolding IsLate earliest time_of
  mem-IsLate k a [] m p = elim m [ ]
  mem-IsLate k a (b ∷ l) (Memᴰ.head e) p =
      let own : time_of upper k b ≡ some (unlocked_at a) =
        rw (← e) (rw (time_of, p, str_refl k) refl) in
      rw (earliest, own) (sooner-bound (unlocked_at a) (earliest upper k l))
  mem-IsLate k a (b ∷ l) (Memᴰ.tail m) p =
      let (z, e, h) = mem-IsLate k a l m p in
      sooner-later (unlocked_at a) z (time_of upper k b) (earliest upper k l) e h

  absorb-covered :
      (m : List Json) (a : Json)
      → IsMerged m
      → ((k : String) → upper_name upper a ≡ some k → IsLate k a m)
      → absorb upper m a ≡ m
  unfolding absorb IsLate
  absorb-covered m a h late = elim (Option-cases (upper_name upper a)) [
    | inl n ↦ rw (absorb, n) refl
    | inr (k, p) ↦
        let (z, e, l) = late k p in
        let run : absorb upper m a ≡ put upper k a m = rw (absorb, p) refl in
        run ∙ put-covered k a z m h e l
  ]

  absorb_all-covered :
      (m l : List Json)
      → IsMerged m
      → ((k : String) (a : Json) → Memᴰ a l → upper_name upper a ≡ some k → IsLate k a m)
      → absorb_all upper m l ≡ m
  unfolding absorb_all
  absorb_all-covered m [] h late = refl
  absorb_all-covered m (a ∷ l) h late =
      ap (λ (n : List Json). absorb_all upper n l)
        (absorb-covered m a h (λ k p. late k a (Memᴰ.head refl) p))
      ∙ absorb_all-covered m l h (λ k b i p. late k b (Memᴰ.tail i) p)

  merge-IsMerged :
      (existing incoming : List Json) → IsMerged (merge_achievements upper existing incoming)
  unfolding merge_achievements
  merge-IsMerged existing incoming = absorb_all-IsMerged [] (existing ++ incoming) tt

  -- What a merge stores has each name, in capital letters, at most once.
  pub merge-once :
      (key : String) (existing incoming : List Json)
      → count (named upper key) (merge_achievements upper existing incoming) ≤ 1
  merge-once key existing incoming =
      count-IsMerged key (merge_achievements upper existing incoming)
        (merge-IsMerged existing incoming)

  merge-IsLate :
      (existing incoming : List Json) (k : String) (a : Json)
      → Memᴰ a incoming
      → upper_name upper a ≡ some k
      → IsLate k a (merge_achievements upper existing incoming)
  unfolding IsLate
  merge-IsLate existing incoming k a m p =
      let (z, e, l) =
        mem-IsLate k a (existing ++ incoming) (mem-append_right existing incoming m) p in
      (z, earliest-merge upper k existing incoming ∙ e, l)

  merge-covered :
      (m incoming : List Json)
      → IsMerged m
      → ((k : String) (a : Json) → Memᴰ a incoming → upper_name upper a ≡ some k → IsLate k a m)
      → merge_achievements upper m incoming ≡ m
  unfolding merge_achievements absorb_all
  merge-covered m incoming h late =
      absorb_all-append [] m incoming
      ∙ ap (λ (n : List Json). absorb_all upper n incoming) (absorb_all-merged [] m h (λ k. refl))
      ∙ absorb_all-covered m incoming h late

  -- A list that was merged once changes nothing when it is merged again, as when a launcher repeats
  -- a sync of which it has not seen the answer.
  pub merge-again :
      (existing incoming : List Json)
      → merge_achievements upper (merge_achievements upper existing incoming) incoming
        ≡ merge_achievements upper existing incoming
  merge-again existing incoming =
      merge-covered (merge_achievements upper existing incoming) incoming
        (merge-IsMerged existing incoming) (λ k a m p. merge-IsLate existing incoming k a m p)
