-- ===== src/Schedule/Earliest.antt =====
-- What the loops of `validate_all` and `next_timer_run` say of each trigger of a task.
use Prim.Native.Nat.{min}
use hydra_server.Shared.{
  ℕ, String, ◌≤◌, ◌≡◌, refl, sym, ap, ◌∙◌, subst, ◌⊎◌, inl, inr, Bool, true, false, Option, none,
  some, List, [], ◌∷◌, Memᴰ, arith, Option-cases,
}
use hydra_server.Triggers.{Trigger, validate}
use hydra_server.Triggers.Timer.{Calendar, next_run}
use hydra_server.Schedule.{next_timer_run, if_enabled, validate_all, sooner}

-- The time is one at which a trigger asks for a run, and no trigger asks for an earlier one; there is
-- none where no trigger asks for a run.
abbrev pub IsEarliest : Calendar → ℕ → List Trigger → Option ℕ → Type 0
IsEarliest calendar now triggers next =
    ((n : ℕ) → next ≡ some n → (t : Trigger) × Memᴰ t triggers × (next_run calendar now t ≡ some n))
    × ((t : Trigger) (n : ℕ)
        → Memᴰ t triggers
        → next_run calendar now t ≡ some n
        → (m : ℕ) × (next ≡ some m) × (m ≤ n))

first-or_later :
    {u t : Trigger} {triggers : List Trigger} (known : String → Bool) (owner : String)
    → validate known owner u ≡ none
    → (Memᴰ t triggers → validate known owner t ≡ none)
    → Memᴰ t (u ∷ triggers)
    → validate known owner t ≡ none
first-or_later known owner here later (Memᴰ.head i) = ap (validate known owner) i ∙ here
first-or_later known owner here later (Memᴰ.tail k) = later k

pub validate_all-inv :
    (known : String → Bool) (owner : String) (triggers : List Trigger)
    → validate_all known owner triggers ≡ none
    → (t : Trigger) → Memᴰ t triggers
    → validate known owner t ≡ none
unfolding validate_all
validate_all-inv known owner [] e t m = elim m [ ]
validate_all-inv known owner (u ∷ triggers) e t m = elim (Option-cases (validate known owner u)) [
  | inr (message, y) ↦ absurd (cc (rw (validate_all, y) at e))
  | inl n ↦
      first-or_later known owner n
        (validate_all-inv known owner triggers (rw (validate_all, n) at e) t) m
]

-- The sooner of two times is one of them, and no later than either.
sooner-inv : (a b : Option ℕ) (n : ℕ) → sooner a b ≡ some n → (a ≡ some n) ⊎ (b ≡ some n)
sooner-inv none b n e = inr e
sooner-inv (some x) none n e = inl e
sooner-inv (some x) (some y) n e = ground arith

sooner-left : (b : Option ℕ) (x : ℕ) → (m : ℕ) × (sooner (some x) b ≡ some m) × (m ≤ x)
sooner-left none x = (x, refl, omega arith)
sooner-left (some y) x = (min x y, ground arith, omega arith)

sooner-right : (a : Option ℕ) (y : ℕ) → (m : ℕ) × (sooner a (some y) ≡ some m) × (m ≤ y)
sooner-right none y = (y, refl, omega arith)
sooner-right (some x) y = (min x y, ground arith, omega arith)

IsEarliest-sooner :
    (calendar : Calendar) (now : ℕ) (u : Trigger) (triggers : List Trigger) (next : Option ℕ)
    → IsEarliest calendar now triggers next
    → IsEarliest calendar now (u ∷ triggers) (sooner (next_run calendar now u) next)
IsEarliest-sooner calendar now u triggers next (one, least) = (
  λ n e. elim (sooner-inv (next_run calendar now u) next n e) [
    | inl a ↦ (u, Memᴰ.head refl, a)
    | inr b ↦ let (t, m, q) = one n b in (t, Memᴰ.tail m, q)
  ],
  later,
)
  where
    later :
        (t : Trigger) (n : ℕ)
        → Memᴰ t (u ∷ triggers)
        → next_run calendar now t ≡ some n
        → (m : ℕ) × (sooner (next_run calendar now u) next ≡ some m) × (m ≤ n)
    later t n (Memᴰ.head i) e =
        let here : next_run calendar now u ≡ some n = ap (next_run calendar now) (sym i) ∙ e in
        rw here (sooner-left next n)
    later t n (Memᴰ.tail k) e =
        let (m, p, l) = least t n k e in
        let (j, q, h) = sooner-right (next_run calendar now u) m in (j, rw p q, omega (arith, l, h))

next_timer_run-IsEarliest :
    (calendar : Calendar) (now : ℕ) (triggers : List Trigger)
    → IsEarliest calendar now triggers (next_timer_run calendar now triggers)
unfolding next_timer_run
next_timer_run-IsEarliest calendar now [] = (λ n e. absurd (cc e), λ t n m e. elim m [ ])
next_timer_run-IsEarliest calendar now (u ∷ triggers) =
    IsEarliest-sooner calendar now u triggers (next_timer_run calendar now triggers)
      (next_timer_run-IsEarliest calendar now triggers)

pub if_enabled-IsEarliest :
    (calendar : Calendar) (now : ℕ) (enabled : Bool) (triggers : List Trigger) (next : Option ℕ)
    → next ≡ if_enabled enabled (next_timer_run calendar now triggers)
    → (enabled ≡ true → IsEarliest calendar now triggers next) × (enabled ≡ false → next ≡ none)
if_enabled-IsEarliest calendar now true triggers next e = (
  λ y.
      subst (IsEarliest calendar now triggers) (sym e)
        (next_timer_run-IsEarliest calendar now triggers),
  λ n. absurd (cc n),
)
if_enabled-IsEarliest calendar now false triggers next e = (λ y. absurd (cc y), λ n. e)
