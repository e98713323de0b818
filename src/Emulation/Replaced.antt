-- ===== src/Emulation/Replaced.antt =====
-- What the loop over the older saves of a slot leaves.
use hydra_server.Shared.{
  ℕ, String, ◌≡◌, refl, sym, ap, ◌∙◌, Bool, true, false, not, ◌||◌, ◌⊎◌, inl, inr, Option, none,
  some, List, [], ◌∷◌, Memᴰ, any, update, delete, if◌then◌else◌, ◌==◌, str-eq, arith, Bool-cases,
  mem-delete_inv, mem-delete, mem-update, mem-update_inv,
}
use hydra_server.Achievements.{or_else}
use hydra_server.Emulation.{EmulationSave, Saves, has_id, superseded, replace_one, replace_all}

-- A row of `rows` has the id.
abbrev pub listed : List EmulationSave → EmulationSave → Bool
listed rows s = any (λ o. s.id == o.id) rows

or_else-twice : (o : Option ℕ) (t : ℕ) → or_else (or_else o (some t)) (some t) ≡ or_else o (some t)
or_else-twice none t = refl
or_else-twice (some u) t = refl

superseded-twice :
    (now : ℕ) (s : EmulationSave) → superseded now (superseded now s) ≡ superseded now s
superseded-twice now s = rw (or_else-twice s.superseded_at now) refl

-- What became of a row: it is as it was, or it is superseded.
abbrev pub Outcome : ℕ → Bool → List EmulationSave → EmulationSave → EmulationSave → Type 0
Outcome now auto olds r b =
    ((r ≡ b) × (listed olds b ≡ false))
    ⊎ ((auto ≡ false) × (r ≡ superseded now b) × (listed olds b ≡ true))

replace_one-inv :
    (now : ℕ) (auto : Bool) (old r : EmulationSave) (s : Saves)
    → Memᴰ r (replace_one now auto old s).saves
    → (b : EmulationSave) × Memᴰ b s.saves
      × (((r ≡ b) × (has_id old.id b ≡ false))
          ⊎ ((auto ≡ false) × (r ≡ superseded now b) × (has_id old.id b ≡ true)))
unfolding replace_one
replace_one-inv now auto old r s m = elim (Bool-cases (auto || not old.is_uploaded)) [
  | inl y ↦
      let n : Memᴰ r (delete (has_id old.id) s.saves) = rw (replace_one, y) at m in
      let (k, a) = mem-delete_inv (has_id old.id) s.saves n in (r, k, inl (refl, a))
  | inr y ↦
      let n : Memᴰ r (update (has_id old.id) (superseded now) s.saves) = rw (replace_one, y) at m in
      let (b, k, e) = mem-update_inv (has_id old.id) (superseded now) s.saves n in
      elim (Bool-cases (has_id old.id b)) [
        | inl h ↦ (b, k, inr (ground arith, rw h at e, h))
        | inr h ↦ (b, k, inl (rw h at e, h))
      ]
]

-- One outcome after another.
outcome-step :
    (now : ℕ) (auto : Bool) (old r c b : EmulationSave) (rows : List EmulationSave)
    → Outcome now auto rows r c
    → ((c ≡ b) × (has_id old.id b ≡ false))
      ⊎ ((auto ≡ false) × (c ≡ superseded now b) × (has_id old.id b ≡ true))
    → Outcome now auto (old ∷ rows) r b
outcome-step now auto old r c b rows (inl (e, n)) (inl (d, h)) =
    inl (e ∙ d, rw h (ap (listed rows) (sym d) ∙ n))
outcome-step now auto old r c b rows (inr (f, e, y)) (inl (d, h)) =
    inr (f, e ∙ ap (superseded now) d, rw h (ap (listed rows) (sym d) ∙ y))
outcome-step now auto old r c b rows (inl (e, n)) (inr (f, d, h)) = inr (f, e ∙ d, rw h refl)
outcome-step now auto old r c b rows (inr (f, e, y)) (inr (g, d, h)) =
    inr (f, e ∙ ap (superseded now) d ∙ superseded-twice now b, rw h refl)

pub replace_all-inv :
    (now : ℕ) (auto : Bool) (olds : List EmulationSave) (r : EmulationSave) (s : Saves)
    → Memᴰ r (replace_all now auto olds s).saves
    → (b : EmulationSave) × Memᴰ b s.saves × Outcome now auto olds r b
unfolding replace_all
replace_all-inv now auto [] r s m = (r, m, inl (refl, refl))
replace_all-inv now auto (old ∷ rows) r s m =
    let (c, k, o) = replace_all-inv now auto rows r (replace_one now auto old s) m in
    let (b, l, p) = replace_one-inv now auto old c s k in
    (b, l, outcome-step now auto old r c b rows o p)

replace_one-keeps :
    (now : ℕ) (auto : Bool) (old b : EmulationSave) (s : Saves)
    → Memᴰ b s.saves
    → has_id old.id b ≡ false
    → Memᴰ b (replace_one now auto old s).saves
unfolding replace_one
replace_one-keeps now auto old b s m n = elim (Bool-cases (auto || not old.is_uploaded)) [
  | inl y ↦ rw (replace_one, y) (mem-delete (has_id old.id) s.saves m n)
  | inr y ↦
      let k : Memᴰ (if has_id old.id b then superseded now b else b)
          (update (has_id old.id) (superseded now) s.saves) =
        mem-update (has_id old.id) (superseded now) s.saves m in
      rw (replace_one, y) (rw n at k)
]

pub replace_all-keeps :
    (now : ℕ) (auto : Bool) (olds : List EmulationSave) (b : EmulationSave) (s : Saves)
    → Memᴰ b s.saves
    → listed olds b ≡ false
    → Memᴰ b (replace_all now auto olds s).saves
unfolding replace_all
replace_all-keeps now auto [] b s m n = m
replace_all-keeps now auto (old ∷ rows) b s m n =
    replace_all-keeps now auto rows b (replace_one now auto old s)
      (replace_one-keeps now auto old b s m (ground arith)) (ground arith)

replace_one-files :
    (now : ℕ) (auto : Bool) (old : EmulationSave) (key : String) (s : Saves)
    → s.files key ≡ false
    → (replace_one now auto old s).files key ≡ false
unfolding replace_one
replace_one-files now auto old key s e = elim (Bool-cases (auto || not old.is_uploaded)) [
  | inl y ↦ rw (replace_one, y) (ground arith)
  | inr y ↦ rw (replace_one, y) e
]

-- The loop puts no file on disk.
pub replace_all-files :
    (now : ℕ) (auto : Bool) (olds : List EmulationSave) (key : String) (s : Saves)
    → s.files key ≡ false
    → (replace_all now auto olds s).files key ≡ false
unfolding replace_all
replace_all-files now auto [] key s e = e
replace_all-files now auto (old ∷ rows) key s e =
    replace_all-files now auto rows key (replace_one now auto old s)
      (replace_one-files now auto old key s e)

-- An uploaded row of the id stays where the server deletes no saves.
unfoldable pub IsHeld : String → List EmulationSave → Type 0
IsHeld id rows = (r : EmulationSave) × Memᴰ r rows × (r.id ≡ id) × (r.is_uploaded ≡ true)

replace_one-IsHeld :
    (now : ℕ) (old : EmulationSave) (id : String) (s : Saves)
    → (old.is_uploaded ≡ false → (old.id == id) ≡ false)
    → IsHeld id s.saves
    → IsHeld id (replace_one now false old s).saves
unfolding replace_one IsHeld
replace_one-IsHeld now old id s h (r, m, e, u) = elim (Bool-cases old.is_uploaded) [
  | inr n ↦
      let other : has_id old.id r ≡ false = elim (Bool-cases (r.id == old.id)) [
        | inr k ↦ k
        | inl k ↦
            let same : (old.id == id) ≡ true =
              (str-eq old.id id).1 (sym ((str-eq r.id old.id).0 k) ∙ e) in
            absurd (cc (same, h n))
      ] in
      rw (replace_one, n) (r, mem-delete (has_id old.id) s.saves m other, e, u)
  | inl y ↦
      let k : Memᴰ (if has_id old.id r then superseded now r else r)
          (update (has_id old.id) (superseded now) s.saves) =
        mem-update (has_id old.id) (superseded now) s.saves m in
      rw (replace_one, y)
        (elim (Bool-cases (has_id old.id r)) [
          | inl w ↦ (superseded now r, rw w at k, e, u)
          | inr w ↦ (r, rw w at k, e, u)
        ])
]

pub replace_all-IsHeld :
    (now : ℕ) (olds : List EmulationSave) (id : String) (s : Saves)
    → ((o : EmulationSave) → Memᴰ o olds → o.is_uploaded ≡ false → (o.id == id) ≡ false)
    → IsHeld id s.saves
    → IsHeld id (replace_all now false olds s).saves
unfolding replace_all
replace_all-IsHeld now [] id s h k = k
replace_all-IsHeld now (old ∷ rows) id s h k =
    replace_all-IsHeld now rows id (replace_one now false old s) (λ o m n. h o (Memᴰ.tail m) n)
      (replace_one-IsHeld now old id s (λ n. h old (Memᴰ.head refl) n) k)
