-- ===== src/Souvenirs/Sweep.antt =====
-- What the sweep of abandoned reservations deletes.
use hydra_server.Shared.{
  ℕ, ◌≡◌, refl, sym, ap, ◌∙◌, Bool, true, false, ◌||◌, leb, List, [], ◌∷◌, Memᴰ, any, select,
  delete, ◌==◌, arith, Bool-cases, inl, inr, any_of_mem, mem_of_any, mem-select, mem-select_inv,
  delete-delete, delete-none, unique_of_count, str_refl,
}
use hydra_server.Souvenirs.{Souvenir, Gallery, Status, pending, ready, has_id}
use hydra_server.Souvenirs.Manage.{
  is_stale, drop_stale, sweep_abandoned, drop_file, delete_souvenirs,
}
use hydra_server.Souvenirs.Steps.Filed.{IsFiled}

delete-congr :
    (p q : Souvenir → Bool) (xs : List Souvenir)
    → ((a : Souvenir) → Memᴰ a xs → p a ≡ q a)
    → delete p xs ≡ delete q xs
delete-congr p q [] h = refl
delete-congr p q (x ∷ xs) h =
    ground (arith, h x (Memᴰ.head refl), delete-congr p q xs (λ a m. h a (Memᴰ.tail m)))

abbrev listed : List Souvenir → Souvenir → Bool
listed rows s = any (λ r. s.id == r.id) rows

drop_stale-listed :
    (rows : List Souvenir) (g : Gallery)
    → (drop_stale rows g).souvenirs ≡ delete (listed rows) g.souvenirs
unfolding drop_stale
drop_stale-listed [] g = sym (delete-none g.souvenirs)
drop_stale-listed (r ∷ rows) g =
    drop_stale-listed rows (drop_file r.image_key (delete_souvenirs (has_id r.id) g))
    ∙ delete-delete (listed rows) (has_id r.id) g.souvenirs

listed-stale :
    (cutoff : ℕ) (a : Souvenir) (rows : List Souvenir)
    → IsFiled rows
    → Memᴰ a rows
    → listed (select (is_stale cutoff) rows) a ≡ is_stale cutoff a
listed-stale cutoff a rows h m = elim (Bool-cases (is_stale cutoff a)) [
  | inl y ↦
      any_of_mem (λ r. a.id == r.id) (select (is_stale cutoff) rows)
        (mem-select (is_stale cutoff) rows m y) (str_refl a.id)
      ∙ sym y
  | inr n ↦ elim (Bool-cases (listed (select (is_stale cutoff) rows) a)) [
    | inr k ↦ k ∙ sym n
    | inl k ↦
        let (r, i, e) = mem_of_any (λ r. a.id == r.id) (select (is_stale cutoff) rows) k in
        let (j, s) = mem-select_inv (is_stale cutoff) rows i in
        let same : a ≡ r =
          unique_of_count (has_id r.id) rows (h.single r.id) m j e (str_refl r.id) in
        let stale : is_stale cutoff a ≡ true = ap (is_stale cutoff) same ∙ s in
        absurd (cc (stale, n))
  ]
]

abbrev pub is_claimed : Status → Bool
is_claimed pending = false
is_claimed ready = true

kept-fresh :
    (cutoff : ℕ) (rows : List Souvenir)
    → delete (is_stale cutoff) rows
      ≡ select (λ r. is_claimed r.status || leb cutoff r.created_at) rows
kept-fresh cutoff [] = refl
kept-fresh cutoff (r ∷ rows) = ground (arith, kept-fresh cutoff rows)

-- From a gallery in order, the sweep deletes the rows whose status is pending and whose time of
-- creation is before the cutoff, those with an uploaded picture among them, and keeps every other
-- row in its place.
pub sweep_abandoned_exact :
    (cutoff : ℕ) (g : Gallery)
    → IsFiled g.souvenirs
    → (sweep_abandoned cutoff g).1.souvenirs
      ≡ select (λ r. is_claimed r.status || leb cutoff r.created_at) g.souvenirs
unfolding sweep_abandoned
sweep_abandoned_exact cutoff g h =
    drop_stale-listed (select (is_stale cutoff) g.souvenirs) g
    ∙ delete-congr (listed (select (is_stale cutoff) g.souvenirs)) (is_stale cutoff) g.souvenirs
        (λ a m. listed-stale cutoff a g.souvenirs h m)
    ∙ kept-fresh cutoff g.souvenirs
