-- ===== src/CloudSaves/NewBytes.antt =====
-- The sums of `enforce_quota` against plain ones: the new bytes of a request, which the code adds up
-- over a map from hashes, and what an account stores, which it adds up table by table.
use hydra_server.Shared.{
  ℕ, String, ◌+◌, ◌≡◌, refl, sym, ap, ◌∙◌, Bool, true, false, ◌||◌, ◌&&◌, Option, none, some, List,
  [], ◌∷◌, ◌++◌, map, any, if◌then◌else◌, ◌==◌, str-eq, arith, Bool-cases, inl, inr,
}
use hydra_server.Shared.Int.{ℤ, pos, pos_part, ◌+ℤ◌, +ℤ_assoc, zero-+ℤ}
use hydra_server.Storage.{Sized, sum_sizes, used_bytes}
use hydra_server.CloudSaves.State.{Store, metered, sized_blob}
use hydra_server.CloudSaves.Request.{FileInput}
use hydra_server.CloudSaves.Prepare.{is_stored, insert_size, sizes_by_hash, sum_new}

abbrev is_there : Option ℕ → Bool
is_there none = false
is_there (some n) = true

-- A blob row of the account, and a file on disk behind it.
unfoldable pub holds : Store → String → String → Bool
holds s user hash =
    any (λ b. (b.user_id == user) && (b.hash == hash)) s.blobs
    && is_there (s.disk (record { user_id = user; hash = hash }))

abbrev has_hash : String → FileInput → Bool
has_hash hash f = f.hash == hash

-- The bytes of files that the account does not hold yet. Of the files with one hash the last counts.
unfoldable pub new_bytes : Store → String → List FileInput → ℕ
unfolding holds
new_bytes s user [] = 0
new_bytes s user (f ∷ files) =
    let rest = new_bytes s user files in
    if any (has_hash f.hash) files || holds s user f.hash
    then rest
    else pos_part f.size_bytes + rest

-- The sizes of an account's rows in a list of rows.
unfoldable pub total_of : String → List Sized → ℤ
total_of user [] = pos 0
total_of user (r ∷ rows) = (if r.user_id == user then r.size else pos 0) +ℤ total_of user rows

-- What an account stores: its rows in the five metered tables.
unfoldable pub stored_bytes : Store → String → ℤ
unfolding total_of
stored_bytes s user = total_of user (
    map (λ b. record { user_id = b.user_id; size = pos b.size }) s.blobs
    ++ (s.backups ++ (s.emulation_saves ++ (s.artwork ++ s.souvenirs))))

holds-is_stored : (s : Store) (user hash : String) → is_stored s user hash ≡ holds s user hash
unfolding is_stored holds
holds-is_stored s user hash = ground arith

abbrev has_key : String → String × ℕ → Bool
has_key hash e = e.0 == hash

-- A hash has one entry.
IsDistinct : List (String × ℕ) → Type 0
IsDistinct [] = Unit
IsDistinct ((h, n) ∷ acc) = (any (has_key h) acc ≡ false) × IsDistinct acc

has_key-insert_size :
    (h : String) (n : ℕ) (acc : List (String × ℕ)) (g : String)
    → any (has_key g) (insert_size h n acc) ≡ any (has_key g) acc || (h == g)
has_key-insert_size h n [] g = ground arith
has_key-insert_size h n ((k, m) ∷ acc) g =
    ground (arith, has_key-insert_size h n acc g, str-eq k h, str-eq k g, str-eq h g)

insert_size-IsDistinct :
    (h : String) (n : ℕ) (acc : List (String × ℕ))
    → IsDistinct acc
    → IsDistinct (insert_size h n acc)
unfolding IsDistinct
insert_size-IsDistinct h n [] d = (refl, tt)
insert_size-IsDistinct h n ((k, m) ∷ acc) (c, d) = elim (Bool-cases (k == h)) [
  | inl y ↦ rw y (c, d)
  | inr o ↦
      let fresh : any (has_key k) (insert_size h n acc) ≡ false =
        ground (arith, has_key-insert_size h n acc k, str-eq h k, str-eq k h, c) in
      rw o (fresh, insert_size-IsDistinct h n acc d)
]

module _ (s : Store) (user : String) where
  -- What the entries of a map add to the sum, when the files are still to come.
  weight : List FileInput → List (String × ℕ) → ℕ
  weight files [] = 0
  weight files ((h, n) ∷ acc) =
      let rest = weight files acc in
      if any (has_hash h) files || holds s user h then rest else n + rest

  weight-absent :
      (f : FileInput) (files : List FileInput) (acc : List (String × ℕ))
      → any (has_key f.hash) acc ≡ false
      → weight (f ∷ files) acc ≡ weight files acc
  unfolding weight
  weight-absent f files [] a = refl
  weight-absent f files ((h, n) ∷ acc) a =
      ground (arith, weight-absent f files acc, str-eq f.hash h, str-eq h f.hash)

  weight-insert_size :
      (f : FileInput) (files : List FileInput) (n : ℕ) (acc : List (String × ℕ))
      → IsDistinct acc
      → weight files (insert_size f.hash n acc)
        ≡ (if any (has_hash f.hash) files || holds s user f.hash then 0 else n)
          + weight (f ∷ files) acc
  unfolding weight IsDistinct
  weight-insert_size f files n [] d = ground arith
  weight-insert_size f files n ((h, m) ∷ acc) (c, d) = elim (Bool-cases (h == f.hash)) [
    | inl y ↦
        let e : h ≡ f.hash = (str-eq h f.hash).0 y in
        let absent : any (has_key f.hash) acc ≡ false = rw e at c in
        let back : (f.hash == h) ≡ true = (str-eq f.hash h).1 (sym e) in
        rw (y, back)
          (ground (
            arith,
            weight-absent f files acc absent,
            ap (λ x. any (has_hash x) files) e,
            ap (holds s user) e,
          ))
    | inr o ↦
        ground (arith, o, weight-insert_size f files n acc d, str-eq h f.hash, str-eq f.hash h)
  ]

  sum_new-weight : (acc : List (String × ℕ)) → sum_new s user acc ≡ weight [] acc
  unfolding sum_new weight
  sum_new-weight [] = refl
  sum_new-weight ((h, n) ∷ acc) = ground (arith, sum_new-weight acc, holds-is_stored s user h)

  sum_new-sizes :
      (files : List FileInput) (acc : List (String × ℕ))
      → IsDistinct acc
      → sum_new s user (sizes_by_hash files acc) ≡ new_bytes s user files + weight files acc
  unfolding sizes_by_hash new_bytes
  sum_new-sizes [] acc d = omega (arith, sum_new-weight acc)
  sum_new-sizes (f ∷ files) acc d =
      let n = pos_part f.size_bytes in
      let rest =
        sum_new-sizes files (insert_size f.hash n acc) (insert_size-IsDistinct f.hash n acc d) in
      ground (arith, rest, weight-insert_size f files n acc d)

  -- The sum over the map is the plain one.
  pub sum_new-new_bytes :
      (files : List FileInput) → sum_new s user (sizes_by_hash files []) ≡ new_bytes s user files
  unfolding weight IsDistinct
  sum_new-new_bytes files = omega (arith, sum_new-sizes files [] tt)

sum_sizes-total_of : (user : String) (rows : List Sized) → total_of user rows ≡ sum_sizes user rows
unfolding total_of sum_sizes
sum_sizes-total_of user [] = refl
sum_sizes-total_of user (r ∷ rows) = elim (Bool-cases (r.user_id == user)) [
  | inl y ↦ rw y (ap (λ x. r.size +ℤ x) (sum_sizes-total_of user rows))
  | inr n ↦ rw n (zero-+ℤ (total_of user rows) ∙ sum_sizes-total_of user rows)
]

total_of-append :
    (user : String) (a b : List Sized)
    → total_of user (a ++ b) ≡ sum_sizes user a +ℤ total_of user b
unfolding total_of sum_sizes
total_of-append user [] b = sym (zero-+ℤ (total_of user b))
total_of-append user (r ∷ a) b = elim (Bool-cases (r.user_id == user)) [
  | inl y ↦ rw y (
      ap (λ x. r.size +ℤ x) (total_of-append user a b)
      ∙ sym (+ℤ_assoc r.size (sum_sizes user a) (total_of user b)))
  | inr n ↦ rw n (zero-+ℤ (total_of user (a ++ b)) ∙ total_of-append user a b)
]

sum_of_five : (a b c d e : ℤ) → a +ℤ b +ℤ c +ℤ d +ℤ e ≡ a +ℤ (b +ℤ (c +ℤ (d +ℤ e)))
sum_of_five a b c d e =
    +ℤ_assoc (a +ℤ b +ℤ c) d e ∙ +ℤ_assoc (a +ℤ b) c (d +ℤ e) ∙ +ℤ_assoc a b (c +ℤ (d +ℤ e))

-- The sum table by table is the sum over all rows.
pub used_bytes-stored_bytes :
    (s : Store) (user : String) → used_bytes (metered s) user ≡ stored_bytes s user
unfolding used_bytes stored_bytes
used_bytes-stored_bytes s user =
    let blobs = map sized_blob s.blobs in
    let e = s.emulation_saves in
    let a = total_of-append user blobs (s.backups ++ (e ++ (s.artwork ++ s.souvenirs))) in
    let b = total_of-append user s.backups (e ++ (s.artwork ++ s.souvenirs)) in
    let c = total_of-append user e (s.artwork ++ s.souvenirs) in
    let d = total_of-append user s.artwork s.souvenirs in
    let f = sum_sizes-total_of user s.souvenirs in
    let sum = sum_sizes user in
    sum_of_five (sum blobs) (sum s.backups) (sum e) (sum s.artwork) (sum s.souvenirs)
    ∙ sym (
        a
        ∙ ap (λ x. sum blobs +ℤ x)
            (b
              ∙ ap (λ x. sum s.backups +ℤ x)
                  (c ∙ ap (λ x. sum e +ℤ x) (d ∙ ap (λ x. sum s.artwork +ℤ x) f))))
