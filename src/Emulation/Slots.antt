-- ===== src/Emulation/Slots.antt =====
-- What a commit makes of its slot.
use hydra_server.Shared.{
  ℕ, String, ◌≤◌, ◌≡◌, refl, sym, ap, ◌∙◌, Bool, true, false, ◌&&◌, ◌⊎◌, inl, inr, Option, none,
  some, List, Memᴰ, select, count, if◌then◌else◌, ◌==◌, str-eq, str_refl, arith, Bool-cases,
  Option-cases, any_of_mem, mem_of_any, mem-select, mem-select_inv, mem-update, mem-update_inv,
  unique_of_count, first-some_inv,
}
use hydra_server.Limits.{for_user}
use hydra_server.Achievements.{or_else}
use hydra_server.Emulation.{
  EmulationSave, Saves, CommitSave, has_id, owned, is_listed, same_slot, older, superseded,
  committed, length_or, fetch_save, replace_all, commit_rows, commit, save_key, answered,
}
use hydra_server.Emulation.Replaced.{
  listed, Outcome, replace_all-inv, replace_all-keeps, replace_all-files, IsHeld,
  replace_all-IsHeld,
}

-- The PRIMARY KEY of `emulation_saves`.
abbrev pub IsKeyed : List EmulationSave → Type 0
IsKeyed rows = (id : String) → count (has_id id) rows ≤ 1

-- A save of the user in the slot of `row`.
abbrev pub in_slot : String → EmulationSave → EmulationSave → Bool
in_slot user row s = (s.user_id == user) && same_slot row s

older-listed :
    (user : String) (row b : EmulationSave) (rows : List EmulationSave)
    → Memᴰ b rows
    → older user row b ≡ true
    → listed (select (older user row) rows) b ≡ true
older-listed user row b rows m h =
    any_of_mem (λ o. b.id == o.id) (select (older user row) rows)
      (mem-select (older user row) rows m h) (str_refl b.id)

listed-other :
    (user : String) (row b : EmulationSave) (rows : List EmulationSave)
    → listed (select (older user row) rows) b ≡ true
    → owned user row.id b ≡ false
listed-other user row b rows h =
    let (o, m, e) = mem_of_any (λ o. b.id == o.id) (select (older user row) rows) h in
    let (k, p) = mem-select_inv (older user row) rows m in
    let same : b.id ≡ o.id = (str-eq b.id o.id).0 e in
    let apart : (o.id == row.id) ≡ false = ground arith in
    let other : (b.id == row.id) ≡ false = rw same apart in ground (arith, other)

committed-slot :
    (user : String) (now : ℕ) (p : CommitSave) (row c : EmulationSave)
    → in_slot user row (committed now p c) ≡ in_slot user row c
committed-slot user now p row c = refl

row-slot :
    (now : ℕ) (user : String) (p : CommitSave) (row b c r : EmulationSave) (s : Saves) (auto : Bool)
    → IsKeyed s.saves
    → Memᴰ row s.saves
    → owned user row.id row ≡ true
    → Memᴰ b s.saves
    → Outcome now auto (select (older user row) s.saves) c b
    → r ≡ (if owned user row.id c then committed now p c else c)
    → in_slot user row r ≡ true
    → (r ≡ committed now p row) ⊎ (is_listed r ≡ false)
row-slot now user p row b c r s auto h k w m (inl (e, n)) d t =
    elim (Bool-cases (owned user row.id b)) [
      | inl y ↦
          let same : b ≡ row =
            unique_of_count (has_id row.id) s.saves (h row.id) m k (ground arith)
              (str_refl row.id) in
          let mine : owned user row.id c ≡ true = rw e y in
          inl ((rw mine at d) ∙ ap (committed now p) (e ∙ same))
      | inr y ↦
          let mine : owned user row.id c ≡ false = rw e y in
          let as_was : r ≡ b = (rw mine at d) ∙ e in
          let slot : in_slot user row b ≡ true = ap (in_slot user row) (sym as_was) ∙ t in
          let aside : older user row b ≡ true = ground (arith, y, slot) in
          absurd (cc (older-listed user row b s.saves m aside, n))
    ]
row-slot now user p row b c r s auto h k w m (inr (f, e, n)) d t =
    let mine : owned user row.id c ≡ false =
      ap (owned user row.id) e ∙ listed-other user row b s.saves n in
    let as_was : r ≡ superseded now b = (rw mine at d) ∙ e in
    inr (ap is_listed as_was ∙ not_listed b)
  where
    not_listed : (x : EmulationSave) → is_listed (superseded now x) ≡ false
    not_listed x = elim (Option-cases x.superseded_at) [
      | inl q ↦ rw q (ground arith)
      | inr (u, q) ↦ rw q (ground arith)
    ]

slot-rows :
    (now : ℕ) (user id : String) (p : CommitSave) (row r : EmulationSave) (s : Saves)
    → IsKeyed s.saves
    → fetch_save user id s ≡ some row
    → Memᴰ r (commit_rows now user p row s).saves
    → in_slot user row r ≡ true
    → (r ≡ committed now p row) ⊎ (is_listed r ≡ false)
unfolding commit_rows
slot-rows now user id p row r s h f m t =
    let auto = (for_user s.users s.settings user).auto_delete_saves in
    let (k, w) = first-some_inv (owned user id) s.saves f in
    let own : owned user row.id row ≡ true = ground (arith, str_refl row.id) in
    let (c, l, d) = mem-update_inv (owned user row.id) (committed now p) _ m in
    let (b, i, o) = replace_all-inv now auto (select (older user row) s.saves) c s l in
    row-slot now user p row b c r s auto h k own i o d t

row-unlisted :
    (user id : String) (row : EmulationSave) (s : Saves)
    → fetch_save user id s ≡ some row
    → listed (select (older user row) s.saves) row ≡ false
row-unlisted user id row s f = elim (Bool-cases (listed (select (older user row) s.saves) row)) [
  | inr n ↦ n
  | inl y ↦
      let (k, w) = first-some_inv (owned user id) s.saves f in
      let other : owned user row.id row ≡ false = listed-other user row row s.saves y in
      absurd (ground (arith, str_refl row.id, other))
]

committed-mem :
    (now : ℕ) (user id : String) (p : CommitSave) (row : EmulationSave) (s : Saves)
    → fetch_save user id s ≡ some row
    → Memᴰ (committed now p row) (commit_rows now user p row s).saves
unfolding commit_rows
committed-mem now user id p row s f =
    let auto = (for_user s.users s.settings user).auto_delete_saves in
    let (k, w) = first-some_inv (owned user id) s.saves f in
    let own : owned user row.id row ≡ true = ground (arith, str_refl row.id) in
    let kept : Memᴰ row (replace_all now auto (select (older user row) s.saves) s).saves =
      replace_all-keeps now auto (select (older user row) s.saves) row s k
        (row-unlisted user id row s f) in
    let there : Memᴰ (if owned user row.id row then committed now p row else row)
        (commit_rows now user p row s).saves =
      mem-update (owned user row.id) (committed now p) _ kept in
    rw own at there

answered-saves :
    (user : String) (o : Option EmulationSave) (s : Saves) → (answered user o s).1.saves ≡ s.saves
answered-saves user none s = refl
answered-saves user (some row) s = refl

answered-files :
    (user : String) (o : Option EmulationSave) (s : Saves) → (answered user o s).1.files ≡ s.files
answered-files user none s = refl
answered-files user (some row) s = refl

commit-run :
    (now : ℕ) (user id : String) (p : CommitSave) (row : EmulationSave) (s : Saves)
    → fetch_save user id s ≡ some row
    → ((commit now user id p s).1.saves ≡ (commit_rows now user p row s).saves)
      × ((commit now user id p s).1.files ≡ (commit_rows now user p row s).files)
unfolding commit
commit-run now user id p row s f =
    rw (commit, f)
      (
        answered-saves user (fetch_save user id (commit_rows now user p row s))
            (commit_rows now user p row s),
        answered-files user (fetch_save user id (commit_rows now user p row s))
            (commit_rows now user p row s),
      )

-- A commit of a save that was not superseded makes it the one of its slot: it is listed, uploaded at
-- the time of the commit, with each of the details that the commit brought and the old ones where it
-- brought none, and no other save of the user in the slot is.
pub commit-lists :
    (now : ℕ) (user id : String) (p : CommitSave) (row : EmulationSave) (s : Saves)
    → IsKeyed s.saves
    → fetch_save user id s ≡ some row
    → row.superseded_at ≡ none
    → let saved : EmulationSave = record row {
      is_uploaded = true;
      artifact_length_in_bytes = length_or p.artifact_length_in_bytes row.artifact_length_in_bytes;
      file_name = or_else p.file_name row.file_name;
      hostname = or_else p.hostname row.hostname;
      local_last_modified_at = or_else p.local_last_modified_at row.local_last_modified_at;
      label = or_else p.label row.label;
      metadata = or_else p.metadata row.metadata;
      last_uploaded_at = some now;
      updated_at = now;
    } in
      Memᴰ saved (commit now user id p s).1.saves
      × (is_listed saved ≡ true)
      × ((r : EmulationSave)
          → Memᴰ r (commit now user id p s).1.saves
          → in_slot user row r ≡ true
          → is_listed r ≡ true
          → r ≡ saved)
commit-lists now user id p row s h f u =
    let (run, files) = commit-run now user id p row s f in
    (
      rw run (committed-mem now user id p row s f),
      rw u refl,
      λ r m t l. elim (slot-rows now user id p row r s h f (rw run at m) t) [
        | inl e ↦ e
        | inr n ↦ absurd (cc (l, n))
      ],
    )

-- A commit of a save that another one had replaced, as it can be where the server keeps replaced
-- saves, leaves its slot with no listed save at all.
pub commit-superseded :
    (now since : ℕ) (user id : String) (p : CommitSave) (row r : EmulationSave) (s : Saves)
    → IsKeyed s.saves
    → fetch_save user id s ≡ some row
    → row.superseded_at ≡ some since
    → Memᴰ r (commit now user id p s).1.saves
    → in_slot user row r ≡ true
    → is_listed r ≡ false
commit-superseded now since user id p row r s h f u m t =
    let (run, files) = commit-run now user id p row s f in
    elim (slot-rows now user id p row r s h f (rw run at m) t) [
      | inl e ↦
          let gone : is_listed (committed now p row) ≡ false = rw u refl in ap is_listed e ∙ gone
      | inr n ↦ n
    ]

-- A commit puts no file on disk, yet it marks the save as uploaded: where no file of the save has
-- arrived, the commit lists it all the same, and there is still no file to download.
pub commit-no_file :
    (now : ℕ) (user id : String) (p : CommitSave) (row : EmulationSave) (s : Saves)
    → fetch_save user id s ≡ some row
    → row.superseded_at ≡ none
    → s.files (save_key id) ≡ false
    → Memᴰ (committed now p row) (commit now user id p s).1.saves
      × (is_listed (committed now p row) ≡ true)
      × ((commit now user id p s).1.files (save_key id) ≡ false)
unfolding commit_rows
commit-no_file now user id p row s f u n =
    let auto = (for_user s.users s.settings user).auto_delete_saves in
    let (run, files) = commit-run now user id p row s f in
    (
      rw run (committed-mem now user id p row s f),
      rw u refl,
      rw files (replace_all-files now auto (select (older user row) s.saves) (save_key id) s n),
    )

-- Where the server may not delete saves on its own, a commit takes no uploaded save of anyone out of
-- the table.
pub commit-keeps :
    (now : ℕ) (user id : String) (p : CommitSave) (b : EmulationSave) (s : Saves)
    → IsKeyed s.saves
    → (for_user s.users s.settings user).auto_delete_saves ≡ false
    → Memᴰ b s.saves
    → b.is_uploaded ≡ true
    → (r : EmulationSave) × Memᴰ r (commit now user id p s).1.saves
      × (r.id ≡ b.id)
      × (r.is_uploaded ≡ true)
unfolding commit commit_rows IsHeld
commit-keeps now user id p b s h off m u = elim (Option-cases (fetch_save user id s)) [
  | inl f ↦ rw (commit, f) (b, m, refl, u)
  | inr (row, f) ↦
      let olds = select (older user row) s.saves in
      let (run, files) = commit-run now user id p row s f in
      let (r, k, e, v) =
        replace_all-IsHeld now olds b.id s (λ o i n. not_same row o i n) (b, m, refl, u) in
      let there : Memᴰ (if owned user row.id r then committed now p r else r)
          (commit_rows now user p row s).saves =
        rw off (mem-update (owned user row.id) (committed now p) _ k) in
      rw run (elim (Bool-cases (owned user row.id r)) [
        | inl y ↦ (committed now p r, rw y at there, e, refl)
        | inr y ↦ (r, rw y at there, e, v)
      ])
]
  where
    not_same :
        (row o : EmulationSave)
        → Memᴰ o (select (older user row) s.saves)
        → o.is_uploaded ≡ false
        → (o.id == b.id) ≡ false
    not_same row o i n = elim (Bool-cases (o.id == b.id)) [
      | inr k ↦ k
      | inl k ↦
          let (j, w) = mem-select_inv (older user row) s.saves i in
          let same : o ≡ b = unique_of_count (has_id b.id) s.saves (h b.id) j m k (str_refl b.id) in
          absurd (cc (ap (λ (x : EmulationSave). x.is_uploaded) same, n, u))
    ]
