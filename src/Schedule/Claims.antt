-- ===== src/Schedule/Claims.antt =====
-- Runs of tasks that interleave: the ticks, the operators' runs and the changes of the schedule.
use hydra_server.Shared.{
  ℕ, String, ◌≤◌, ◌≡◌, refl, sym, ap, ◌∙◌, Bool, false, not, ◌&&◌, inl, inr, Option, List, [], ◌∷◌,
  ◌++◌, count, if◌then◌else◌, ◌==◌, str-eq, arith, Bool-cases, count-append,
}
use hydra_server.ApiError.{ApiError, Result, ok, err, ok-injective, Result-cases}
use hydra_server.Triggers.{Trigger}
use hydra_server.Triggers.Timer.{Calendar}
use hydra_server.Schedule.{Job, get, update_task, ensure_rows}
use hydra_server.Schedule.Running.{
  Reason, Schedule, Active, Outcome, is_running, take_claim, drop_claim, begin_run, end_run,
}

-- A server: its schedule, and the runs that are under way.
pub record Server : Type 0 where
  pub schedule : Schedule
  pub active : List Active

abbrev pub runs_of : String → Active → Bool
runs_of id a = a.id == id

module _ (calendar : Calendar) (jobs : List Job) where
  -- What can happen between two awaits: a run begins or is refused, a job answers, a request is
  -- cancelled while its job runs, or the schedule is changed.
  pub data Step : Server → Server → Type 0 where
    begins :
        (id : String) (reason : Reason) (start : ℕ) (s t : Schedule) (a : Active) (l : List Active)
        → begin_run jobs id reason start s ≡ (ok a, t)
        → Step (record { schedule = s; active = l }) (record { schedule = t; active = a ∷ l })
    refuses :
        (id : String) (reason : Reason) (start : ℕ) (s t : Schedule) (e : ApiError)
        (l : List Active)
        → begin_run jobs id reason start s ≡ (err e, t)
        → Step (record { schedule = s; active = l }) (record { schedule = t; active = l })
    ends :
        (a : Active) (finish : ℕ) (outcome : Outcome) (s : Schedule) (l m : List Active)
        → Step
            (record { schedule = s; active = l ++ a ∷ m })
            (record { schedule = end_run calendar a finish outcome s; active = l ++ m })
    cancels :
        (a : Active) (s : Schedule) (l m : List Active)
        → Step
            (record { schedule = s; active = l ++ a ∷ m })
            (record {
              schedule = record s { running = drop_claim a.id s.running };
              active = l ++ m;
            })
    changes :
        (now : ℕ) (id : String) (enabled : Option Bool) (triggers : Option (List Trigger))
        (s : Schedule)
        → (l : List Active)
        → Step
            (record { schedule = s; active = l })
            (record {
              schedule = record s {
                tasks = (update_task calendar now jobs id enabled triggers s.tasks).1;
              };
              active = l;
            })
    ensures :
        (now : ℕ) (s : Schedule) (l : List Active)
        → Step
            (record { schedule = s; active = l })
            (record { schedule = record s { tasks = ensure_rows now jobs s.tasks }; active = l })

  pub data Reach (start : Server) : Server → Type 0 where
    here : Reach start start
    next : {s t : Server} → Reach start s → Step s t → Reach start t

-- The claims are those of the runs under way, one run for a claim.
abbrev pub IsExclusive : List String → List Active → Type 0
IsExclusive running active =
    (id : String) → count (runs_of id) active ≡ (if is_running id running then 1 else 0)

is_running-drop :
    (id j : String) (running : List String)
    → is_running j (drop_claim id running) ≡ is_running j running && not (id == j)
unfolding drop_claim
is_running-drop id j [] = refl
is_running-drop id j (r ∷ running) =
    ground (arith, str-eq r id, str-eq r j, str-eq id j, is_running-drop id j running)

begin_run-inv :
    (jobs : List Job) (id : String) (reason : Reason) (start : ℕ) (s t : Schedule) (a : Active)
    → begin_run jobs id reason start s ≡ (ok a, t)
    → (is_running id s.running ≡ false) × (a.id ≡ id) × (t.running ≡ id ∷ s.running)
unfolding begin_run take_claim
begin_run-inv jobs id reason start s t a e = elim (Result-cases (get jobs s.tasks id)) [
  | inl (x, p) ↦ absurd (cc (rw (begin_run, p) at e))
  | inr (task, p) ↦ elim (Bool-cases (is_running id s.running)) [
    | inl y ↦ absurd (cc (rw (begin_run, p, take_claim, y) at e))
    | inr n ↦
        let run : begin_run jobs id reason start s ≡ (
          ok (record { id = id; task = task; reason = reason; since = start }),
          record s { running = id ∷ s.running },
        ) =
          rw (begin_run, p, take_claim, n) refl in
        let made : Path (Result Active × Schedule)
            (
              ok (record { id = id; task = task; reason = reason; since = start }),
              record s { running = id ∷ s.running },
            )
            (ok a, t) =
          sym run ∙ e in
        (
          n,
          sym (ap (λ (x : Active). x.id) (ok-injective (ap (λ x. x.0) made))),
          sym (ap (λ x. x.1.running) made),
        )
  ]
]

begin_run-err :
    (jobs : List Job) (id : String) (reason : Reason) (start : ℕ) (s t : Schedule) (e : ApiError)
    → begin_run jobs id reason start s ≡ (err e, t)
    → s.running ≡ t.running
unfolding begin_run take_claim
begin_run-err jobs id reason start s t x e = elim (Result-cases (get jobs s.tasks id)) [
  | inl (y, p) ↦ ap (λ z. z.1.running) (rw (begin_run, p) at e)
  | inr (task, p) ↦ elim (Bool-cases (is_running id s.running)) [
    | inl y ↦ ap (λ z. z.1.running) (rw (begin_run, p, take_claim, y) at e)
    | inr n ↦ absurd (cc (rw (begin_run, p, take_claim, n) at e))
  ]
]

IsExclusive-add :
    (a : Active) (running : List String) (l : List Active)
    → is_running a.id running ≡ false
    → IsExclusive running l
    → IsExclusive (a.id ∷ running) (a ∷ l)
IsExclusive-add a running l n h j = elim (Bool-cases (a.id == j)) [
  | inl y ↦
      let none_yet : is_running j running ≡ false = rw ((str-eq a.id j).0 y) at n in
      ground (arith, y, h j, none_yet)
  | inr k ↦ ground (arith, k, h j)
]

IsExclusive-drop :
    (a : Active) (running : List String) (l m : List Active)
    → IsExclusive running (l ++ a ∷ m)
    → IsExclusive (drop_claim a.id running) (l ++ m)
IsExclusive-drop a running l m h j = ground (
  arith,
  h j,
  count-append (runs_of j) l (a ∷ m),
  count-append (runs_of j) l m,
  is_running-drop a.id j running,
  str-eq a.id j,
)

module _ (calendar : Calendar) (jobs : List Job) where
  Step-IsExclusive :
      {s t : Server}
      → Step calendar jobs s t
      → IsExclusive s.schedule.running s.active
      → IsExclusive t.schedule.running t.active
  unfolding end_run
  Step-IsExclusive (begins id reason start s t a l e) h =
      let (n, i, r) = begin_run-inv jobs id reason start s t a e in
      let free : is_running a.id s.running ≡ false = rw i n in
      rw (r, ← i) (IsExclusive-add a s.running l free h)
  Step-IsExclusive (refuses id reason start s t x l e) h =
      rw (← begin_run-err jobs id reason start s t x e) h
  Step-IsExclusive (ends a finish outcome s l m) h = IsExclusive-drop a s.running l m h
  Step-IsExclusive (cancels a s l m) h = IsExclusive-drop a s.running l m h
  Step-IsExclusive (changes now id enabled triggers s l) h = h
  Step-IsExclusive (ensures now s l) h = h

  Reach-IsExclusive :
      {start s : Server}
      → Reach calendar jobs start s
      → IsExclusive start.schedule.running start.active
      → IsExclusive s.schedule.running s.active
  Reach-IsExclusive here h = h
  Reach-IsExclusive (next r t) h = Step-IsExclusive t (Reach-IsExclusive r h)

  -- No task runs twice at a time: from a server on which nothing runs, whatever interleaving of ticks,
  -- runs by hand, answers, cancelled requests and changes of the schedule is taken, at most one run of
  -- each task is under way; and a task's claim is held exactly while one is.
  pub Reach-one_run :
      (start s : Server) (id : String)
      → start.schedule.running ≡ []
      → start.active ≡ []
      → Reach calendar jobs start s
      → (count (runs_of id) s.active ≤ 1)
        × (count (runs_of id) s.active ≡ (if is_running id s.schedule.running then 1 else 0))
  Reach-one_run start s id e f r =
      let h = Reach-IsExclusive r (rw (e, f) (λ j. refl)) in (ground (arith, h id), h id)
