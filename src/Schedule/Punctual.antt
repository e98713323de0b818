-- ===== src/Schedule/Punctual.antt =====
-- When a task asks to run after one of its runs.
use hydra_server.Shared.{
  ℕ, String, ◌≤◌, ◌<◌, ◌≡◌, refl, ap, ◌∙◌, Bool, false, ◌⊎◌, inl, inr, Option, none, some, List, [],
  ◌∷◌, ltb, arith, Bool-cases, Option-cases,
}
use hydra_server.Shared.Int.{ℤ}
use hydra_server.Triggers.{Trigger, TimeUnit, every}
use hydra_server.Triggers.Timer.{Calendar, next_run}
use hydra_server.Triggers.Next.{next_run-after}
use hydra_server.Schedule.{
  Job, Task, TaskRow, find, stored_task, next_timer_run, sooner, if_enabled, new_row,
}
use hydra_server.Schedule.Running.{Schedule, Active, Outcome, ran, next_of, end_run}
use hydra_server.Schedule.Due.{Surroundings, fired, after_parent, is_due, is_ok, parent_finished}
use hydra_server.Schedule.Stored.{first-upsert, stored-upsert}

sooner-inv : (a b : Option ℕ) (u : ℕ) → sooner a b ≡ some u → (a ≡ some u) ⊎ (b ≡ some u)
sooner-inv none b u e = inr e
sooner-inv (some a) none u e = inl e
sooner-inv (some a) (some b) u e = elim (Bool-cases (ltb b a)) [
  | inl y ↦ inr (rw y at e)
  | inr n ↦ inl (rw n at e)
]

pub next_timer_run-after :
    (calendar : Calendar) (from u : ℕ) (triggers : List Trigger)
    → next_timer_run calendar from triggers ≡ some u
    → from < u
unfolding next_timer_run
next_timer_run-after calendar from u [] e = cc
next_timer_run-after calendar from u (t ∷ triggers) e =
    elim (sooner-inv (next_run calendar from t) (next_timer_run calendar from triggers) u e) [
      | inl p ↦ next_run-after calendar from u t p
      | inr p ↦ next_timer_run-after calendar from u triggers p
    ]

if_enabled-inv : (b : Bool) (o : Option ℕ) (u : ℕ) → if_enabled b o ≡ some u → o ≡ some u
if_enabled-inv b o u e = elim (Bool-cases b) [ inl y ↦ rw y at e | inr n ↦ absurd (cc (rw n at e)) ]

next_of-due :
    (calendar : Calendar) (a : Active) (finish now : ℕ)
    → now ≤ finish
    → is_due (next_of calendar a finish) now ≡ false
next_of-due calendar a finish now le = elim (Option-cases (next_of calendar a finish)) [
  | inl n ↦ rw n refl
  | inr (u, e) ↦
      let later : finish < u =
        next_timer_run-after calendar finish u a.task.triggers
          (if_enabled-inv a.task.enabled (next_timer_run calendar finish a.task.triggers) u e) in
      rw e (ground arith)
]

-- The task that is read once a run has ended.
ended-task :
    (calendar : Calendar) (jobs : List Job) (job : Job) (a : Active) (finish : ℕ)
    (outcome : Outcome)
    → (s : Schedule) → find jobs job.id ≡ some job
    → a.id ≡ job.id
    → ((stored_task jobs (end_run calendar a finish outcome s).tasks job).next_run_at
        ≡ next_of calendar a finish)
      × ((stored_task jobs (end_run calendar a finish outcome s).tasks job).last_run_at
          ≡ some a.since)
unfolding end_run
ended-task calendar jobs job a finish outcome s e i =
    let next = next_of calendar a finish in
    let f = ran a.since finish next outcome in
    let (later, g, o) =
      stored-upsert jobs job (f (new_row finish a.id a.task.enabled a.task.triggers next)) f s.tasks
        e i (λ r. refl) in
    elim o [
      | inl p ↦ (
        ap (λ (t : Task). t.next_run_at) g ∙ ap (λ (r : TaskRow). r.next_run_at) p,
        ap (λ (t : Task). t.last_run_at) g ∙ ap (λ (r : TaskRow). r.last_run_at) p,
      )
      | inr (r, p) ↦ (
        ap (λ (t : Task). t.next_run_at) g ∙ ap (λ (x : TaskRow). x.next_run_at) p,
        ap (λ (t : Task). t.last_run_at) g ∙ ap (λ (x : TaskRow). x.last_run_at) p,
      )
    ]

timer-not_due :
    (w : Surroundings) (s : Schedule) (task : Task) (now : ℕ) (count : ℤ) (unit : TimeUnit)
    → (at_minute weekday on : Option ℤ) → is_due task.next_run_at now ≡ false
    → fired w s task now (every count unit at_minute weekday on) ≡ none
unfolding fired
timer-not_due w s task now count unit at_minute weekday on e = rw e refl

-- A run does not leave its task's timer due: whatever its job answered and however long it took, at no
-- time up to the run's end does a timer of the task fire.
pub end_run-not_due :
    (calendar : Calendar) (w : Surroundings) (jobs : List Job) (job : Job) (a : Active)
    → (finish now : ℕ) (outcome : Outcome) (s : Schedule) (count : ℤ) (unit : TimeUnit)
    → (at_minute weekday on : Option ℤ) → find jobs job.id ≡ some job
    → a.id ≡ job.id
    → now ≤ finish
    → fired w
        (end_run calendar a finish outcome s)
        (stored_task jobs (end_run calendar a finish outcome s).tasks job)
        now
        (every count unit at_minute weekday on)
      ≡ none
end_run-not_due calendar w jobs job a finish now outcome s count unit at_minute weekday on e i le =
    let (next, last) = ended-task calendar jobs job a finish outcome s e i in
    timer-not_due w (end_run calendar a finish outcome s) _ now count unit at_minute weekday on
      (ap (λ t. is_due t now) next ∙ next_of-due calendar a finish now le)

-- A run writes the next time of the schedule that was read when it began. A task that was off then, or
-- had no timer then, and is given a timer while it runs, is left without a next time: its timer does
-- not fire at any later time.
pub end_run-forgets :
    (calendar : Calendar) (w : Surroundings) (jobs : List Job) (job : Job) (a : Active)
    → (finish now : ℕ) (outcome : Outcome) (s : Schedule) (count : ℤ) (unit : TimeUnit)
    → (at_minute weekday on : Option ℤ) → find jobs job.id ≡ some job
    → a.id ≡ job.id
    → if_enabled a.task.enabled (next_timer_run calendar finish a.task.triggers) ≡ none
    → fired w
        (end_run calendar a finish outcome s)
        (stored_task jobs (end_run calendar a finish outcome s).tasks job)
        now
        (every count unit at_minute weekday on)
      ≡ none
end_run-forgets calendar w jobs job a finish now outcome s count unit at_minute weekday on e i n =
    let (next, last) = ended-task calendar jobs job a finish outcome s e i in
    timer-not_due w (end_run calendar a finish outcome s) _ now count unit at_minute weekday on
      (ap (λ t. is_due t now) (next ∙ n))

parent-not_fresh :
    (parent : String) (delay : ℤ) (last start now : ℕ) (row : TaskRow)
    → row.last_run_at ≡ some start
    → start ≤ last
    → parent_finished parent delay (some last) now row ≡ none
parent-not_fresh parent delay last start now row e le =
    let old : ltb last start ≡ false = ground arith in rw (e, old) refl

-- What "after a task" waits for is the begin of the parent's last run, not its end: a task that last
-- ran at or after that begin does not follow the parent, at whatever time after its begin the parent's
-- run ended well.
pub after_parent-misses :
    (calendar : Calendar) (a : Active) (finish last now : ℕ) (delay : ℤ) (outcome : Outcome)
    → (s : Schedule) → a.since ≤ last
    → after_parent (end_run calendar a finish outcome s).tasks a.id delay (some last) now ≡ none
unfolding after_parent end_run
after_parent-misses calendar a finish last now delay outcome s le =
    let next = next_of calendar a finish in
    let f = ran a.since finish next outcome in
    let row = f (new_row finish a.id a.task.enabled a.task.triggers next) in
    let (later, g, o, k) = first-upsert row f s.tasks (λ r. refl) in
    let begin_time : later.last_run_at ≡ some a.since = elim o [
      | inl p ↦ ap (λ (r : TaskRow). r.last_run_at) p
      | inr (r, p) ↦ ap (λ (x : TaskRow). x.last_run_at) p
    ] in
    rw g (elim (Bool-cases (is_ok later.last_status)) [
      | inl y ↦ rw y (parent-not_fresh a.id delay last a.since now later begin_time le)
      | inr n ↦ rw n refl
    ])
