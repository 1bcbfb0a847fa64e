-- ===== src/Sched/Switch.antt =====
-- The choice of the next task: `PsSwitchTask` of kernel/task.c.
use jeffos.Base.{
  ℕ, zero, suc, ◌+◌, ◌%◌, ◌<◌, ◌≡◌, refl, ◌∙◌, ap, inl, inr, Bool, true, false, not, ◌&&◌, arith,
  ◌==◌, if◌then◌else◌, Bool-cases, ==_refl,
}
use mathlib.Core.Path.{subst, ap₂}
use jeffos.Status.{Outcome, ok}
use jeffos.Sched.{
  Task, Machine, slot, t_running, t_dead, may_run, set_state, demoted, demote, next_num, bury, run,
  switch_loop, tick, ps_switch_task,
}
use jeffos.Sched.Dead.{runnable, Emptied, bury-Emptied, runnable-Emptied}

-- Task `t` of slot `i` runs now, and nothing else of the tasks has changed.
pub record Running (m : Machine) (i : ℕ) (m' : Machine) : Type 0 where
  pub num : m'.current_num ≡ i
  pub current : m'.current_task ≡ slot m.task_list i
  pub tasks : m'.task ≡ set_state (demoted m.task m.current_task) (slot m.task_list i) t_running

-- Whether the slot's task can be taken, where the current task counts as ready.
abbrev pub may_take : Machine → ℕ → Bool
may_take m j = runnable (demoted m.task m.current_task) m.task_list j

demoted-twice : (task : ℕ → Task) (t : ℕ) → demoted (demoted task t) t ≡ demoted task t
demoted-twice task t = elim (Bool-cases ((task t).state == t_running)) [
  | inl e ↦ rw (e, ==_refl t) refl
  | inr e ↦ rw (e, e) refl
]

-- The machine that a round leaves behind when it takes no task.
unfoldable pub step_on : Machine → Machine
step_on m =
    let t = slot m.task_list m.current_num in
    if not (t == 0) && ((m.task t).state == t_dead) then bury m t else m

record Passed (m m' : Machine) : Type 0 where
  num : m'.current_num ≡ m.current_num
  current : m'.current_task ≡ m.current_task
  tasks : m'.task ≡ m.task
  same : (j : ℕ) → runnable m.task m'.task_list j ≡ runnable m.task m.task_list j
  same_slot :
      (j : ℕ) → runnable m.task m.task_list j ≡ true → slot m'.task_list j ≡ slot m.task_list j

bury-Passed :
    (m : Machine)
    → (m.task (slot m.task_list m.current_num)).state ≡ t_dead
    → Passed m (bury m (slot m.task_list m.current_num))
bury-Passed m dead = record {
  num = v.num;
  current = v.current;
  tasks = v.tasks;
  same = λ j. runnable-Emptied _ m _ j dead v;
  same_slot = λ j h. elim (v.slots j) [
    | inl same ↦ same
    | inr (at, gone) ↦ absurd (ground (arith, h, ap (λ t. (m.task t).state) at, dead))
  ];
}
  where
    v : Emptied (slot m.task_list m.current_num) m (bury m (slot m.task_list m.current_num))
    v = bury-Emptied m _ refl

and_dead : (x s : ℕ) → (not (x == 0) && (s == t_dead)) ≡ true → s ≡ t_dead
and_dead x s e = ground arith

step_on-Passed : (m : Machine) → Passed m (step_on m)
unfolding step_on
step_on-Passed m = decide _ refl
  where
    t : ℕ
    t = slot m.task_list m.current_num

    decide :
        (b : Bool)
        → (not (t == 0) && ((m.task t).state == t_dead)) ≡ b
        → Passed m (if b then bury m t else m)
    decide false e = record {
      num = refl;
      current = refl;
      tasks = refl;
      same = λ j. refl;
      same_slot = λ j h. refl;
    }
    decide true e = bury-Passed m (and_dead _ _ e)

-- The two ends of a round.
round : ℕ → ℕ → Outcome Machine → Outcome Machine → Outcome Machine
round t s again taken =
    if t == 0 then again else if s == t_dead then again else if may_run s then taken else again

round-taken :
    (t s : ℕ) (again taken : Outcome Machine)
    → (if t == 0 then false else may_run s) ≡ true
    → round t s again taken ≡ taken
unfolding round
round-taken t s again taken h =
    let some_task : (t == 0) ≡ false = ground arith in
    let alive : (s == t_dead) ≡ false = ground arith in
    let ready : may_run s ≡ true = ground arith in rw (some_task, alive, ready) refl

round-again :
    (t s : ℕ) (again taken : Outcome Machine)
    → (if t == 0 then false else may_run s) ≡ false
    → round t s again taken ≡ again
unfolding round
round-again t s again taken h = elim (Bool-cases (t == 0)) [
  | inl e ↦ rw e refl
  | inr e ↦ elim (Bool-cases (s == t_dead)) [
    | inl d ↦ rw (e, d) refl
    | inr d ↦ let idle : may_run s ≡ false = ground arith in rw (e, d, idle) refl
  ]
]

-- The machine at the next slot.
unfoldable pub stepped : Machine → Machine
stepped m = demote (record m { current_num = next_num m.current_num })

next_task : Machine → ℕ
next_task m = slot m.task_list (next_num m.current_num)

-- The machine in which the next slot's task runs.
unfoldable pub running : Machine → Machine
running m =
    run (record m { current_num = next_num m.current_num; task = demoted m.task m.current_task })
      (slot m.task_list (next_num m.current_num))

pub take_runs :
    (fuel : ℕ) (m : Machine)
    → may_take m (next_num m.current_num) ≡ true
    → switch_loop (suc fuel) m ≡ ok (running m)
unfolding switch_loop demote run round next_task running
take_runs fuel m h =
    round-taken (next_task m) (demoted m.task m.current_task (next_task m)).state _ _ h

take :
    (fuel : ℕ) (m : Machine)
    → may_take m (next_num m.current_num) ≡ true
    → (m' : Machine) × (switch_loop (suc fuel) m ≡ ok m') × Running m (next_num m.current_num) m'
unfolding run running
take fuel m h = (running m, take_runs fuel m h, record { num = refl; current = refl; tasks = refl })

pub skip :
    (fuel : ℕ) (m : Machine)
    → may_take m (next_num m.current_num) ≡ false
    → switch_loop (suc fuel) m ≡ switch_loop fuel (step_on (stepped m))
unfolding switch_loop demote step_on stepped round next_task
skip fuel m h = round-again (next_task m) (demoted m.task m.current_task (next_task m)).state _ _ h

pub next_num-lem : (i : ℕ) → i < 1024 → next_num i ≡ (i + 1) % 1024
next_num-lem i h = ground arith

at_next :
    (m m' : Machine)
    → m.current_num < 1024
    → Passed (stepped m) m'
    → m'.current_num ≡ (m.current_num + 1) % 1024
unfolding stepped demote
at_next m m' low v = v.num ∙ next_num-lem m.current_num low

-- A task that is taken after the round is the one that can be taken before it.
after_round :
    (m m' r : Machine) (i j : ℕ)
    → Passed (stepped m) m'
    → i ≡ j
    → may_take m j ≡ true
    → Running m' i r
    → Running m j r
unfolding stepped demote
after_round m m' r i j v e h w =
    let at : slot m'.task_list i ≡ slot m.task_list j =
      ap (slot m'.task_list) e ∙ v.same_slot j h in
    let calm : demoted m'.task m'.current_task ≡ demoted m.task m.current_task =
      ap₂ demoted v.tasks v.current ∙ demoted-twice m.task m.current_task in
    record {
      num = w.num ∙ e;
      current = w.current ∙ at;
      tasks = w.tasks ∙ ap₂ (λ f t. set_state f t t_running) calm at;
    }

-- What may be taken does not change over a round.
round-may_take : (m m' : Machine) (j : ℕ) → Passed (stepped m) m' → may_take m' j ≡ may_take m j
unfolding stepped demote
round-may_take m m' j v =
    ap (λ f. runnable f m'.task_list j)
      (ap₂ demoted v.tasks v.current ∙ demoted-twice m.task m.current_task)
    ∙ v.same j

switch_loop-Running :
    (fuel dist : ℕ) (m : Machine)
    → m.current_num < 1024
    → dist < fuel
    → may_take m ((m.current_num + 1 + dist) % 1024) ≡ true
    → ((e : ℕ) → e < dist → may_take m ((m.current_num + 1 + e) % 1024) ≡ false)
    → (m' : Machine) × (switch_loop fuel m ≡ ok m')
      × Running m ((m.current_num + 1 + dist) % 1024) m'
switch_loop-Running zero dist m low enough can none = absurd (omega arith)
switch_loop-Running (suc fuel) zero m low enough can none =
    let e : next_num m.current_num ≡ (m.current_num + 1 + 0) % 1024 =
      next_num-lem m.current_num low ∙ omega arith in
    subst (λ i. (m' : Machine) × (switch_loop (suc fuel) m ≡ ok m') × Running m i m') e
      (take fuel m (ap (may_take m) e ∙ can))
switch_loop-Running (suc fuel) (suc dist) m low enough can none =
    let m' = step_on (stepped m) in
    let v = step_on-Passed (stepped m) in
    let first : next_num m.current_num ≡ (m.current_num + 1 + 0) % 1024 =
      next_num-lem m.current_num low ∙ omega arith in
    let at : m'.current_num ≡ (m.current_num + 1) % 1024 = at_next m m' low v in
    let turn : (d : ℕ) → (m'.current_num + 1 + d) % 1024 ≡ (m.current_num + 1 + suc d) % 1024 =
      λ d. omega (arith, at) in
    let (r, e, w) =
      switch_loop-Running fuel dist m' (omega (arith, at)) (omega arith)
        (round-may_take m m' _ v ∙ ap (may_take m) (turn dist) ∙ can)
        (λ d lt. round-may_take m m' _ v ∙ ap (may_take m) (turn d) ∙ none (suc d) (omega arith)) in
    (
      r,
      skip fuel m (ap (may_take m) first ∙ none 0 (omega arith)) ∙ e,
      after_round m m' r _ _ v (turn dist) can w,
    )

-- With a task that can be taken `dist` slots behind the next one and none in between, `PsSwitchTask`
-- ends: that task runs, in its slot's number, the task that ran before is ready if it was in the state
-- `tRUNNING`, and no other task's record has changed since the timer's tick.
pub ps_switch_task-Running :
    (m : Machine) (dist : ℕ)
    → (tick m).current_num < 1024
    → dist < 1024
    → may_take (tick m) (((tick m).current_num + 1 + dist) % 1024) ≡ true
    → ((e : ℕ) → e < dist → may_take (tick m) (((tick m).current_num + 1 + e) % 1024) ≡ false)
    → (m' : Machine) × (ps_switch_task m ≡ ok m')
      × Running (tick m) (((tick m).current_num + 1 + dist) % 1024) m'
unfolding ps_switch_task
ps_switch_task-Running m dist low near can none =
    switch_loop-Running 1024 dist (tick m) low near can none
