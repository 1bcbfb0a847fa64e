-- ===== src/Sched/Timer.antt =====
-- The timer's tick in `PsSwitchTask` of kernel/task.c.
use jeffos.Base.{
  ℕ, zero, suc, ◌+◌, ◌%◌, ◌^◌, ◌≤◌, ◌<◌, ◌≡◌, ◌≢◌, refl, ◌∙◌, ap, inl, inr, Bool, true, false, ◌||◌,
  List, arith, ◌==◌, ltb, if◌then◌else◌, Bool-cases, ==_iff, ==_refl,
}
use jeffos.Sched.{Task, TaskQ, Machine, slot, write_task, t_ready, t_sleep_timer, wake_loop, tick}
use jeffos.Sched.Listed.{IsBounded}

-- What the tick does to a listed task.
abbrev pub woken : Task → Task
woken v = if v.state == t_sleep_timer then record v { state = t_ready; timer = 0 } else v

-- Whether `a` is in one of the `k` slots from `x` on.
abbrev is_listed : List TaskQ → ℕ → ℕ → ℕ → Bool
is_listed tasks a x zero = false
is_listed tasks a x (suc k) = (a == slot tasks x) || is_listed tasks a (x + 1) k

woken-twice : (v : Task) → woken (woken v) ≡ woken v
woken-twice v = elim (Bool-cases (v.state == t_sleep_timer)) [
  | inl e ↦ rw e refl
  | inr e ↦ rw (e, e) refl
]

wake_one :
    (task : ℕ → Task) (t a : ℕ)
    → let v = write_task task t (record (task t) { state = t_ready; timer = 0 }) in
      (if (task t).state == t_sleep_timer then v else task) a
      ≡ (if a == t then woken (task a) else task a)
wake_one task t a = elim (Bool-cases (a == t)) [
  | inl e ↦ elim (Bool-cases ((task t).state == t_sleep_timer)) [
    | inl s ↦ rw (s, e, (==_iff a t).0 e, s) refl
    | inr s ↦ rw (s, e, (==_iff a t).0 e, s) refl
  ]
  | inr e ↦ elim (Bool-cases ((task t).state == t_sleep_timer)) [
    | inl s ↦ rw (s, e) refl
    | inr s ↦ rw (s, e) refl
  ]
]

again :
    (b c : Bool) (v : Task)
    → (if c then woken (if b then woken v else v) else (if b then woken v else v))
      ≡ (if b || c then woken v else v)
again true true v = woken-twice v
again true false v = refl
again false true v = refl
again false false v = refl

wake_loop-woken :
    (k x : ℕ) (m : Machine) (a : ℕ)
    → (wake_loop k x m).task a
      ≡ (if is_listed m.task_list a x k then woken (m.task a) else m.task a)
unfolding wake_loop
wake_loop-woken zero x m a = refl
wake_loop-woken (suc k) x m a =
    let t = slot m.task_list x in
    let v = write_task m.task t (record (m.task t) { state = t_ready; timer = 0 }) in
    let m' = record m { task = if (m.task t).state == t_sleep_timer then v else m.task } in
    wake_loop-woken k (x + 1) m' a
    ∙ ap (λ u. if is_listed m.task_list a (x + 1) k then woken u else u) (wake_one m.task t a)
    ∙ again (a == t) (is_listed m.task_list a (x + 1) k) (m.task a)

wake_loop-timer : (k x : ℕ) (m : Machine) → (wake_loop k x m).system_timer ≡ m.system_timer
unfolding wake_loop
wake_loop-timer zero x m = refl
wake_loop-timer (suc k) x m = wake_loop-timer k (x + 1) _

slot-is_listed :
    (tasks : List TaskQ) (k x j : ℕ) → x ≤ j → j < x + k → is_listed tasks (slot tasks j) x k ≡ true
slot-is_listed tasks zero x j p q = absurd (omega arith)
slot-is_listed tasks (suc k) x j p q = elim (Bool-cases (j == x)) [
  | inl e ↦ rw ((==_iff j x).0 e, ==_refl (slot tasks x)) refl
  | inr e ↦
      let rest : is_listed tasks (slot tasks j) (x + 1) k ≡ true =
        slot-is_listed tasks k (x + 1) j (ground arith) (omega arith) in
      ground arith
]

-- On a list whose slots in use are at or below a `MaxUsedProc` of at most 1023, the 101st tick sets
-- the timer back and makes each listed task that sleeps on a timer ready, with none of its time left;
-- a listed task in another state is as it was.
pub tick_wakes :
    (m : Machine) (j : ℕ)
    → IsBounded m
    → m.max_used < 1024
    → 100 ≤ m.system_timer
    → slot m.task_list j ≢ 0
    → ((tick m).system_timer ≡ 0)
      × ((tick m).task (slot m.task_list j) ≡ woken (m.task (slot m.task_list j)))
unfolding tick
tick_wakes m j v low late used =
    let due : ltb 100 (m.system_timer + 1) ≡ true = ground arith in
    let count : (m.max_used + 1) % 2 ^ 32 ≡ m.max_used + 1 = omega arith in
    let m' = record m { system_timer = 0 } in
    let reached : is_listed m.task_list (slot m.task_list j) 0 ((m.max_used + 1) % 2 ^ 32) ≡ true =
      slot-is_listed m.task_list ((m.max_used + 1) % 2 ^ 32) 0 j (omega arith)
        (omega (arith, count, v.within j used)) in
    rw due (
      wake_loop-timer ((m.max_used + 1) % 2 ^ 32) 0 m',
      wake_loop-woken ((m.max_used + 1) % 2 ^ 32) 0 m' (slot m.task_list j)
          ∙ ap (λ b. if b then woken (m.task (slot m.task_list j)) else m.task (slot m.task_list j))
              reached,
    )
