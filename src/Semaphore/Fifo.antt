-- ===== src/Semaphore/Fifo.antt =====
-- What a semaphore of kernel/sem.c is for: credits, or the tasks that wait for one in their order.
use jeffos.Base.{
  ℕ, ◌+◌, ◌-◌, ◌%◌, ◌^◌, ◌<◌, ◌≡◌, ◌≢◌, List, [], ◌∷◌, ◌++◌, length, ◌==◌, if◌then◌else◌,
}
use jeffos.Queue.Links.{contents}
use jeffos.Queue.Ops.{IsState}
use jeffos.Kernel.{Kernel, queue_of}

pub record Fifo : Type 0 where
  pub credits : ℕ
  pub waiters : List ℕ

-- Task `t` asks for a credit: it takes one, or waits behind the others.
unfoldable pub acquired : Fifo → ℕ → Fifo
acquired f t =
    if f.credits == 0
    then record f { waiters = f.waiters ++ t ∷ [] }
    else record f { credits = f.credits - 1 }

-- A credit comes back: to the first that waits, or to the pool.
abbrev pub given_back : ℕ → List ℕ → Fifo
given_back credits [] = record { credits = credits + 1; waiters = [] }
given_back credits (t ∷ ts) = record { credits = credits; waiters = ts }

abbrev pub released : Fifo → Fifo
released f = given_back f.credits f.waiters

-- Tasks on the kernel's queue, with the size 0.
abbrev pub entries : List ℕ → List (ℕ × ℕ)
entries [] = []
entries (t ∷ ts) = (t, 0) ∷ entries ts

-- The semaphore at `s` stands for `f`: the count is the credits less the tasks that wait, as a signed
-- word, nobody waits while there is a credit, and the queue holds those that wait.
pub record Stands (k : Kernel) (s : ℕ) (f : Fifo) (ns : List ℕ) (free live pages : ℕ → List ℕ)
    : Type 0 where
  pub count : (k.sem s).count ≡ (f.credits + 2 ^ 32 - length f.waiters) % 2 ^ 32
  pub few_credits : f.credits < 2 ^ 31
  pub few_waiters : length f.waiters < 2 ^ 31
  pub either : f.credits ≢ 0 → f.waiters ≡ []
  pub state : IsState (queue_of k (k.sem s).queue) ns free live pages
  pub held : contents k.node ns ≡ entries f.waiters
