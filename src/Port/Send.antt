-- ===== src/Port/Send.antt =====
-- Who may send what to a port, and whom it wakes: `port_send` of kernel/port.c.
use jeffos.Base.{
  ℕ, ◌+◌, ◌^◌, ◌<◌, ◌≡◌, ◌↔◌, refl, true, inl, inr, List, arith, ◌==◌, length, has, Bool-cases,
  ==_iff, ==_refl,
}
use jeffos.Status.{Outcome, ok}
use jeffos.KMem.Global.{IsHeap}
use jeffos.Sched.{t_ready, t_sleep_port}
use jeffos.Kernel.{Kernel, heap_of}
use jeffos.Port.{MsgHdr, km32, place, wake_owner, link_port}
use jeffos.Port.Target.{Accepts, IsSendable, Refusal}
use jeffos.Port.Chain.{Holds}
use jeffos.Port.Deliver.{DeliverEnd}

-- How `port_send` ends: with one of its codes and the kernel's state as it was; or with the delivery
-- to a port that takes the message.
pub data SendEnd (k : Kernel) (mh : ℕ) (h : MsgHdr) (ms : ℕ → List ℕ)
    : Outcome (Kernel × ℕ) → Type 0 where
  refused : (e : ℕ) → Refusal k mh h e → SendEnd k mh h ms (ok (k, e))
  sent :
      {r : Outcome (Kernel × ℕ)} (p : ℕ)
      → Accepts k mh h p
      → IsSendable h
      → DeliverEnd k p h (ms p) r
      → SendEnd k mh h ms r

-- The ports hold their messages, whose blocks are live on a heap in order.
pub record IsPorts (k : Kernel) (ms : ℕ → List ℕ) (free live pages : ℕ → List ℕ) : Type 0 where
  pub holds : (p : ℕ) → Holds (k.port p) k.message (ms p)
  pub owned : (p a : ℕ) → has a (ms p) ≡ true → has a (live km32) ≡ true
  pub heaped : IsHeap (heap_of k) free live pages
  pub few : (p : ℕ) → length (ms p) + 1 < 2 ^ 32

-- The owner of the port that gets the message sleeps on some port: once the message is placed it is
-- ready exactly if the port it sleeps on is the one that the message was addressed to. So a task that
-- sleeps on a master port is not woken by a message that came through a slave.
pub place-wakes_iff :
    (k : Kernel) (p : ℕ) (h : MsgHdr) (m body : ℕ)
    → (k.machine.task (k.port p).owner).state ≡ t_sleep_port
    → ((place k p h m body).machine.task (k.port p).owner).state ≡ t_ready
      ↔ ((k.machine.task (k.port p).owner).sleeping_on ≡ h.dst)
unfolding place wake_owner link_port
place-wakes_iff k p h m body asleep =
    elim (Bool-cases ((k.machine.task (k.port p).owner).sleeping_on == h.dst)) [
      | inl e ↦
          rw (==_refl p, asleep, e)
            ((λ r. (==_iff _ _).0 e), (λ s. rw (==_refl (k.port p).owner) refl))
      | inr e ↦
          rw (==_refl p, asleep, e)
            ((λ r. absurd (omega (arith, asleep, r))), (λ s. absurd (ground arith)))
    ]
