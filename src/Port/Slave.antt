-- ===== src/Port/Slave.antt =====
-- Masters and slaves: `port_option` and `port_destroy` of kernel/port.c.
use jeffos.Base.{
  ℕ, ◌+◌, ◌^◌, ◌<◌, ◌≡◌, ◌≢◌, refl, sym, ◌∙◌, ap, true, false, inl, inr, arith, ◌==◌, ltb, List,
  Option, none, some, has, get_elem?, get_elem?-set, Bool-cases, ==_iff, ==_refl,
}
use jeffos.Status.{ok}
use jeffos.KMem.Global.{IsHeap, kfree-IsHeap}
use jeffos.Resource.{Resource, resource, rsrc_none, Table, rsrc_del, del_at, rsrc_find}
use jeffos.Kernel.{Kernel, heap_of, with_heap, with_table, err_none, err_resource}
use jeffos.Port.{
  km32, rsrc_port, find_port, with_port, minus_one, count_slave, change_master, set_slave,
  port_option, port_destroy,
}

-- A port `p`, named `id`, without a master, and another port `master`, named `arg`, that has none:
-- both the task's.
pub record Pair (k : Kernel) (id arg p master : ℕ) : Type 0 where
  pub slave : find_port k id ≡ p
  pub other : find_port k arg ≡ master
  pub some_slave : 0 < p
  pub some_master : 0 < master
  pub named : 0 < arg
  pub apart : (master == p) ≡ false
  pub own_slave : (k.port p).owner ≡ k.machine.current_task
  pub own_master : (k.port master).owner ≡ k.machine.current_task
  pub free : (k.port p).slaved ≡ 0
  pub counted : (k.port master).refcount + 1 < 2 ^ 32

abbrev pub enslaved : Kernel → ℕ → ℕ → ℕ → Kernel
enslaved k arg p master =
    let k' = count_slave 1 k master in with_port k' p (record (k'.port p) { slaved = arg })

new_master :
    (k : Kernel) (p arg : ℕ)
    → (k.port p).slaved ≡ 0
    → change_master k p arg ≡ ok (with_port k p (record (k.port p) { slaved = arg }), err_none)
unfolding change_master
new_master k p arg free =
    let none : ((k.port p).slaved == 0) ≡ true = ground (arith, free) in rw none refl

drop_master :
    (k : Kernel) (p master : ℕ)
    → (k.port p).slaved ≢ 0
    → find_port k (k.port p).slaved ≡ master
    → 0 < master
    → change_master k p 0
      ≡ ok (
        (let k' = count_slave minus_one k master in
            with_port k' p (record (k'.port p) { slaved = 0 })),
        err_none,
      )
unfolding change_master
drop_master k p master is_slave old pos =
    let some_master : ((k.port p).slaved == 0) ≡ false = ground (arith, is_slave) in
    let there : (master == 0) ≡ false = ground (arith, pos) in rw (old, some_master, there) refl

del_in-find :
    (t : Table) (e : Option Resource) (type id j : ℕ)
    → (id == j) ≡ false
    → rsrc_find (del_at e t id) type j ≡ rsrc_find t type j
unfolding del_at rsrc_find
del_in-find t none type id j other = refl
del_in-find t (some e) type id j other = elim (Bool-cases (e.type == rsrc_none)) [
  | inl z ↦ rw z refl
  | inr z ↦ rw (z, get_elem?-set t.rmap id j (resource rsrc_none t.rfree), other) refl
]

-- Another id is found as before.
rsrc_del-find :
    (t : Table) (type id j : ℕ)
    → (id == j) ≡ false
    → rsrc_find (rsrc_del t id) type j ≡ rsrc_find t type j
unfolding rsrc_del
rsrc_del-find t type id j other = elim (Bool-cases (ltb id t.rmax)) [
  | inl e ↦ rw e (del_in-find t (get_elem? t.rmap id) type id j other)
  | inr e ↦ rw e refl
]

module _ (k : Kernel) (id arg p master : ℕ) (v : Pair k id arg p master) where
  apart_from : (p == master) ≡ false
  apart_from = ground (arith, v.apart)

  enslave : port_option k id 4 arg ≡ ok (enslaved k arg p master, err_none)
  unfolding port_option set_slave
  enslave =
      let there : (p == 0) ≡ false = ground (arith, v.some_slave) in
      let there' : (master == 0) ≡ false = ground (arith, v.some_master) in
      let named : (arg == 0) ≡ false = ground (arith, v.named) in
      let own : ((k.port p).owner == k.machine.current_task) ≡ true = ground (arith, v.own_slave) in
      let own' : ((k.port master).owner == k.machine.current_task) ≡ true =
        ground (arith, v.own_master) in
      let still : ((count_slave 1 k master).port p).slaved ≡ 0 = rw apart_from v.free in
      rw (v.slave, v.other, there, there', named, own, own')
        (new_master (count_slave 1 k master) p arg still)

  enslaved-master : ((enslaved k arg p master).port master).refcount ≡ (k.port master).refcount + 1
  enslaved-master = rw (v.apart, ==_refl master) (omega (arith, v.counted))

  enslaved-slave : ((enslaved k arg p master).port p).slaved ≡ arg
  enslaved-slave = rw (==_refl p) refl

  own_after : ((enslaved k arg p master).port p).owner ≡ k.machine.current_task
  own_after = rw (==_refl p, apart_from) v.own_slave

  own_master_after : ((enslaved k arg p master).port master).owner ≡ k.machine.current_task
  own_master_after = rw (v.apart, ==_refl master) v.own_master

  -- The task makes `p` a slave of `master` and then releases it: both calls succeed, and then `p` has
  -- no master and `master` counts as many slaves as before.
  pub enslave-release :
      (k₁ : Kernel) × (port_option k id 4 arg ≡ ok (k₁, err_none))
      × ((k₁.port p).slaved ≡ arg)
      × ((k₁.port master).refcount ≡ (k.port master).refcount + 1)
      × (k₂ : Kernel) × (port_option k₁ id 4 0 ≡ ok (k₂, err_none))
      × ((k₂.port p).slaved ≡ 0)
      × ((k₂.port master).refcount ≡ (k.port master).refcount)
  unfolding port_option set_slave
  enslave-release =
      let k₁ = enslaved k arg p master in
      let k' = count_slave minus_one k₁ master in
      let there : (p == 0) ≡ false = ground (arith, v.some_slave) in
      let own : ((k₁.port p).owner == k.machine.current_task) ≡ true = ground (arith, own_after) in
      let dropped =
        drop_master k₁ p master (λ e. omega (arith, v.named, e, enslaved-slave))
          (ap (find_port k) enslaved-slave ∙ v.other) v.some_master in
      (
        k₁,
        enslave,
        enslaved-slave,
        enslaved-master,
        with_port k' p (record (k'.port p) { slaved = 0 }),
        rw (v.slave, there, own) dropped,
        rw (==_refl p) refl,
        rw (v.apart, ==_refl master) (omega (arith, v.counted)),
      )

  refcount_after : ((enslaved k arg p master).port p).refcount ≡ (k.port p).refcount
  refcount_after = rw (==_refl p, apart_from) refl

  -- Two ids of the two ports differ.
  ids_apart : (id == arg) ≡ false
  ids_apart = elim (Bool-cases (id == arg)) [
    | inr e ↦ e
    | inl e ↦
        let same : p ≡ master = sym v.slave ∙ ap (find_port k) ((==_iff id arg).0 e) ∙ v.other in
        absurd (ground (arith, v.apart, same))
  ]

  -- The task makes `p`, which has no slaves and whose block is live on a heap in order, a slave of
  -- `master`, and then destroys `p`: both calls succeed, but `master` cannot be destroyed any more,
  -- since it still counts the slave.
  pub slave-destroyed_sticks :
      (free live pages : ℕ → List ℕ)
      → IsHeap (heap_of k) free live pages
      → has p (live km32) ≡ true
      → (k.port p).refcount ≡ 1
      → 0 < (k.port master).refcount
      → (k₁ : Kernel) × (port_option k id 4 arg ≡ ok (k₁, err_none))
        × (k₂ : Kernel) × (port_destroy k₁ id ≡ ok (k₂, err_none))
        × (port_destroy k₂ arg ≡ ok (k₂, err_resource))
  unfolding port_destroy
  slave-destroyed_sticks free live pages w alive alone some_count =
      let k₁ = enslaved k arg p master in
      let there : (p == 0) ≡ false = ground (arith, v.some_slave) in
      let there' : (master == 0) ≡ false = ground (arith, v.some_master) in
      let own : ((k₁.port p).owner == k.machine.current_task) ≡ true = ground (arith, own_after) in
      let own' : ((k₁.port master).owner == k.machine.current_task) ≡ true =
        ground (arith, own_master_after) in
      let one : ((k₁.port p).refcount == 1) ≡ true = ground (arith, refcount_after, alone) in
      let more : ((k₁.port master).refcount == 1) ≡ false =
        ground (arith, enslaved-master, some_count) in
      let (h', freed, w') = kfree-IsHeap (heap_of k) free live pages w km32 (omega arith) p alive in
      (
        k₁,
        enslave,
        with_table (with_heap k₁ h') (rsrc_del k.machine.table id),
        rw (v.slave, there, own, one, freed) refl,
        rw (rsrc_del-find k.machine.table rsrc_port id arg ids_apart ∙ v.other, there', own', more)
            refl,
      )
