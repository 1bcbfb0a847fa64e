-- ===== src/Port/Tests.antt =====
-- Two ports of one task, on the started heap.
use jeffos.Base.{ℕ, ◌+◌, ◌<◌, ◌≡◌, ◌↔◌, refl, arith, ==_refl}
use jeffos.Status.{ok}
use jeffos.KMem.Sample.{one_taken32}
use jeffos.Resource.{find_in, rsrc_find}
use jeffos.Sched.{t_ready}
use jeffos.Sched.Sample.{in_state}
use jeffos.Kernel.{Kernel, with_machine, err_none, err_resource}
use jeffos.Kernel.Sample.{only, one_free, one_live, one_pages, kernel_on}
use jeffos.Port.{MsgHdr, place, port_option, port_destroy}
use jeffos.Port.Body.{message-pos}
use jeffos.Port.Send.{place-wakes_iff}
use jeffos.Port.Slave.{Pair, slave-destroyed_sticks}

abbrev idle : Kernel
idle = kernel_on one_taken32.0

-- 2000 bytes from port 2 to port 3.
abbrev mail : MsgHdr
mail = record { flags = 0; src = 2; dst = 3; size = 2000; pid = 0; body = 0x300000 }

-- The same with the owner of the ports asleep on port 3.
abbrev waiting : Kernel
waiting = record idle {
  machine = record idle.machine { task = λ a. record (in_state 2 3) { sleeping_on = 3 } };
}

place-wakes_iff_example :
    ((place waiting (only 1) mail 0x9000 0xA000).machine.task 0x2000).state ≡ t_ready
    ↔ (3 ≡ mail.dst)
place-wakes_iff_example = place-wakes_iff waiting (only 1) mail 0x9000 0xA000 refl

-- The block at `only 1` is the message, in the page behind it its body.
abbrev page : ℕ
page = only 1 + 4096

abbrev placed_kernel : Kernel
placed_kernel = with_machine (place idle 0x900 mail (only 1) page) idle.machine

only-pos : 0 < only 1
only-pos =
    message-pos one_taken32.0 (one_free 1) (one_live 1) (one_pages 1) (only 1) one_taken32.2
      (rw (==_refl (only 1)) refl)

-- Port 2 and port 3 of the table, in blocks of 32 bytes.
ports-Pair : Pair idle 2 3 (only 1) (only 1 + 32)
unfolding rsrc_find find_in
ports-Pair = record {
  slave = refl;
  other = refl;
  some_slave = only-pos;
  some_master = omega arith;
  named = omega arith;
  apart = ground arith;
  own_slave = refl;
  own_master = refl;
  free = refl;
  counted = omega arith;
}

slave-destroyed_sticks_example :
    (k₁ : Kernel) × (port_option idle 2 4 3 ≡ ok (k₁, err_none))
    × (k₂ : Kernel) × (port_destroy k₁ 2 ≡ ok (k₂, err_none))
    × (port_destroy k₂ 3 ≡ ok (k₂, err_resource))
slave-destroyed_sticks_example =
    slave-destroyed_sticks idle 2 3 (only 1) (only 1 + 32) ports-Pair (one_free 1) (one_live 1)
      (one_pages 1) one_taken32.2 (rw (==_refl (only 1)) refl) refl (omega arith)
