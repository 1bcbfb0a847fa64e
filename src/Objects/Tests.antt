-- ===== src/Objects/Tests.antt =====
-- A process with two handles.
use jeffos.Base.{◌+◌, ◌-◌, ◌∷◌, refl, arith, replicate}
use jeffos.Objects.{Process, ob_open_object}
use jeffos.Objects.Handles.{Opened, ob_open_object-Opened}

abbrev process : Process
process = record {
  handle_list = 0x1000 ∷ 0x2000 ∷ replicate 62 0;
  object = λ a. record { type = 5; refcount = 2; ptr = a };
}

ob_open_object-Opened_example :
    Opened 1 (1 + (64 - 1)) process 0x3000 (ob_open_object 1 process 0x3000)
ob_open_object-Opened_example = ob_open_object-Opened 1 process 0x3000 refl (omega arith)
