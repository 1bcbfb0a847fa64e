-- ===== src/Namer/Tests.antt =====
-- A name server that has the name "n" of port 1 in its table at 1000, and the text "i" at 200.
use jeffos.Base.{ℕ, zero, suc, ◌+◌, ◌<◌, ◌≡◌, ◌≢◌, refl, inl, some, arith, ◌==◌, if◌then◌else◌}
use jeffos.Strings.{Bytes}
use jeffos.Strings.Compare.{Terminated}
use jeffos.Namer.{Names, port_register}
use jeffos.Namer.Entry.{IsBook}
use jeffos.Namer.Register.{RegisterEnd, port_register-RegisterEnd}

abbrev bytes : Bytes
bytes a = if a == 1000 then 110 else if a == 200 then 105 else 0

abbrev one_name : Names
one_name = record { mem = bytes; table = 1000; ports = λ k. 1; count = 1 }

one_name-IsBook : IsBook one_name
one_name-IsBook = record { fits = omega arith; used = λ k h e. omega arith }

text-Terminated : Terminated bytes 200 1
text-Terminated = record { ends = refl; before = before }
  where
    before : (i : ℕ) → i < 1 → bytes (200 + i) ≢ 0
    before zero h e = absurd (omega arith)
    before (suc i) h e = absurd (omega arith)

port_register-RegisterEnd_example :
    (r : ℕ × Names) × (port_register one_name 7 200 ≡ some r) × RegisterEnd one_name 7 200 r
port_register-RegisterEnd_example =
    port_register-RegisterEnd one_name 7 200 1 one_name-IsBook (λ e. omega arith)
      (inl (omega arith)) text-Terminated (omega arith)
