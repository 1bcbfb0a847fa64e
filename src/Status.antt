-- ===== src/Status.antt =====
-- The codes of kernel/status.h, and the outcome of code that may halt the kernel
-- (`KeHalt` of kernel/helper.c never returns).
use jeffos.Base.{ℕ}

abbrev pub status_success : ℕ
status_success = 0

abbrev pub status_general_error : ℕ
status_general_error = 1

abbrev pub status_out_of_shm : ℕ
status_out_of_shm = 2

abbrev pub status_invalid_shmseg : ℕ
status_invalid_shmseg = 3

abbrev pub status_invalid_object_type : ℕ
status_invalid_object_type = 5

abbrev pub status_out_of_handles : ℕ
status_out_of_handles = 6

abbrev pub status_invalid_handle : ℕ
status_invalid_handle = 7

-- `out_of_fuel` is a loop that was cut short; the theorems show that it does not arise.
pub data Outcome {ℓ} (A : Type ℓ) : Type ℓ where
  ok : A → Outcome A
  halted : Outcome A
  out_of_fuel : Outcome A

module _ {ℓ κ} {A : Type ℓ} {B : Type κ} where
  infixl 5 ◌>>=◌
  abbrev pub ◌>>=◌ : Outcome A → (A → Outcome B) → Outcome B
  ok a >>= f = f a
  halted >>= f = halted
  out_of_fuel >>= f = out_of_fuel
