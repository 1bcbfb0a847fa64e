-- ===== src/Objects.antt =====
-- The handles of a process, kernel/object.c: opening, looking up and closing objects.
pub mod Handles
mod Tests
use jeffos.Base.{
  ℕ, zero, suc, ◌+◌, ◌-◌, ◌%◌, ◌^◌, List, ◌||◌, ◌==◌, leb, if◌then◌else◌, get_or, set,
}
use jeffos.Status.{status_success, status_out_of_handles, status_invalid_handle}

abbrev pub max_handles : ℕ
max_handles = 64

-- `struct OBJECT`
pub record KObject : Type 0 where
  pub type : ℕ
  pub refcount : ℕ
  pub ptr : ℕ

-- `CurrentTask->Parent->HandleList`, of 64 entries that are 0 where they are NULL, and the objects.
pub record Process : Type 0 where
  pub handle_list : List ℕ
  pub object : ℕ → KObject

abbrev pub handle_at : Process → ℕ → ℕ
handle_at p i = get_or p.handle_list i 0

-- The object, or 0 for NULL.
unfoldable pub ob_reference_object_by_handle : Process → ℕ → ℕ × ℕ
ob_reference_object_by_handle p handle =
    if leb max_handles handle
    then (0, status_invalid_handle)
    else (handle_at p handle, status_success)

-- The loop of `ObOpenObject` from `i` on, with the rounds that are left.
unfoldable pub open_loop : ℕ → ℕ → Process → ℕ → Process × ℕ
open_loop zero i p obj = (p, status_out_of_handles)
open_loop (suc k) i p obj =
    let rest = open_loop k (i + 1) p obj in
    if handle_at p i == 0
    then (record p { handle_list = set p.handle_list i obj }, status_success)
    else rest

-- `for(i == 0; …)` gives `i` no value: `stale` is what it holds.
unfoldable pub ob_open_object : ℕ → Process → ℕ → Process × ℕ
unfolding open_loop
ob_open_object stale p obj = open_loop (max_handles - stale) stale p obj

unfoldable pub ob_dereference_object : Process → ℕ → Process × ℕ
ob_dereference_object p obj = (p, status_success)

-- An entry beyond the list is read, and its value is not used.
unfoldable pub ob_close_object : Process → ℕ → Process × ℕ
ob_close_object p handle =
    let obj = handle_at p handle in
    let v = p.object obj in
    if leb max_handles handle || (obj == 0)
    then (p, status_invalid_handle)
    else if v.refcount == 1
    then (p, status_success)
    else (
      record {
        handle_list = set p.handle_list handle 0;
        object = λ a.
            if a == obj
            then record v { refcount = (v.refcount + 2 ^ 32 - 1) % 2 ^ 32 }
            else p.object a;
      },
      status_success,
    )
