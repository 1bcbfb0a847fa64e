-- ===== src/Pages/Sample.antt =====
-- A machine whose first two pages are marked and whose tables are clear, for the tests.
use jeffos.Base.{
  ℕ, zero, suc, ◌/◌, ◌-◌, ◌%◌, ◌^◌, ◌<◌, ◌≤◌, ◌≡◌, refl, Bool, true, false, not, arith, ◌==◌, List,
  [], ◌∷◌, bit_and, length, length-replicate, replicate,
}
use jeffos.Base.Masks.{zero-bit_and}
use jeffos.Base.Bits.{all_under, all_under-at}
use jeffos.Pages.Search.{run_free}
use jeffos.Base.Tally.{tally, tally-cong, tally-not, tally_none, tally_drop}
use jeffos.Pages.Bitmap.{
  Pmat, IsPmat, used, max_pages, kget_page_bit, kset_page_bit, kset-IsPmat, used-kset,
}
use jeffos.Pages.Tables.{PageTable, entry, in_use}
use jeffos.Pages.Alloc.{Memory}
use jeffos.Pages.Alloc.Allocated.{IsMemory, NoPages}
use jeffos.Pages.Alloc.Count.{free_pages, free_entries}

clear : ℕ → List ℕ
clear n = replicate n 0

entry-clear : (n x : ℕ) → entry (clear n) x ≡ 0
unfolding clear
entry-clear zero x = refl
entry-clear (suc n) zero = refl
entry-clear (suc n) (suc x) = entry-clear n x

length-clear : (n : ℕ) → length (clear n) ≡ n
unfolding clear
length-clear n = length-replicate {A = ℕ} n 0

used-clear : (n x : ℕ) → used (clear n) x ≡ false
unfolding kget_page_bit
used-clear n x = rw (entry-clear n (x / 8)) (rw (zero-bit_and (2 ^ (x % 8))))

unfoldable pub blank_pmat : Pmat
unfolding clear
blank_pmat = kset_page_bit (clear 2048) 0

unfoldable pub blank_table : PageTable
unfolding clear
blank_table = clear 1024

unfoldable pub sample : Memory
sample = record {
  pmat = blank_pmat;
  space = record { pdir = []; refcount = 0; ptab = blank_table; high = blank_table };
}

clear-IsPmat : IsPmat (clear 2048)
clear-IsPmat = record {
  size = length-clear 2048;
  bytes = λ i. rw (entry-clear 2048 i) (omega arith);
}

pub sample-IsMemory : IsMemory sample
unfolding sample blank_pmat blank_table
sample-IsMemory = record {
  bitmap = kset-IsPmat (clear 2048) 0 clear-IsPmat;
  low_size = length-clear 1024;
  high_size = length-clear 1024;
}

all_free :
    (p : ℕ → Bool) (i k : ℕ) → ((x : ℕ) → i ≤ x → p x ≡ false) → tally (λ x. not (p x)) i k ≡ k
all_free p i k h =
    omega (arith, tally-not p i k, tally-cong p (λ x. false) i k (λ x a b. h x a), tally_none i k)

pub sample-free_entries : free_entries sample.space.high ≡ 1023
unfolding sample blank_table
sample-free_entries =
    all_free (in_use (clear 1024)) 0 1023 (λ x a. ground (arith, entry-clear 1024 x))

pub sample-free_pages : free_pages sample.pmat ≡ 16382
unfolding sample blank_pmat
sample-free_pages = omega (
  arith,
  all_free (used (clear 2048)) 0 (max_pages - 1) (λ x a. used-clear 2048 x),
  tally_drop (λ x. not (used (clear 2048) x)) (λ x. not (used (kset_page_bit (clear 2048) 0) x)) 0 0
      (max_pages - 1) (omega arith) (omega arith) (ground (arith, used-clear 2048 0))
      (λ x. ground (arith, used-kset (clear 2048) 0 x clear-IsPmat)),
)

pub sample-in_use : (x : ℕ) → in_use sample.space.ptab x ≡ false
unfolding sample blank_table
sample-in_use x = ground (arith, entry-clear 1024 x)

pub sample-marked : (x : ℕ) → x < 1 → used sample.pmat x ≡ true
unfolding sample blank_pmat
sample-marked x h = ground (arith, used-kset (clear 2048) 0 x clear-IsPmat)

pub sample-unmapped : (x : ℕ) → entry sample.space.high x ≡ 0
unfolding sample blank_table
sample-unmapped x = entry-clear 1024 x

-- A machine whose pages are all marked; page 5 is mapped at entry 0 of the low table.
full_pmat : Pmat
full_pmat = replicate 2048 255

unfoldable pub full : Memory
unfolding clear full_pmat
full = record {
  pmat = full_pmat;
  space = record { pdir = []; refcount = 0; ptab = 20487 ∷ clear 1023; high = clear 1024 };
}

entry-replicate : (n a x : ℕ) → x < n → entry (replicate n a) x ≡ a
entry-replicate zero a x h = elim h [ ]
entry-replicate (suc n) a zero h = refl
entry-replicate (suc n) a (suc x) h = entry-replicate n a x (omega arith)

byte-le : (n x : ℕ) → entry (replicate n 255) x < 256
byte-le zero x = omega arith
byte-le (suc n) zero = omega arith
byte-le (suc n) (suc x) = byte-le n x

bit_set : ℕ → Bool
bit_set k = not (bit_and 255 (2 ^ k) == 0)

bit_table : all_under 8 bit_set ≡ true
unfolding all_under bit_set
bit_table = refl

full-used : (x : ℕ) → x < 16384 → used full.pmat x ≡ true
unfolding full kget_page_bit bit_set
full-used x h =
    rw (entry-replicate 2048 255 (x / 8) (omega arith))
      (ground (arith, all_under-at 8 bit_set (x % 8) (omega arith) bit_table))

pub full-NoPages : NoPages full.pmat 1
unfolding run_free
full-NoPages z h = ground (arith, full-used z)

pub full-IsMemory : IsMemory full
unfolding full
full-IsMemory = record {
  bitmap = record { size = length-replicate {A = ℕ} 2048 255; bytes = byte-le 2048 };
  low_size = omega (arith, length-clear 1023);
  high_size = length-clear 1024;
}

pub full-entries : (entry full.space.ptab 0 ≡ 20487) × (in_use full.space.ptab 3 ≡ false)
unfolding full
full-entries = (refl, ground (arith, entry-clear 1023 2))
