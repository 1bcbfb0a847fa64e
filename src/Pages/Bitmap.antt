-- ===== src/Pages/Bitmap.antt =====
-- `PMAT`, one bit for each physical page: `kget_PageBit`, `kset_PageBit`, `kunset_PageBit`.
use jeffos.Base.{
  ℕ, ◌-◌, ◌/◌, ◌%◌, ◌^◌, ◌<◌, bit_and, bit_or, ◌≡◌, refl, Bool, true, false, not, List, arith, ◌==◌,
  if◌then◌else◌, length, length-set, get_or, get_or-set, set,
}
use jeffos.Base.Bits.{all_under, all_under-at}

abbrev pub Pmat : Type 0
Pmat = List ℕ

-- `1 << (BitNum % 8)`
abbrev bit_of : ℕ → ℕ
bit_of n = 2 ^ (n % 8)

-- Outside the array a read gives 0 here, and a write does nothing; `IsPmat` says where it ends.
unfoldable pub kget_page_bit : Pmat → ℕ → ℕ
kget_page_bit m n = if bit_and (get_or m (n / 8) 0) (bit_of n) == 0 then 0 else 1

-- The array holds `unsigned char`.
unfoldable pub kset_page_bit : Pmat → ℕ → Pmat
kset_page_bit m n = set m (n / 8) (bit_or (get_or m (n / 8) 0) (bit_of n) % 256)

-- `~b` is that of 32 bits.
unfoldable pub kunset_page_bit : Pmat → ℕ → Pmat
kunset_page_bit m n = set m (n / 8) (bit_and (get_or m (n / 8) 0) (2 ^ 32 - 1 - bit_of n) % 256)

abbrev pub max_pages : ℕ
max_pages = 16384

-- The array has a bit for each of 16384 pages.
pub record IsPmat (m : Pmat) : Type 0 where
  pub size : length m ≡ 2048
  pub bytes : (i : ℕ) → get_or m i 0 < 256

-- Whether a page is marked.
abbrev pub used : Pmat → ℕ → Bool
used m n = kget_page_bit m n == 1

-- Three facts about a byte, checked at every byte and every pair of bits.
unfoldable pub clear : ℕ → ℕ → Bool
clear b k = bit_and b (2 ^ k) == 0

same : Bool → Bool → Bool
same true b = b
same false b = not b

abbrev set_ok : ℕ → Bool
set_ok b = all_under 8 λ k.
    all_under 8 λ j. same (clear (bit_or b (2 ^ k) % 256) j) (if k == j then false else clear b j)

abbrev unset_ok : ℕ → Bool
unset_ok b = all_under 8 λ k.
    all_under 8 λ j.
      same (clear (bit_and b (2 ^ 32 - 1 - 2 ^ k) % 256) j) (if k == j then true else clear b j)

set_table : all_under 256 set_ok ≡ true
unfolding all_under same clear
set_table = refl

unset_table : all_under 256 unset_ok ≡ true
unfolding all_under same clear
unset_table = refl

eq_of_same : (a b : Bool) → same a b ≡ true → a ≡ b
unfolding same
eq_of_same true b h = ground arith
eq_of_same false b h = ground arith

pub clear-set :
    (b k j : ℕ)
    → b < 256
    → k < 8
    → j < 8
    → clear (bit_or b (2 ^ k) % 256) j ≡ (if k == j then false else clear b j)
clear-set b k j p q r =
    eq_of_same _ _
      (all_under-at 8 _ j r (all_under-at 8 _ k q (all_under-at 256 set_ok b p set_table)))

pub clear-unset :
    (b k j : ℕ)
    → b < 256
    → k < 8
    → j < 8
    → clear (bit_and b (2 ^ 32 - 1 - 2 ^ k) % 256) j ≡ (if k == j then true else clear b j)
clear-unset b k j p q r =
    eq_of_same _ _
      (all_under-at 8 _ j r (all_under-at 8 _ k q (all_under-at 256 unset_ok b p unset_table)))

used-clear : (m : Pmat) (n : ℕ) → used m n ≡ not (clear (get_or m (n / 8) 0) (n % 8))
unfolding kget_page_bit clear
used-clear m n = ground arith

pub kset-IsPmat : (m : Pmat) (n : ℕ) → IsPmat m → IsPmat (kset_page_bit m n)
unfolding kset_page_bit
kset-IsPmat m n v = record {
  size = omega (arith, v.size, length-set m (n / 8) (bit_or (get_or m (n / 8) 0) (bit_of n) % 256));
  bytes = λ i.
      ground
        (arith, v.bytes i, get_or-set m (n / 8) i (bit_or (get_or m (n / 8) 0) (bit_of n) % 256) 0);
}

pub kunset-IsPmat : (m : Pmat) (n : ℕ) → IsPmat m → IsPmat (kunset_page_bit m n)
unfolding kunset_page_bit
kunset-IsPmat m n v = record {
  size = omega (
    arith,
    v.size,
    length-set m (n / 8) (bit_and (get_or m (n / 8) 0) (2 ^ 32 - 1 - bit_of n) % 256),
  );
  bytes = λ i. ground (
    arith,
    v.bytes i,
    get_or-set m (n / 8) i (bit_and (get_or m (n / 8) 0) (2 ^ 32 - 1 - bit_of n) % 256) 0,
  );
}

-- Marking a page marks that page and no other.
pub used-kset :
    (m : Pmat) (n j : ℕ)
    → IsPmat m
    → n < max_pages
    → used (kset_page_bit m n) j ≡ (if n == j then true else used m j)
used-kset m n j v h =
    rw (used-clear (kset_page_bit m n) j, used-clear m j)
      (unfold kset_page_bit in
        ground (
          arith,
          v.size,
          get_or-set m (n / 8) (j / 8) (bit_or (get_or m (n / 8) 0) (bit_of n) % 256) 0,
          clear-set (get_or m (n / 8) 0) (n % 8) (j % 8) (v.bytes (n / 8)),
        ))

-- Unmarking a page unmarks that page and no other.
pub used-kunset :
    (m : Pmat) (n j : ℕ)
    → IsPmat m
    → n < max_pages
    → used (kunset_page_bit m n) j ≡ (if n == j then false else used m j)
used-kunset m n j v h =
    rw (used-clear (kunset_page_bit m n) j, used-clear m j)
      (unfold kunset_page_bit in
        ground (
          arith,
          v.size,
          get_or-set m (n / 8) (j / 8) (bit_and (get_or m (n / 8) 0) (2 ^ 32 - 1 - bit_of n) % 256)
              0,
          clear-unset (get_or m (n / 8) 0) (n % 8) (j % 8) (v.bytes (n / 8)),
        ))
