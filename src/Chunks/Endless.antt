-- ===== src/Chunks/Endless.antt =====
-- The way of a freed chunk back to the free list: kernel/alloc.c.
use jeffos.Base.{
  ℕ, zero, suc, ◌≤◌, ◌<◌, ◌≡◌, refl, ◌∙◌, false, arith, ◌==◌, ltb, Bool-cases, ==_iff, inl, inr,
}
use jeffos.Status.{Outcome, ok}
use jeffos.Chunks.{
  Chunk, set_next, set_prev, Lists, find_chunk, leave_used_list, merge_loop,
  merge_chunk_into_free_list, free,
}

merge_loop-endless :
    (fuel : ℕ) (s : Lists) (tmp c : ℕ)
    → (tmp == 0) ≡ false
    → ltb (s.chunk c).start (s.chunk tmp).start ≡ false
    → merge_loop fuel s tmp c ≡ Outcome.out_of_fuel
merge_loop-endless zero s tmp c p q = unfold merge_loop in refl
merge_loop-endless (suc fuel) s tmp c p q =
    step fuel s tmp c p q ∙ merge_loop-endless fuel s tmp c p q
  where
    step :
        (fuel : ℕ) (s : Lists) (tmp c : ℕ)
        → (tmp == 0) ≡ false
        → ltb (s.chunk c).start (s.chunk tmp).start ≡ false
        → merge_loop (suc fuel) s tmp c ≡ merge_loop fuel s tmp c
    step fuel s tmp c p q = unfold merge_loop in rw (p, q) refl

set_next-start : (chunk : ℕ → Chunk) (p v a : ℕ) → (set_next chunk p v a).start ≡ (chunk a).start
set_next-start chunk p v a = elim (Bool-cases (a == p)) [
  | inl e ↦ rw (e, (==_iff a p).0 e) refl
  | inr e ↦ rw e refl
]

set_prev-start : (chunk : ℕ → Chunk) (p v a : ℕ) → (set_prev chunk p v a).start ≡ (chunk a).start
set_prev-start chunk p v a = elim (Bool-cases (a == p)) [
  | inl e ↦ rw (e, (==_iff a p).0 e) refl
  | inr e ↦ rw e refl
]

-- Leaving the used list moves no chunk.
leave_used_list-start :
    (s : Lists) (c a : ℕ) → ((leave_used_list s c).chunk a).start ≡ (s.chunk a).start
unfolding leave_used_list
leave_used_list-start s c a = elim (Bool-cases ((s.chunk c).prev == 0)) [
  | inl e ↦ elim (Bool-cases ((s.chunk c).next == 0)) [
    | inl f ↦ rw (e, f) refl
    | inr f ↦ rw (e, f) (set_prev-start s.chunk (s.chunk c).next 0 a)
  ]
  | inr e ↦ rw e (
      set_prev-start (set_next s.chunk (s.chunk c).prev (s.chunk c).next) (s.chunk c).next
        (s.chunk c).prev a
      ∙ set_next-start s.chunk (s.chunk c).prev (s.chunk c).next a)
]

-- `free` of the memory of a used chunk never ends, whatever fuel it is given beyond the search for the
-- chunk, when the free list's first chunk does not start behind it.
pub free-endless :
    (fuel : ℕ) (s : Lists) (ptr c : ℕ)
    → find_chunk fuel s.chunk s.used_list ptr ≡ ok c
    → 0 < c
    → 0 < s.free_list
    → (s.chunk s.free_list).start ≤ (s.chunk c).start
    → free fuel s ptr ≡ Outcome.out_of_fuel
unfolding free merge_chunk_into_free_list
free-endless fuel s ptr c found pos some_free above =
    let busy : (c == 0) ≡ false = ground arith in
    rw (found, busy)
      (merge_loop-endless fuel (leave_used_list s c) s.free_list c (ground arith)
        (rw (leave_used_list-start s c c, leave_used_list-start s c s.free_list) (ground arith)))
