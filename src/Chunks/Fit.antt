-- ===== src/Chunks/Fit.antt =====
-- The search for a free chunk: `GetChunk` of kernel/alloc.c.
use jeffos.Base.{
  ℕ, zero, suc, ◌<◌, ◌≡◌, refl, inl, inr, false, List, [], ◌∷◌, arith, ◌==◌, ltb, if◌then◌else◌,
  length, Bool-cases,
}
use jeffos.Status.{ok}
use jeffos.KMem.Class.{FreeChain, head_or_null}
use jeffos.Chunks.{Chunk, Lists, get_chunk_from, get_chunk}

-- The first chunk of the list that is longer than `size`, or 0.
unfoldable pub first_longer : (ℕ → Chunk) → ℕ → List ℕ → ℕ
first_longer chunk size [] = 0
first_longer chunk size (c ∷ cs) =
    if ltb size (chunk c).length then c else first_longer chunk size cs

get_chunk_from_lem :
    (cs : List ℕ) (fuel : ℕ) (chunk : ℕ → Chunk) (size : ℕ)
    → FreeChain (λ c. (chunk c).next) cs
    → length cs < fuel
    → get_chunk_from fuel chunk (head_or_null cs) size ≡ ok (first_longer chunk size cs)
unfolding get_chunk_from first_longer
get_chunk_from_lem cs zero chunk size v h = absurd (omega arith)
get_chunk_from_lem [] (suc fuel) chunk size v h = refl
get_chunk_from_lem (c ∷ cs) (suc fuel) chunk size v h =
    let some_chunk : (c == 0) ≡ false = ground (arith, v.0) in
    let rest = get_chunk_from_lem cs fuel chunk size v.3 (omega arith) in
    elim (Bool-cases (ltb size (chunk c).length)) [
      | inl e ↦ rw (some_chunk, e) refl
      | inr e ↦ rw (some_chunk, e, v.1) rest
    ]

-- `GetChunk` ends, on a free list without cycles and with fuel above its length, and answers the first
-- chunk that is longer than `size`, or NULL; a chunk of just that size is passed over.
pub get_chunk_lem :
    (s : Lists) (cs : List ℕ) (fuel size : ℕ)
    → FreeChain (λ c. (s.chunk c).next) cs
    → s.free_list ≡ head_or_null cs
    → length cs < fuel
    → get_chunk fuel s size ≡ ok (first_longer s.chunk size cs)
unfolding get_chunk
get_chunk_lem s cs fuel size v at h = rw at (get_chunk_from_lem cs fuel s.chunk size v h)
