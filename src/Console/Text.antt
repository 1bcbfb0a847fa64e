-- ===== src/Console/Text.antt =====
-- The characters that `addline` of srv/console/console.c writes into a line.
use jeffos.Base.{ℕ, zero, suc, ◌+◌, ◌*◌, ◌≤◌, ◌<◌, ◌≡◌, ◌≢◌, refl, ◌∙◌, ap, true, false, arith}
use jeffos.Strings.{Bytes, store}
use jeffos.Console.{printable, write_text}

-- The printable start of the text at `t` has `m` bytes.
pub record Starts (text : Bytes) (t m : ℕ) : Type 0 where
  pub shown : (i : ℕ) → i < m → printable (text (t + i)) ≡ true
  pub stop : printable (text (t + m)) ≡ false

-- The `n` characters from the `i`th on are the printable start of the text and then blanks.
pub record Written (text raw raw' : Bytes) (t m i n : ℕ) : Type 0 where
  pub front : (j : ℕ) → j < n → j < m → raw' (2 * (i + j)) ≡ text (t + j)
  pub rest : (j : ℕ) → j < n → m ≤ j → raw' (2 * (i + j)) ≡ 32
  pub others : (a : ℕ) → ((j : ℕ) → j < n → a ≢ 2 * (i + j)) → raw' a ≡ raw a

module _ (text : Bytes) where
  Starts-tail : (t m : ℕ) → Starts text t (suc m) → Starts text (t + 1) m
  Starts-tail t m v = record {
    shown = λ i h. ap (λ a. printable (text a)) (omega arith) ∙ v.shown (suc i) (omega arith);
    stop = ap (λ a. printable (text a)) (omega arith) ∙ v.stop;
  }

  first-shown : (t m : ℕ) → Starts text t (suc m) → printable (text t) ≡ true
  first-shown t m v =
      ap (λ a. printable (text a)) {y = t + 0} (omega arith) ∙ v.shown 0 (omega arith)

  first-stops : (t : ℕ) → Starts text t 0 → printable (text t) ≡ false
  first-stops t v = ap (λ a. printable (text a)) {y = t + 0} (omega arith) ∙ v.stop

  -- What one round stores stays, since the others are behind it.
  stored-kept :
      (raw raw' : Bytes) (t m i n c : ℕ)
      → Written text (store raw (2 * i) c) raw' t m (i + 1) n
      → raw' (2 * (i + 0)) ≡ c
  stored-kept raw raw' t m i n c r =
      ap raw' {y = 2 * i} (omega arith) ∙ r.others (2 * i) (λ j h. omega arith) ∙ ground arith

  others-cons :
      (raw raw' : Bytes) (t m i n c : ℕ)
      → Written text (store raw (2 * i) c) raw' t m (i + 1) n
      → (a : ℕ) → ((j : ℕ) → j < suc n → a ≢ 2 * (i + j))
      → raw' a ≡ raw a
  others-cons raw raw' t m i n c r a h =
      let first : a ≢ 2 * i = λ e. h 0 (omega arith) (omega arith) in
      r.others a (λ j p e. h (suc j) (omega arith) (omega arith)) ∙ ground arith

  Written-blank :
      (raw raw' : Bytes) (t i n : ℕ)
      → Written text (store raw (2 * i) 32) raw' t 0 (i + 1) n
      → Written text raw raw' t 0 i (suc n)
  Written-blank raw raw' t i n r = record {
    front = λ j h p. absurd (omega arith);
    rest = rest;
    others = others-cons raw raw' t 0 i n 32 r;
  }
    where
      rest : (j : ℕ) → j < suc n → 0 ≤ j → raw' (2 * (i + j)) ≡ 32
      rest zero h p = stored-kept raw raw' t 0 i n 32 r
      rest (suc j) h p = ap raw' (omega arith) ∙ r.rest j (omega arith) (omega arith)

  Written-char :
      (raw raw' : Bytes) (t m i n : ℕ)
      → Written text (store raw (2 * i) (text t)) raw' (t + 1) m (i + 1) n
      → Written text raw raw' t (suc m) i (suc n)
  Written-char raw raw' t m i n r = record {
    front = front;
    rest = rest;
    others = others-cons raw raw' (t + 1) m i n (text t) r;
  }
    where
      front : (j : ℕ) → j < suc n → j < suc m → raw' (2 * (i + j)) ≡ text (t + j)
      front zero h p = stored-kept raw raw' (t + 1) m i n (text t) r ∙ ap text (omega arith)
      front (suc j) h p =
          ap raw' (omega arith) ∙ r.front j (omega arith) (omega arith) ∙ ap text (omega arith)

      rest : (j : ℕ) → j < suc n → suc m ≤ j → raw' (2 * (i + j)) ≡ 32
      rest zero h p = absurd (omega arith)
      rest (suc j) h p = ap raw' (omega arith) ∙ r.rest j (omega arith) (omega arith)

  pub write_text-Written :
      (n m t i : ℕ) (raw : Bytes)
      → Starts text t m
      → Written text raw (write_text text raw t i n) t m i n
  unfolding write_text
  write_text-Written zero m t i raw v = record {
    front = λ j h p. absurd (omega arith);
    rest = λ j h p. absurd (omega arith);
    others = λ a h. refl;
  }
  write_text-Written (suc n) zero t i raw v =
      let r = write_text-Written n zero t (i + 1) (store raw (2 * i) 32) v in
      rw (first-stops t v) (Written-blank raw _ t i n r)
  write_text-Written (suc n) (suc m) t i raw v =
      let r =
        write_text-Written n m (t + 1) (i + 1) (store raw (2 * i) (text t)) (Starts-tail t m v) in
      rw (first-shown t m v) (Written-char raw _ t m i n r)
