-- ===== src/SpscQueue/Modulo.antt =====
-- Indices of the ring of include/spsc_queue.h: the remainders of the numbers of pushes and pops.
use native.Mathlib.Nat.{mod-add-mod, mod-eq_of_lt, mod-eq-sub-mod, mod-lt}
use native.Mathlib.Decide.{dec_lt}
use cpp_orderbook.Prelude.{
  ℕ, zero, suc, ◌+◌, ◌-◌, ◌%◌, ◌^◌, ◌≤◌, ◌<◌, ◌≡◌, ◌≢◌, sym, ap, ◌∙◌, List, length, add64, arith,
}
use cpp_orderbook.SpscQueue.{next_index}
use cpp_orderbook.SpscQueue.Steps.{position}

-- A step of less than a whole round does not come back to where it started.
pub mod-add_ne : (n b k : ℕ) → 0 < k → k < n → (b + k) % n ≢ b % n
mod-add_ne n b k pos small e = elim (dec_lt (b % n + k) n) [
  | yes p ↦ omega (arith, mod-eq_of_lt p, mod-add-mod b n k, e)
  | no p ↦
      let low : b % n < n = mod-lt b (omega arith) in
      omega (
        arith,
        mod-eq-sub-mod {n = b % n + k} {m = n} (omega arith),
        mod-eq_of_lt {n = b % n + k - n} {m = n} (omega arith),
        mod-add-mod b n k,
      )
]

-- Two numbers less than a round apart with the same remainder are one.
pub eq_of_mod : (n a b : ℕ) → b ≤ a → a < b + n → a % n ≡ b % n → a ≡ b
eq_of_mod n a b low high e = elim (dec_lt b a) [
  | yes p ↦
      let split : b + (a - b) ≡ a = omega arith in
      absurd (mod-add_ne n b (a - b) (omega arith) (omega arith) (ap (λ k. k % n) split ∙ e))
  | no p ↦ omega arith
]

-- A ring whose indices cannot overflow a `size_t`.
pub record IsSized {ℓ} {A : Type ℓ} (buffer : List A) : Type 0 where
  pub some_slot : 0 < length buffer
  pub fits : length buffer ≤ 2 ^ 63

module _ {ℓ} {A : Type ℓ} where
  pub next_index_lem :
      (buffer : List A) (w : ℕ)
      → IsSized buffer
      → next_index buffer (w % length buffer) ≡ (w + 1) % length buffer
  unfolding next_index
  next_index_lem buffer w v =
      let low : w % length buffer < length buffer = mod-lt w v.some_slot in
      let no_wrap : add64 (w % length buffer) 1 ≡ w % length buffer + 1 = omega arith in
      ap (λ k. k % length buffer) no_wrap ∙ mod-add-mod w (length buffer) 1

  pub position_lem :
      (buffer : List A) (w : ℕ) → IsSized buffer → position buffer w ≡ w % length buffer
  position_lem buffer zero v = sym (mod-eq_of_lt v.some_slot)
  position_lem buffer (suc w) v =
      ap (next_index buffer) (position_lem buffer w v)
      ∙ next_index_lem buffer w v
      ∙ ap (λ k. k % length buffer) (omega arith)
