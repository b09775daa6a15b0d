-- ===== src/SpscQueue/Filled.antt =====
-- A queue of include/spsc_queue.h that is filled first and emptied after that.
use cpp_orderbook.Prelude.{
  ℕ, ◌+◌, ◌<◌, ◌≡◌, refl, sym, ap, ◌∙◌, subst, inl, inr, List, [], ◌∷◌, ◌++◌, length, true, some,
  ok, arith, length-append, length-replicate, ◌≤◌, ◌^◌, get_elem?-append_self,
}
use mathlib.Core.List.{append_assoc, append-nil}
use cpp_orderbook.SpscQueue.{SpscQueue, make_queue, push, pop}
use cpp_orderbook.SpscQueue.Modulo.{IsSized}
use cpp_orderbook.SpscQueue.Steps.{resting, waiting, State}
use cpp_orderbook.SpscQueue.Ring.{Inv, start-Inv}
use cpp_orderbook.SpscQueue.Inv.{Reach-Inv}
use cpp_orderbook.SpscQueue.Calls.{push_lem, pop_lem}
use cpp_orderbook.SpscQueue.Fifo.{Reach-length}

module _ {A : Type 0} where
  -- Between two calls, of threads that have pushed and popped that much.
  abbrev between : SpscQueue A → List A → List A → ℕ → ℕ → State A
  between q pushed popped pops_seen pushes_seen = record {
    queue = q;
    producer = resting;
    consumer = waiting;
    pushed = pushed;
    popped = popped;
    pops_seen = pops_seen;
    pushes_seen = pushes_seen;
  }

  -- A queue of `n` slots into which `xs` was pushed, and nothing popped.
  pub record Filled (n : ℕ) (q : SpscQueue A) (xs : List A) : Type 0 where
    pub pops_seen : ℕ
    pub pushes_seen : ℕ
    pub inv : Inv (between q xs [] pops_seen pushes_seen)
    pub size : length q.buffer ≡ n

  pub new-Filled :
      (q : SpscQueue A) → IsSized q.buffer → q.head ≡ 0 → q.tail ≡ 0 → Filled (length q.buffer) q []
  new-Filled q v h t = record {
    pops_seen = 0;
    pushes_seen = 0;
    inv = start-Inv q v h t;
    size = refl;
  }

  pub push-Filled :
      (n : ℕ) (x : A) (q : SpscQueue A) (xs : List A)
      → length xs + 1 < n
      → Filled n q xs
      → (q' : SpscQueue A) × (push x q ≡ ok (true, q')) × Filled n q' (xs ++ x ∷ [])
  push-Filled n x q xs room h = elim (push_lem x h.inv refl) [
    | inl (q', _, pushes, reach) ↦ (
      q',
      pushes,
      record {
        pops_seen = 0;
        pushes_seen = h.pushes_seen;
        inv = Reach-Inv reach h.inv;
        size = Reach-length reach ∙ h.size;
      },
    )
    | inr (full, _) ↦ absurd (omega (arith, h.size))
  ]

  -- The queue gives these items, in this order.
  abbrev pub Gives : SpscQueue A → List A → Type 0
  Gives q [] = Unit {0}
  Gives q (x ∷ xs) = (q' : SpscQueue A) × (pop q ≡ ok (some x, q')) × Gives q' xs

  queue_rest :
      (xs popped : List A) (q : SpscQueue A) (pops_seen pushes_seen : ℕ)
      → Inv (between q (popped ++ xs) popped pops_seen pushes_seen)
      → Gives q xs
  queue_rest [] popped q pops pushes v = tt
  queue_rest (x ∷ xs) popped q pops pushes v = elim (pop_lem v refl) [
    | inl (y, q', oldest, gives, reach) ↦
        let same : y ≡ x = cc (oldest, get_elem?-append_self popped x xs) in
        (
          q',
          gives ∙ ap (λ z. ok (some z, q')) same,
          queue_rest xs (popped ++ x ∷ []) q' pops (length (popped ++ x ∷ xs)) (
              subst (λ l. Inv (between q' l (popped ++ x ∷ []) pops (length (popped ++ x ∷ xs))))
                (sym (append_assoc popped (x ∷ []) xs))
                (subst
                  (λ z. Inv (
                    between q' (popped ++ x ∷ xs) (popped ++ z ∷ []) pops
                      (length (popped ++ x ∷ xs))))
                  same (Reach-Inv reach v))),
        )
    | inr (none_left, _) ↦ absurd (omega (arith, length-append popped (x ∷ xs)))
  ]

  pub Filled-Gives : (n : ℕ) (q : SpscQueue A) (xs : List A) → Filled n q xs → Gives q xs
  Filled-Gives n q xs h = queue_rest xs [] q h.pops_seen h.pushes_seen h.inv

  -- The queue takes these items, in this order, and becomes the other one.
  abbrev pub Takes : SpscQueue A → List A → SpscQueue A → Type 0
  Takes q [] q' = q ≡ q'
  Takes q (x ∷ xs) q' = (q₁ : SpscQueue A) × (push x q ≡ ok (true, q₁)) × Takes q₁ xs q'

  goes_in :
      (n : ℕ) (xs before : List A) (q : SpscQueue A)
      → length before + length xs < n
      → Filled n q before
      → (q' : SpscQueue A) × Takes q xs q' × Filled n q' (before ++ xs)
  goes_in n [] before q room h = (q, refl, subst (λ l. Filled n q l) (sym (append-nil before)) h)
  goes_in n (x ∷ xs) before q room h =
      let (q₁, pushes, h₁) = push-Filled n x q before (omega arith) h in
      let (q', takes, h') =
        goes_in n xs (before ++ x ∷ []) q₁ (omega (arith, length-append before (x ∷ []))) h₁ in
      (q', (q₁, pushes, takes), subst (λ l. Filled n q' l) (append_assoc before (x ∷ []) xs) h')

  -- Fewer items than slots, pushed into a new queue of 1 to 2^63 slots: all go in, and pops give them
  -- back in the order in which they were pushed.
  pub Takes-Gives :
      (capacity : ℕ) (item : A) (xs : List A)
      → length xs < capacity
      → capacity ≤ 2 ^ 63
      → (q : SpscQueue A) × Takes (make_queue capacity item) xs q × Gives q xs
  unfolding make_queue
  Takes-Gives capacity item xs room fits =
      let size = length-replicate capacity item in
      let start =
        new-Filled (make_queue capacity item)
          (record { some_slot = omega (arith, size, room); fits = omega (arith, size, fits) }) refl
          refl in
      let (q, takes, h) =
        goes_in capacity xs [] (make_queue capacity item) (omega (arith, room))
          (subst (λ n. Filled n (make_queue capacity item) []) size start) in
      (q, takes, Filled-Gives capacity q xs h)
