-- ===== src/Examples/ReceiverC/Bounds.antt =====
-- The array of samples grows before it is full, and a failing `realloc` ends the storing.
use native.Mathlib.Nat.{pow-suc}
use reliable_udp.Prelude.{
  ℕ, zero, suc, ◌+◌, ◌*◌, ◌^◌, ◌≤◌, ◌<◌, ◌≡◌, ◌∙◌, sym, ap, Bool-cases, Nat-cases, ◌≢◌, Bool, true,
  false, arith, refl, inl, inr,
}
use reliable_udp.Examples.ReceiverC.{Samples, Stored, stored, no_memory, overrun, store_sample}

abbrev then_store : Bool → Stored → Stored
then_store realloc (stored a) = store_sample realloc a
then_store realloc no_memory = no_memory
then_store realloc overrun = overrun

-- The array after some samples, from the one of a single place that the program starts with, by whether
-- `realloc` would have memory behind each sample.
abbrev pub store_samples : (ℕ → Bool) → ℕ → Stored
store_samples realloc zero = stored (record { times = 0; arrsize = 1 })
store_samples realloc (suc n) = then_store (realloc (suc n)) (store_samples realloc n)

-- The array holds this many samples, has a place for the next one, is at most double as long, and each
-- doubling had its memory; or a doubling had none.
abbrev pub HoldsSamples : (ℕ → Bool) → ℕ → Stored → Type 0
HoldsSamples realloc n (stored a) =
    (a.times ≡ n)
    × (n < a.arrsize)
    × (a.arrsize ≤ 2 * n + 1)
    × ((j : ℕ) × (a.arrsize ≡ 2 ^ j) × ((k : ℕ) → k < j → realloc (2 ^ k) ≡ true))
HoldsSamples realloc n no_memory = (k : ℕ) × (2 ^ k ≤ n) × (realloc (2 ^ k) ≡ false)
HoldsSamples realloc n overrun = ⊥

-- One more memory behind those of the first doublings.
all_below :
    (realloc : ℕ → Bool) (j : ℕ)
    → ((k : ℕ) → k < j → realloc (2 ^ k) ≡ true)
    → realloc (2 ^ j) ≡ true
    → (k : ℕ) → k < suc j
    → realloc (2 ^ k) ≡ true
all_below realloc j below last k h = elim (Nat-cases k j) [
  | inl same ↦ ap (λ (i : ℕ). realloc (2 ^ i)) same ∙ last
  | inr other ↦ below k (omega arith)
]

module _ (realloc : ℕ → Bool) (n : ℕ) (a : Samples) (low : n + 1 ≤ 2 ^ 29) (same : a.times ≡ n)
    (room : n < a.arrsize) (few : a.arrsize ≤ 2 * n + 1) (j : ℕ) (size : a.arrsize ≡ 2 ^ j)
    (below : (k : ℕ) → k < j → realloc (2 ^ k) ≡ true) where
  not_full : a.arrsize ≢ n + 1 → HoldsSamples realloc (suc n) (store_sample (realloc (suc n)) a)
  unfolding store_sample
  not_full h =
      let next : store_sample (realloc (suc n)) a
          ≡ stored (record { times = n + 1; arrsize = a.arrsize }) =
        ground arith in
      rw next (omega arith, omega arith, omega arith, (j, size, below))

  doubled : a.arrsize ≡ n + 1 → HoldsSamples realloc (suc n) (store_sample (realloc (suc n)) a)
  unfolding store_sample
  doubled h =
      let point : realloc (suc n) ≡ realloc (2 ^ j) = ap realloc (omega arith) in
      elim (Bool-cases (realloc (suc n))) [
        | inl granted ↦
            let next : store_sample (realloc (suc n)) a
                ≡ stored (record { times = n + 1; arrsize = a.arrsize * 2 }) =
              ground arith in
            rw next (
              omega arith,
              omega arith,
              omega arith,
              (
                suc j,
                (let p = pow-suc 2 j in omega arith),
                all_below realloc j below (sym point ∙ granted),
              ),
            )
        | inr refused ↦
            let next : store_sample (realloc (suc n)) a ≡ no_memory = ground arith in
            rw next (j, omega arith, sym point ∙ refused)
      ]

then_store-HoldsSamples :
    (realloc : ℕ → Bool) (n : ℕ) (a : Stored)
    → n + 1 ≤ 2 ^ 29
    → HoldsSamples realloc n a
    → HoldsSamples realloc (suc n) (then_store (realloc (suc n)) a)
then_store-HoldsSamples realloc n (stored a) low (same, room, few, (j, size, below)) =
    elim (Nat-cases a.arrsize (n + 1)) [
      | inl full ↦ doubled realloc n a low same room few j size below full
      | inr other ↦ not_full realloc n a low same room few j size below other
    ]
then_store-HoldsSamples realloc n no_memory low (k, h, refused) = (k, omega arith, refused)
then_store-HoldsSamples realloc n overrun low h = absurd h

-- Up to 2^29 samples, the C receiver writes each one within its array, and `arrsize` does not overflow:
-- behind `n` samples, whether `realloc` has memory or not, the array has a place for the next one, at
-- most `2 * n + 1` places and a power of two of them, where each `realloc` that was called, behind a
-- number of samples that is a power of two below that length, had memory; or one had none, and the
-- storing ended there.
pub store_samples-HoldsSamples :
    (realloc : ℕ → Bool) (n : ℕ) → n ≤ 2 ^ 29 → HoldsSamples realloc n (store_samples realloc n)
store_samples-HoldsSamples realloc zero low =
    (refl, omega arith, omega arith, (0, refl, λ k h. absurd (omega arith)))
store_samples-HoldsSamples realloc (suc n) low =
    then_store-HoldsSamples realloc n (store_samples realloc n) (omega arith)
      (store_samples-HoldsSamples realloc n (omega arith))
