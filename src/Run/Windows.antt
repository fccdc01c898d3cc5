-- ===== src/Run/Windows.antt =====
-- A loop that need not end on every list of answers, but ends where one answer comes often enough in a
-- row, whatever came before.
use reliable_udp.Prelude.{ℕ, zero, suc, ◌≤◌, ◌<◌, ◌≢◌, List, [], ◌∷◌, ◌++◌, arith, replicate}
use reliable_udp.Run.{waiting, Head, Round, run_loop}
use reliable_udp.Run.Rules.{HeadEnds, RoundEnds, at_end-ends, turn-ends, turn-stopped}

module _ {L W S A : Type 0} (head : L → Head S A) (round : L → W → Round L S A) (view : L → S)
    (P G : L → Type 0) (measure : L → ℕ)
    (test : (l : L) → P l → HeadEnds (G l × (0 < measure l)) (head l)) where
  -- An answer that lowers the measure ends the loop, once it comes as often as the measure says.
  window_ends :
      (w : W)
      → ((l : L) → P l → G l × (0 < measure l) → RoundEnds P measure (measure l) 1 (round l w))
      → (n : ℕ) (rest : List W) (l : L) → P l
      → measure l ≤ n
      → (run_loop head round view l (replicate n w ++ rest)).outcome ≢ waiting
  unfolding run_loop
  window_ends w falls zero [] l p le = at_end-ends _ (view l) (head l) (test l p) (λ g. omega arith)
  window_ends w falls zero (v ∷ rest) l p le =
      turn-stopped _ (head l) (round l v) (λ l'. run_loop head round view l' rest) (test l p)
        (λ g. omega arith)
  window_ends w falls (suc n) rest l p le =
      turn-ends _ P measure (measure l) 1 n (head l) (round l w)
        (λ l'. run_loop head round view l' (replicate n w ++ rest)) (test l p) (falls l p)
        (λ l' p' le'. window_ends w falls n rest l' p' le') (omega arith)

  -- The same after any answers, where a turn on any answer keeps `P`.
  pub run_loop_ends_after :
      (w : W) (most : ℕ)
      → ((l : L) → P l → measure l ≤ most)
      → ((l : L) (w' : W) → P l → G l → RoundEnds P (λ l. 0) 0 0 (round l w'))
      → ((l : L) → P l → G l × (0 < measure l) → RoundEnds P measure (measure l) 1 (round l w))
      → (ws rest : List W) (l : L) → P l
      → (run_loop head round view l (ws ++ replicate most w ++ rest)).outcome ≢ waiting
  unfolding run_loop
  run_loop_ends_after w most bound keeps falls [] rest l p =
      window_ends w falls most rest l p (bound l p)
  run_loop_ends_after w most bound keeps falls (v ∷ ws) rest l p =
      turn-ends _ P (λ l. 0) 0 0 0 (head l) (round l v)
        (λ l'. run_loop head round view l' (ws ++ replicate most w ++ rest)) (test l p)
        (λ g. keeps l v p g.0)
        (λ l' p' le. run_loop_ends_after w most bound keeps falls ws rest l' p') (omega arith)
