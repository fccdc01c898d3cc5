-- ===== src/Run/Counts.antt =====
-- How many datagrams a loop over the operating system's answers sends at most.
use reliable_udp.Prelude.{ℕ, suc, ◌+◌, ◌*◌, ◌≤◌, List, [], ◌∷◌, ◌++◌, arith, length, length-append}
use reliable_udp.Run.{Run, Head, Round, stop, proceed, done, again, run_loop, at_end, turn}

-- A head sends one datagram at most, and so does a round.
abbrev pub ShortHead : {S A : Type 0} → Head S A → Type 0
ShortHead (stop r) = length r.sent ≤ 1
ShortHead (proceed out) = length out ≤ 1

abbrev pub ShortRound : {L S A : Type 0} → Round L S A → Type 0
ShortRound (done r) = length r.sent ≤ 1
ShortRound (again out l) = length out ≤ 1

at_end-short : {S A : Type 0} (s : S) (h : Head S A) → ShortHead h → length (at_end s h).sent ≤ 1
unfolding at_end
at_end-short s (stop r) h = h
at_end-short s (proceed out) h = h

turn-short :
    {L S A : Type 0} (n : ℕ) (h : Head S A) (b : Round L S A) (rest : L → Run S A)
    → ShortHead h
    → ShortRound b
    → ((l : L) → length (rest l).sent ≤ 2 * n + 1)
    → length (turn h b rest).sent ≤ 2 * suc n + 1
unfolding turn
turn-short n (stop r) b rest h k ih = omega arith
turn-short n (proceed out) (done r) rest h k ih = omega (arith, length-append out r.sent)
turn-short n (proceed out) (again more l) rest h k ih =
    omega (arith, length-append out more, length-append (out ++ more) (rest l).sent, ih l)

-- A loop sends twice as many datagrams as it gets answers, and one more, at most.
module _ {L W S A : Type 0} (head : L → Head S A) (round : L → W → Round L S A) (view : L → S)
    (short_head : (l : L) → ShortHead (head l))
    (short_round : (l : L) (w : W) → ShortRound (round l w)) where
  pub run_loop_short :
      (l : L) (ws : List W) → length (run_loop head round view l ws).sent ≤ 2 * length ws + 1
  unfolding run_loop
  run_loop_short l [] = let end = at_end-short (view l) (head l) (short_head l) in omega arith
  run_loop_short l (w ∷ ws) =
      turn-short (length ws) (head l) (round l w) _ (short_head l) (short_round l w)
        (λ l'. run_loop_short l' ws)
