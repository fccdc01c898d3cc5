-- ===== src/Examples/SenderC/Choice.antt =====
-- The question that the C sender asks.
use reliable_udp.Prelude.{ℕ, ◌≡◌, true, false, Option, none, some, List, [], ◌∷◌, ◌++◌, refl}
use reliable_udp.Run.{returned, waiting}
use reliable_udp.Run.Rules.{All}
use reliable_udp.Examples.SenderC.{ask, settled, scanned}

-- No answer, or one that is neither 'y' nor 'n'.
abbrev pub IsUnclear : Option ℕ → Type 0
IsUnclear none = Unit
IsUnclear (some c) = settled c ≡ false

scanned-Unclear :
    (choice : ℕ) (a : Option ℕ)
    → settled choice ≡ false
    → IsUnclear a
    → settled (scanned choice a) ≡ false
scanned-Unclear choice none h k = h
scanned-Unclear choice (some c) h k = k

ask-settled :
    (choice : ℕ) (answers : List (Option ℕ))
    → settled choice ≡ true
    → ask choice answers ≡ returned choice
unfolding ask
ask-settled choice [] h = rw h refl
ask-settled choice (a ∷ answers) h = rw h refl

ask-unclear :
    (choice : ℕ) (answers : List (Option ℕ))
    → settled choice ≡ false
    → All IsUnclear answers
    → ask choice answers ≡ waiting
unfolding ask
ask-unclear choice [] h k = rw h refl
ask-unclear choice (a ∷ answers) h k =
    rw h (ask-unclear (scanned choice a) answers (scanned-Unclear choice a h k.0) k.1)

ask-clear :
    (choice c : ℕ) (before after : List (Option ℕ))
    → settled choice ≡ false
    → All IsUnclear before
    → settled c ≡ true
    → ask choice (before ++ some c ∷ after) ≡ returned c
unfolding ask
ask-clear choice c [] after h k e = rw h (ask-settled c after e)
ask-clear choice c (a ∷ before) after h k e =
    rw h (ask-clear (scanned choice a) c before after (scanned-Unclear choice a h k.0) k.1 e)

-- The loop that asks for more ends with the first answer that is 'y' or 'n', whatever stands before it,
-- and does not end while there is none, as at the end of the input.
pub ask_lem :
    (before after : List (Option ℕ)) (c : ℕ)
    → All IsUnclear before
    → settled c ≡ true
    → (ask 0 (before ++ some c ∷ after) ≡ returned c) × (ask 0 before ≡ waiting)
ask_lem before after c k e = (ask-clear 0 c before after refl k e, ask-unclear 0 before refl k)
