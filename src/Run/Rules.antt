-- ===== src/Run/Rules.antt =====
-- Rules for the loops over the operating system's answers: an invariant, and termination.
use reliable_udp.Prelude.{ℕ, ◌+◌, ◌≤◌, ◌<◌, ◌≡◌, ◌≢◌, refl, List, [], ◌∷◌, ◌++◌, arith}
use reliable_udp.Network.{Sent}
use reliable_udp.Run.{
  Run, Outcome, waiting, Head, Round, stop, proceed, done, again, prepend, run_loop, at_end, turn,
}

-- A property of each element.
abbrev pub All {ℓ κ} : {A : Type ℓ} → (A → Type κ) → List A → Type κ
All P [] = Unit
All P (x ∷ xs) = P x × All P xs

pub All-append {ℓ κ} :
    {A : Type ℓ} (P : A → Type κ) (xs ys : List A) → All P xs → All P ys → All P (xs ++ ys)
All-append P [] ys h k = k
All-append P (x ∷ xs) ys h k = (h.0, All-append P xs ys h.1 k)

-- No demand on what is sent.
abbrev pub Anything : Sent → Type 0
Anything d = Unit {0}

pub All-Anything : (out : List Sent) → All Anything out
All-Anything [] = tt
All-Anything (d ∷ out) = (tt, All-Anything out)

-- The outcome and the state of a run have one property, and all that it sent another.
abbrev pub Ends : {S A : Type 0} → (Outcome A → S → Type 0) → (Sent → Type 0) → Run S A → Type 0
Ends Q R r = Q r.outcome r.state × All R r.sent

module _ {L S A : Type 0} (P : L → Type 0) (Q : Outcome A → S → Type 0) (R : Sent → Type 0) where
  -- What a loop's test has to keep, at a state that `view` shows.
  abbrev pub HeadKeeps : S → Head S A → Type 0
  HeadKeeps s (stop r) = Ends Q R r
  HeadKeeps s (proceed out) = Q waiting s × All R out

  -- What a loop's body has to keep.
  abbrev pub RoundKeeps : Round L S A → Type 0
  RoundKeeps (done r) = Ends Q R r
  RoundKeeps (again out l) = P l × All R out

module _ {L S A : Type 0} (P : L → Type 0) (Q : Outcome A → S → Type 0) (R : Sent → Type 0) where
  prepend-Ends : (out : List Sent) (r : Run S A) → All R out → Ends Q R r → Ends Q R (prepend out r)
  prepend-Ends out r h e = (e.0, All-append R out r.sent h e.1)

  at_end-keeps : (s : S) (h : Head S A) → HeadKeeps P Q R s h → Ends Q R (at_end s h)
  unfolding at_end
  at_end-keeps s (stop r) e = e
  at_end-keeps s (proceed out) e = e

  turn-keeps :
      (s : S) (h : Head S A) (b : Round L S A) (rest : L → Run S A)
      → HeadKeeps P Q R s h
      → RoundKeeps P Q R b
      → ((l : L) → P l → Ends Q R (rest l))
      → Ends Q R (turn h b rest)
  unfolding turn
  turn-keeps s (stop r) b rest e k ih = e
  turn-keeps s (proceed out) (done r) rest e k ih = prepend-Ends out r e.1 k
  turn-keeps s (proceed out) (again more l) rest e k ih =
      prepend-Ends (out ++ more) (rest l) (All-append R out more e.1 k.1) (ih l k.0)

abbrev pub total_cost : {W : Type 0} → (W → ℕ) → List W → ℕ
total_cost cost [] = 0
total_cost cost (w ∷ ws) = cost w + total_cost cost ws

-- A loop's test ends the loop, never by waiting, or lets something through.
abbrev pub HeadEnds : {S A : Type 0} → Type 0 → Head S A → Type 0
HeadEnds G (stop r) = r.outcome ≢ waiting
HeadEnds G (proceed out) = G

HeadEnds-map : {S A : Type 0} (G H : Type 0) (h : Head S A) → (G → H) → HeadEnds G h → HeadEnds H h
HeadEnds-map G H (stop r) f e = e
HeadEnds-map G H (proceed out) f e = f e

-- A loop's body lowers the measure, from `m`, by the cost `c` at least, or ends the loop.
abbrev pub RoundEnds : {L S A : Type 0} → (L → Type 0) → (L → ℕ) → ℕ → ℕ → Round L S A → Type 0
RoundEnds P measure m c (done r) = r.outcome ≢ waiting
RoundEnds P measure m c (again out l) = P l × (measure l + c ≤ m)

pub at_end-ends :
    {S A : Type 0} (G : Type 0) (s : S) (h : Head S A)
    → HeadEnds G h
    → ¬ G
    → (at_end s h).outcome ≢ waiting
unfolding at_end
at_end-ends G s (stop r) e z = e
at_end-ends G s (proceed out) e z = absurd (z e)

pub turn-stopped :
    {L S A : Type 0} (G : Type 0) (h : Head S A) (b : Round L S A) (rest : L → Run S A)
    → HeadEnds G h
    → ¬ G
    → (turn h b rest).outcome ≢ waiting
unfolding turn
turn-stopped G (stop r) b rest e z = e
turn-stopped G (proceed out) b rest e z = absurd (z e)

pub turn-ends :
    {L S A : Type 0} (G : Type 0) (P : L → Type 0) (measure : L → ℕ) (m c t : ℕ) (h : Head S A)
    (b : Round L S A) (rest : L → Run S A)
    → HeadEnds G h
    → (G → RoundEnds P measure m c b)
    → ((l : L) → P l → measure l ≤ t → (rest l).outcome ≢ waiting)
    → m ≤ c + t
    → (turn h b rest).outcome ≢ waiting
unfolding turn
turn-ends G P measure m c t (stop r) b rest e k ih le = e
turn-ends G P measure m c t (proceed out) (done r) rest e k ih le = k e
turn-ends G P measure m c t (proceed out) (again more l) rest e k ih le =
    ih l (k e).0 (let k' = k e in omega arith)

module _ {L W S A : Type 0} (head : L → Head S A) (round : L → W → Round L S A) (view : L → S) where
  -- The rule for an invariant `P` of the loop's variables.
  pub run_loop_inv :
      (P : L → Type 0) (Q : Outcome A → S → Type 0) (R : Sent → Type 0)
      → ((l : L) → P l → HeadKeeps P Q R (view l) (head l))
      → ((l : L) (w : W) → P l → RoundKeeps P Q R (round l w))
      → (ws : List W) (l : L) → P l
      → Ends Q R (run_loop head round view l ws)
  unfolding run_loop
  run_loop_inv P Q R test body [] l p = at_end-keeps P Q R (view l) (head l) (test l p)
  run_loop_inv P Q R test body (w ∷ ws) l p =
      turn-keeps P Q R (view l) (head l) (round l w) (λ l'. run_loop head round view l' ws)
        (test l p) (body l w p) (run_loop_inv P Q R test body ws)

  -- The rule for termination: a measure that a turn lowers by at least the cost of its answer. With
  -- answers whose costs reach the measure, the loop ends. `G` is what the loop's test lets through.
  pub run_loop_ends_when :
      (P G : L → Type 0) (measure : L → ℕ) (cost : W → ℕ)
      → ((l : L) → P l → HeadEnds (G l × (0 < measure l)) (head l))
      → ((l : L) (w : W)
          → P l
          → G l × (0 < measure l)
          → RoundEnds P measure (measure l) (cost w) (round l w))
      → (ws : List W) (l : L) → P l
      → measure l ≤ total_cost cost ws
      → (run_loop head round view l ws).outcome ≢ waiting
  unfolding run_loop
  run_loop_ends_when P G measure cost test body [] l p le =
      at_end-ends _ (view l) (head l) (test l p) (λ g. omega arith)
  run_loop_ends_when P G measure cost test body (w ∷ ws) l p le =
      turn-ends _ P measure (measure l) (cost w) (total_cost cost ws) (head l) (round l w)
        (λ l'. run_loop head round view l' ws) (test l p) (body l w p)
        (run_loop_ends_when P G measure cost test body ws) le

  -- The same where the test fails at a measure of zero only.
  pub run_loop_ends :
      (P : L → Type 0) (measure : L → ℕ) (cost : W → ℕ)
      → ((l : L) → P l → HeadEnds (0 < measure l) (head l))
      → ((l : L) (w : W)
          → P l
          → 0 < measure l
          → RoundEnds P measure (measure l) (cost w) (round l w))
      → (ws : List W) (l : L) → P l
      → measure l ≤ total_cost cost ws
      → (run_loop head round view l ws).outcome ≢ waiting
  run_loop_ends P measure cost test body =
      run_loop_ends_when P (λ l. Unit {0}) measure cost
        (λ l p. HeadEnds-map _ _ (head l) (λ h. (tt, h)) (test l p)) (λ l w p g. body l w p g.1)

  -- The loop, step by step, by what its test and its body compute to.
  pub run_loop-stop :
      (l : L) (ws : List W) {r : Run S A} → head l ≡ stop r → run_loop head round view l ws ≡ r
  unfolding run_loop
  run_loop-stop l [] e = rw e refl
  run_loop-stop l (w ∷ ws) e = rw e refl

  pub run_loop-again :
      (l l' : L) (w : W) (ws : List W) {out more : List Sent}
      → head l ≡ proceed out
      → round l w ≡ again more l'
      → run_loop head round view l (w ∷ ws) ≡ prepend (out ++ more) (run_loop head round view l' ws)
  unfolding run_loop
  run_loop-again l l' w ws e f = rw (e, f) refl

  pub run_loop-done :
      (l : L) (w : W) (ws : List W) {out : List Sent} {r : Run S A}
      → head l ≡ proceed out
      → round l w ≡ done r
      → run_loop head round view l (w ∷ ws) ≡ prepend out r
  unfolding run_loop
  run_loop-done l w ws e f = rw (e, f) refl
