-- ===== src/Run.antt =====
-- How a call of the library ends, and the loops over the operating system's answers.
pub mod Rules
pub mod Windows
pub mod Counts
use reliable_udp.Prelude.{List, [], ◌∷◌, ◌++◌}
use reliable_udp.Network.{Sent}

-- One constructor for each `throw` of the library's methods.
pub data Error : Type 0 where
  invalid_mtu invalid_timeout invalid_max_retries : Error
  socket_failed bind_failed : Error
  server_cannot_connect client_cannot_accept already_connected not_connected : Error
  null_buffer bad_address poll_failed recv_failed send_failed : Error
  connection_rejected retries_exhausted : Error

-- `waiting`: the list of answers has run out, and the call has not ended. `undefined`: the code does
-- what C++ leaves undefined, such as a write behind the end of a buffer.
pub data Outcome (A : Type 0) : Type 0 where
  returned : A → Outcome A
  threw : Error → Outcome A
  waiting : Outcome A
  undefined : Outcome A

-- A call's outcome, the state behind it and what it gave to `sendto`, in order.
pub record Run (S A : Type 0) : Type 0 where
  pub outcome : Outcome A
  pub state : S
  pub sent : List Sent

-- What a loop does before it waits: it ends, or sends something and waits.
pub data Head (S A : Type 0) : Type 0 where
  stop : Run S A → Head S A
  proceed : List Sent → Head S A

-- What a loop does with an answer: it ends, or sends something and goes round again.
pub data Round (L S A : Type 0) : Type 0 where
  done : Run S A → Round L S A
  again : List Sent → L → Round L S A

module _ {S A : Type 0} where
  abbrev pub prepend : List Sent → Run S A → Run S A
  prepend out r = record r { sent = out ++ r.sent }

-- The end of a loop for which no answer is left, at a state.
pub at_end : {S A : Type 0} → S → Head S A → Run S A
at_end s (stop r) = r
at_end s (proceed out) = record { outcome = waiting; state = s; sent = out }

-- One turn of a loop, with what the loop goes on with.
pub turn : {L S A : Type 0} → Head S A → Round L S A → (L → Run S A) → Run S A
turn (stop r) round rest = r
turn (proceed out) (done r) rest = prepend out r
turn (proceed out) (again more l) rest = prepend (out ++ more) (rest l)

-- A loop over its local variables, on the list of answers; `view` shows the state in the variables.
module _ {L W S A : Type 0} (head : L → Head S A) (round : L → W → Round L S A) (view : L → S) where
  unfoldable pub run_loop : L → List W → Run S A
  unfolding at_end turn
  run_loop l [] = at_end (view l) (head l)
  run_loop l (w ∷ ws) = turn (head l) (round l w) (λ l'. run_loop l' ws)
