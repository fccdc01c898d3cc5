-- ===== src/Examples/Rules.antt =====
-- The rules for the programs' ends: what is allocated, closed and sent.
use reliable_udp.Prelude.{ℕ, ◌≡◌, false, none, some, List, ◌++◌, arith, length, length-append, refl}
use reliable_udp.Network.{Wait}
use reliable_udp.Run.{Run, Outcome, returned, threw, waiting, undefined}
use reliable_udp.Run.Rules.{All, All-append}
use reliable_udp.Validity.Control.{WellSent}
use reliable_udp.Socket.{Socket}
use reliable_udp.Socket.Invariant.{IsValid}
use reliable_udp.Api.{Handle, destroy, rudp_socket_free}
use reliable_udp.Api.Safety.{IsSound, IsCreated}
use reliable_udp.Api.Handles.{IsOpen, ClosesOne, destroy-Frees, rudp_socket_free-Frees}
use reliable_udp.Examples.{
  Heap, Exit, no_blocks, exit, resume, follow, free_socket, try_resume, attempt, leave,
}

-- A program that returns has freed all its blocks, and closed so many descriptors.
abbrev pub TidyOn : ℕ → Outcome ℕ → Heap → List ℕ → Type 0
TidyOn n (returned status) heap closed = (heap ≡ no_blocks) × (length closed ≡ n)
TidyOn n (threw e) heap closed = Unit
TidyOn n waiting heap closed = Unit
TidyOn n undefined heap closed = Unit

-- Besides, all that it sends is well-formed.
abbrev pub Proper : ℕ → Exit → Type 0
Proper n e = TidyOn n e.status e.heap e.closed × All WellSent e.sent

-- The sockets that a handle stands for.
abbrev pub sockets : Handle → ℕ
sockets none = 0
sockets (some s) = 1

-- The sockets that `rudp_socket` created.
abbrev pub opened : Outcome Handle → ℕ
opened (returned h) = sockets h
opened (threw e) = 0
opened waiting = 0
opened undefined = 0

abbrev pub constructed : Outcome Socket → ℕ
constructed (returned s) = 1
constructed (threw e) = 0
constructed waiting = 0
constructed undefined = 0

resume-Proper :
    {A : Type 0} (n : ℕ) (heap : Heap) (o : Outcome A) (rest : A → Exit)
    → ((a : A) → Proper n (rest a))
    → Proper n (resume heap o rest)
unfolding resume
resume-Proper n heap (returned a) rest k = k a
resume-Proper n heap (threw e) rest k = (tt, tt)
resume-Proper n heap waiting rest k = (tt, tt)
resume-Proper n heap undefined rest k = (tt, tt)

pub opened-Proper :
    (heap : Heap) (o : Outcome Handle) (rest : Handle → Exit)
    → IsCreated o
    → ((h : Handle) → IsSound h → Proper (sockets h) (rest h))
    → Proper (opened o) (resume heap o rest)
unfolding resume
opened-Proper heap (returned h) rest v k = k h v
opened-Proper heap (threw e) rest v k = absurd v
opened-Proper heap waiting rest v k = absurd v
opened-Proper heap undefined rest v k = absurd v

one_closed :
    (o : Outcome ℕ) (heap : Heap) (closed more : List ℕ)
    → length closed ≡ 1
    → TidyOn 0 o heap more
    → TidyOn 1 o heap (closed ++ more)
one_closed (returned n) heap closed more h k =
    (k.0, omega (arith, length-append closed more, h, k.1))
one_closed (threw e) heap closed more h k = tt
one_closed waiting heap closed more h k = tt
one_closed undefined heap closed more h k = tt

pub follow-Proper :
    {A S : Type 0} (n : ℕ) (heap : Heap) (P : S → Type 0) (r : Run S A) (rest : A → S → Exit)
    → P r.state × All WellSent r.sent
    → ((a : A) (s : S) → P s → Proper n (rest a s))
    → Proper n (follow heap r rest)
unfolding follow
follow-Proper n heap P r rest h k =
    let e = resume-Proper n heap r.outcome (λ a. rest a r.state) (λ a. k a r.state h.0) in
    (e.0, All-append WellSent r.sent _ h.1 e.1)

-- The freeing of the socket, where it is the last block but those that the rest frees.
resume-Closed :
    {A : Type 0} (heap : Heap) (o : Outcome A) (closed : List ℕ) (rest : A → Exit)
    → ClosesOne o closed
    → ((a : A) → Proper 0 (rest a))
    → (let e = resume heap o rest in
        TidyOn 1 e.status e.heap (closed ++ e.closed) × All WellSent e.sent)
unfolding resume
resume-Closed heap (returned a) closed rest h k =
    (one_closed (rest a).status (rest a).heap closed (rest a).closed h (k a).0, (k a).1)
resume-Closed heap (threw e) closed rest h k = (tt, tt)
resume-Closed heap waiting closed rest h k = (tt, tt)
resume-Closed heap undefined closed rest h k = (tt, tt)

pub free_socket-Proper :
    (heap : Heap) (h : Handle) (ws : List Wait) (rest : Heap → Exit)
    → IsOpen h
    → Proper 0 (rest (record heap { socket_block = false }))
    → Proper 1 (free_socket heap h ws rest)
unfolding free_socket
free_socket-Proper heap h ws rest v k =
    let f = rudp_socket_free (some h) ws in
    let freed = rudp_socket_free-Frees h ws v in
    let e =
      resume-Closed heap f.outcome f.closed (λ u. rest (record heap { socket_block = false }))
        freed.0 (λ u. k) in
    (e.0, All-append WellSent f.sent _ freed.1 e.1)

try_resume-Proper :
    {A : Type 0} (n : ℕ) (heap : Heap) (o : Outcome A) (rest : A → Exit) (handler : Exit)
    → ((a : A) → Proper n (rest a))
    → Proper n handler
    → Proper n (try_resume heap o rest handler)
unfolding try_resume
try_resume-Proper n heap (returned a) rest handler k c = k a
try_resume-Proper n heap (threw e) rest handler k c = c
try_resume-Proper n heap waiting rest handler k c = (tt, tt)
try_resume-Proper n heap undefined rest handler k c = (tt, tt)

pub attempt-Proper :
    {A S : Type 0} (n : ℕ) (heap : Heap) (P : S → Type 0) (r : Run S A) (rest : A → S → Exit)
    (handler : S → Exit)
    → P r.state × All WellSent r.sent
    → ((a : A) (s : S) → P s → Proper n (rest a s))
    → ((s : S) → P s → Proper n (handler s))
    → Proper n (attempt heap r rest handler)
unfolding attempt
attempt-Proper n heap P r rest handler h k c =
    let e =
      try_resume-Proper n heap r.outcome (λ a. rest a r.state) (handler r.state)
        (λ a. k a r.state h.0) (c r.state h.0) in
    (e.0, All-append WellSent r.sent _ h.1 e.1)

pub leave-Proper :
    (n : ℕ) (heap : Heap) (s : Socket) (ws : List Wait)
    → IsValid s
    → record heap { socket_block = false } ≡ no_blocks
    → Proper 1 (leave n heap s ws)
unfolding leave
leave-Proper n heap s ws v last =
    let f = destroy s ws in
    let freed = destroy-Frees s ws v in
    let e =
      resume-Closed heap f.outcome f.closed (λ u. exit n (record heap { socket_block = false }))
        freed.0 (λ u. ((last, refl), tt)) in
    (e.0, All-append WellSent f.sent _ freed.1 e.1)
