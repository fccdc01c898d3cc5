-- ===== src/Examples/ReceiverC/Freeing.antt =====
-- The C receiver frees what it allocates, closes its socket, and sends well-formed packets.
use Prim.Native.String.{String}
use reliable_udp.Prelude.{
  ℕ, ◌≡◌, ◌≢◌, Bool, true, Option, none, some, List, [], ◌∷◌, arith, refl, ◌==◌, ℤ, pos, negsuc,
  if_holds,
}
use reliable_udp.Wire.Checksum.{Bytes}
use reliable_udp.Api.{Handle, HandleMemory, rudp_socket, rudp_accept, rudp_recv}
use reliable_udp.Api.Safety.{IsSound, rudp_socket-IsCreated}
use reliable_udp.Api.Handles.{IsOpen, rudp_accept-StaysOpen, rudp_recv-StaysOpen}
use reliable_udp.Examples.{Exit, file_size}
use reliable_udp.Examples.Rules.{
  Proper, sockets, opened, opened-Proper, follow-Proper, free_socket-Proper,
}
use reliable_udp.Examples.ReceiverC.{
  Turn, World, Samples, Stored, stored, no_memory, overrun, arguments, store_sample, positive,
  in_use, clean_up, on_error, after_sample, after_file, receive_loop, after_accept, with_socket,
  with_buffer, with_arguments, config, main,
}

-- Each `realloc` has memory.
abbrev pub AllGranted : List Turn → Type 0
AllGranted [] = Unit
AllGranted (t ∷ ts) = (t.realloc ≡ true) × AllGranted ts

-- Each `malloc` and each `realloc` has memory.
abbrev pub HasMemory : World → Type 0
HasMemory w = (w.buffer ≢ none) × (w.samples ≡ true) × AllGranted w.turns

abbrev OpenMemory : HandleMemory → Type 0
OpenMemory m = IsOpen m.handle

pub store_sample-granted : (a : Samples) → store_sample true a ≢ no_memory
unfolding store_sample
store_sample-granted a = ground arith

module _ (w : World) where
  clean_up-Proper : (h : Handle) → IsOpen h → Proper 1 (clean_up w h)
  unfolding clean_up
  clean_up-Proper h v = free_socket-Proper _ h w.freeing _ v ((refl, refl), tt)

  on_error-Proper : (h : Handle) → IsOpen h → Proper 1 (on_error w h)
  unfolding on_error
  on_error-Proper h v = free_socket-Proper _ h w.freeing _ v ((refl, refl), tt)

  after_sample-Proper :
      (h : Handle) (a : Stored) (rest : Samples → Exit)
      → a ≢ no_memory
      → ((a' : Samples) → Proper 1 (rest a'))
      → Proper 1 (after_sample w h a rest)
  unfolding after_sample
  after_sample-Proper h (stored a) rest g k = k a
  after_sample-Proper h no_memory rest g k = absurd (g refl)
  after_sample-Proper h overrun rest g k = (tt, tt)

  after_file-Proper :
      (h : Handle) (a : Samples) (got : ℤ) (rest : Samples → Exit)
      → IsOpen h
      → ((a' : Samples) → Proper 1 (rest a'))
      → Proper 1 (after_file w h true a got rest)
  unfolding after_file
  after_file-Proper h a (negsuc n) rest v k = on_error-Proper h v
  after_file-Proper h a (pos n) rest v k =
      if_holds (Proper 1) (n == 0) _ _ (λ e. clean_up-Proper h v)
        (λ e. after_sample-Proper h (store_sample true a) rest (store_sample-granted a) k)

  receive_loop-Proper :
      (m : HandleMemory) (a : Samples) (ts : List Turn)
      → AllGranted ts
      → IsOpen m.handle
      → Proper 1 (receive_loop w m a ts)
  unfolding receive_loop
  receive_loop-Proper m a [] g v = (tt, tt)
  receive_loop-Proper m a (t ∷ ts) g v =
      follow-Proper 1 in_use OpenMemory (rudp_recv m.handle (some m.buffer) 5 t.ready_first t.ready)
        _ (rudp_recv-StaysOpen m.handle (some m.buffer) 5 t.ready_first t.ready v)
        (λ got m' v'.
          if_holds (Proper 1) (positive got) _ _
            (λ e.
              follow-Proper 1 in_use OpenMemory
                (rudp_recv m'.handle (some m'.buffer) file_size t.file_first t.file) _
                (rudp_recv-StaysOpen m'.handle (some m'.buffer) file_size t.file_first t.file v')
                (λ got m'' v''. rw g.0 (
                  after_file-Proper m''.handle a got (λ a'. receive_loop w m'' a' ts) v''
                    (λ a'. receive_loop-Proper m'' a' ts g.1 v''))))
            (λ e. clean_up-Proper m'.handle v'))

  after_accept-Proper :
      (buffer : Bytes) (ret : Bool) (h : Handle)
      → AllGranted w.turns
      → IsOpen h
      → Proper 1 (after_accept w buffer ret h)
  unfolding after_accept
  after_accept-Proper buffer ret h g v =
      if_holds (Proper 1) ret _ _ (λ e. receive_loop-Proper _ _ w.turns g v)
        (λ e. on_error-Proper h v)

  with_socket-Proper :
      (buffer : Bytes) (h : Handle)
      → AllGranted w.turns
      → IsSound h
      → Proper (sockets h) (with_socket w buffer h)
  unfolding with_socket
  with_socket-Proper buffer none g v = ((refl, refl), tt)
  with_socket-Proper buffer (some s) g v =
      follow-Proper 1 in_use IsOpen (rudp_accept (some s) w.accepting) _
        (rudp_accept-StaysOpen (some s) w.accepting v)
        (λ ret h' v'. after_accept-Proper buffer ret h' g v')

-- The sockets that the program creates: one, where its arguments are right, it has memory, and
-- `rudp_socket` gives one.
abbrev pub created : (String → ℤ) → World → List String → ℕ
created atoi w argv = elim (arguments atoi argv) [
  | none ↦ 0
  | some port ↦ opened (rudp_socket (config port) w.setup w.memory)
]

with_buffer-Proper :
    (w : World) (port : ℕ) (buffer : Option Bytes)
    → buffer ≢ none
    → w.samples ≡ true
    → AllGranted w.turns
    → Proper (opened (rudp_socket (config port) w.setup w.memory)) (with_buffer w port buffer)
unfolding with_buffer
with_buffer-Proper w port none h e g = absurd (h refl)
with_buffer-Proper w port (some buffer) h e g = rw e (
    opened-Proper _ (rudp_socket (config port) w.setup w.memory) _
      (rudp_socket-IsCreated (config port) w.setup w.memory (omega arith))
      (λ h v. with_socket-Proper w buffer h g v))

with_arguments-Proper :
    (w : World) (port : Option ℕ)
    → HasMemory w
    → Proper
        (elim port [ none ↦ 0 | some port ↦ opened (rudp_socket (config port) w.setup w.memory) ])
        (with_arguments w port)
unfolding with_arguments
with_arguments-Proper w none h = ((refl, refl), tt)
with_arguments-Proper w (some port) h = with_buffer-Proper w port w.buffer h.0 h.1 h.2

pub receiver_c-Proper :
    (atoi : String → ℤ) (w : World) (argv : List String)
    → HasMemory w
    → Proper (created atoi w argv) (main atoi w argv)
unfolding main
receiver_c-Proper atoi w argv h = with_arguments-Proper w (arguments atoi argv) h
