-- ===== src/Examples/SenderC/Freeing.antt =====
-- The C sender frees what it allocates, closes its socket, and sends well-formed packets.
use Prim.Native.String.{String}
use reliable_udp.Prelude.{
  ℕ, zero, suc, ◌+◌, ◌^◌, ◌<◌, ◌≡◌, Bool, true, false, Option, none, some, List, [], ◌∷◌, arith,
  refl, length, ◌==◌, ℤ, if_holds,
}
use reliable_udp.Wire.Checksum.{Bytes}
use reliable_udp.Transfer.Send.Invariant.{Holds}
use reliable_udp.Api.{Handle, rudp_socket, rudp_connect, rudp_send, rudp_disconnect}
use reliable_udp.Api.Safety.{IsSound, rudp_socket-IsCreated}
use reliable_udp.Api.Handles.{
  IsOpen, rudp_connect-StaysOpen, rudp_send-StaysOpen, rudp_disconnect-StaysOpen,
}
use reliable_udp.Examples.{file_size}
use reliable_udp.Examples.Rules.{
  Proper, sockets, opened, opened-Proper, follow-Proper, free_socket-Proper,
}
use reliable_udp.Examples.SenderC.{
  Turn, World, random_bytes, util_generate_random_data, arguments, ask, positive, in_use, clean_up,
  after_loop, ready_text, sending_loop, after_connect, with_data, with_socket, with_arguments,
  config, main,
}

pub length-random_bytes : (rand : ℕ → ℕ) (i n : ℕ) → length (random_bytes rand i n) ≡ n
unfolding random_bytes
length-random_bytes rand i zero = refl
length-random_bytes rand i (suc n) = omega (arith, length-random_bytes rand (i + 1) n)

pub util_generate_random_data-Holds :
    (calloc : Bool) (rand : ℕ → ℕ) (size : ℕ)
    → size < 2 ^ 32
    → Holds (util_generate_random_data calloc rand size) size
unfolding util_generate_random_data
util_generate_random_data-Holds calloc rand size low =
    if_holds (λ file. Holds file size) (size == 0) _ _ (λ e. tt)
      (λ e.
        if_holds (λ file. Holds file size) calloc _ _ (λ c. (length-random_bytes rand 0 size, low))
          (λ c. tt))

module _ (w : World) where
  clean_up-Proper : (h : Handle) → IsOpen h → Proper 1 (clean_up w h)
  unfolding clean_up
  clean_up-Proper h v = free_socket-Proper _ h w.freeing _ v ((refl, refl), tt)

  after_loop-Proper : (is_ok : Bool) (h : Handle) → IsOpen h → Proper 1 (after_loop w is_ok h)
  unfolding after_loop
  after_loop-Proper is_ok h v =
      if_holds (Proper 1) is_ok _ _
        (λ e.
          follow-Proper 1 in_use IsOpen (rudp_disconnect h w.disconnecting) _
            (rudp_disconnect-StaysOpen h w.disconnecting v) (λ ret h'. clean_up-Proper h'))
        (λ e. clean_up-Proper h v)

  sending_loop-Proper :
      (file : Bytes) (h : Handle) (ts : List Turn)
      → Holds (some file) file_size
      → IsOpen h
      → Proper 1 (sending_loop w file h ts)
  unfolding sending_loop
  sending_loop-Proper file h [] fits v = (tt, tt)
  sending_loop-Proper file h (t ∷ ts) fits v =
      follow-Proper 1 in_use IsOpen (rudp_send h (some ready_text) 5 t.ready) _
        (rudp_send-StaysOpen h (some ready_text) 5 t.ready (refl, omega arith) v)
        (λ sent h' v'.
          if_holds (Proper 1) (positive sent) _ _
            (λ e.
              follow-Proper 1 in_use IsOpen (rudp_send h' (some file) file_size t.file) _
                (rudp_send-StaysOpen h' (some file) file_size t.file fits v')
                (λ sent h'' v''.
                  if_holds (Proper 1) (positive sent) _ _
                    (λ e.
                      follow-Proper 1 in_use IsOpen
                        (record { outcome = ask 0 t.choices; state = h''; sent = [] }) _ (v'', tt)
                        (λ choice h''' v'''.
                          if_holds (Proper 1) (choice == 110) _ _
                            (λ e. after_loop-Proper true h''' v''')
                            (λ e. sending_loop-Proper file h''' ts fits v''')))
                    (λ e. after_loop-Proper false h'' v'')))
            (λ e. after_loop-Proper false h' v'))

  after_connect-Proper :
      (file : Bytes) (ret : Bool) (h : Handle)
      → Holds (some file) file_size
      → IsOpen h
      → Proper 1 (after_connect w file ret h)
  unfolding after_connect
  after_connect-Proper file ret h fits v =
      if_holds (Proper 1) ret _ _ (λ e. sending_loop-Proper file h w.turns fits v)
        (λ e. free_socket-Proper _ h w.freeing _ v ((refl, refl), tt))

module _ (inet_pton : String → Option ℕ) (w : World) (ip : String) (port : ℕ) where
  with_data-Proper :
      (h : Handle) (file : Option Bytes)
      → Holds file file_size
      → IsOpen h
      → Proper 1 (with_data inet_pton w ip port h file)
  unfolding with_data
  with_data-Proper h none fits v = free_socket-Proper _ h w.freeing _ v ((refl, refl), tt)
  with_data-Proper h (some file) fits v =
      follow-Proper 1 in_use IsOpen (rudp_connect inet_pton h ip port w.connecting) _
        (rudp_connect-StaysOpen inet_pton h ip port w.connecting v)
        (λ ret h' v'. after_connect-Proper w file ret h' fits v')

  with_socket-Proper :
      (h : Handle) → IsSound h → Proper (sockets h) (with_socket inet_pton w ip port h)
  unfolding with_socket
  with_socket-Proper none v = ((refl, refl), tt)
  with_socket-Proper (some s) v =
      with_data-Proper (some s) (util_generate_random_data w.calloc w.rand file_size)
        (util_generate_random_data-Holds w.calloc w.rand file_size (omega arith)) v

-- The sockets that the program creates: one, where its arguments are right and `rudp_socket` gives one.
abbrev pub created : (String → ℤ) → World → List String → ℕ
created atoi w argv = elim (arguments atoi argv) [
  | none ↦ 0
  | some a ↦ opened (rudp_socket config w.setup w.memory)
]

with_arguments-Proper :
    (inet_pton : String → Option ℕ) (w : World) (a : Option (String × ℕ))
    → Proper
        (elim a [ none ↦ 0 | some a ↦ opened (rudp_socket config w.setup w.memory) ])
        (with_arguments inet_pton w a)
unfolding with_arguments
with_arguments-Proper inet_pton w none = ((refl, refl), tt)
with_arguments-Proper inet_pton w (some (ip, port)) =
    opened-Proper _ (rudp_socket config w.setup w.memory) _
      (rudp_socket-IsCreated config w.setup w.memory (omega arith))
      (with_socket-Proper inet_pton w ip port)

pub sender_c-Proper :
    (inet_pton : String → Option ℕ) (atoi : String → ℤ) (w : World) (argv : List String)
    → Proper (created atoi w argv) (main inet_pton atoi w argv)
unfolding main
sender_c-Proper inet_pton atoi w argv = with_arguments-Proper inet_pton w (arguments atoi argv)
