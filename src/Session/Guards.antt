-- ===== src/Session/Guards.antt =====
-- Transfers of bytes lie between the opening and the closing of a connection.
use Prim.Native.String.{String}
use reliable_udp.Prelude.{ℕ, ◌≡◌, Bool, true, false, Option, List, [], ◌∷◌, refl}
use reliable_udp.Socket.{Socket}
use reliable_udp.Session.Spec.{
  Phase, Method, Reply, idle, linked, connecting, accepting, sending, receiving, disconnecting, yes,
  no, nothing, counted, fails, phase, IsLinked, Transfers, Allowed,
}
use reliable_udp.Session.Runs.{
  Request, Observed, Trace, finished, step, transcript, transcript-Trace,
}

-- Whether the connection is open behind a call, by what was observed so far.
abbrev pub live_after : Bool → Observed → Bool
live_after live o = after o.method o.reply
  where
    after : Method → Reply → Bool
    after connecting yes = true
    after accepting yes = true
    after disconnecting yes = false
    after m r = live

abbrev pub IsCounted : Reply → Type 0
IsCounted counted = Unit
IsCounted _ = ⊥

-- Each transfer of bytes comes behind a call that opened the connection, with no `disconnect` between.
abbrev pub Guarded : Bool → List Observed → Type 0
Guarded live [] = Unit
Guarded live (o ∷ os) = (IsCounted o.reply → live ≡ true) × Guarded (live_after live o) os

counted-IsLinked :
    (server : Bool) (m : Method) (r : Reply) (p q : Phase)
    → Allowed server m r p q
    → IsCounted r
    → IsLinked p
counted-IsLinked server m yes p q a c = absurd c
counted-IsLinked server m no p q a c = absurd c
counted-IsLinked server m nothing p q a c = absurd c
counted-IsLinked server m fails p q a c = absurd c
counted-IsLinked server connecting counted p q a c = absurd a
counted-IsLinked server accepting counted p q a c = absurd a
counted-IsLinked server sending counted p q a c = a.0
counted-IsLinked server receiving counted p q a c = a.0
counted-IsLinked server disconnecting counted p q a c = absurd a

not_idle : (q : Phase) → q ≡ idle → IsLinked q → ⊥
not_idle idle e l = l
not_idle (linked a) e l = absurd cc

-- What is known of a phase, by whether the connection was seen to open.
abbrev Seen : Bool → Phase → Type 0
Seen live p = IsLinked p → live ≡ true

same-Seen : (live : Bool) (p q : Phase) → q ≡ p → Seen live p → Seen live q
same-Seen live p q e h = rw e h

Transfers-Seen :
    (live : Bool) (r : Reply) (p q : Phase) → Transfers r p q → Seen live p → Seen live q
Transfers-Seen live yes p q a h = absurd a
Transfers-Seen live no p q a h = absurd a
Transfers-Seen live nothing p q a h = λ l. h a.0
Transfers-Seen live counted p q a h = λ l. h a.0
Transfers-Seen live fails p q a h = same-Seen live p q a h

Allowed-Seen :
    (live server : Bool) (m : Method) (r : Reply) (p q : Phase)
    → Allowed server m r p q
    → Seen live p
    → Seen (live_after live (record { method = m; reply = r })) q
Allowed-Seen live server sending r p q a h = Transfers-Seen live r p q a h
Allowed-Seen live server receiving r p q a h = Transfers-Seen live r p q a h
Allowed-Seen live server connecting yes p q a h = λ l. refl
Allowed-Seen live server connecting no p q a h = λ l. absurd (not_idle q a.2 l)
Allowed-Seen live server connecting nothing p q a h = absurd a
Allowed-Seen live server connecting counted p q a h = absurd a
Allowed-Seen live server connecting fails p q a h = same-Seen live p q a h
Allowed-Seen live server accepting yes p q a h = λ l. refl
Allowed-Seen live server accepting no p q a h = absurd a
Allowed-Seen live server accepting nothing p q a h = absurd a
Allowed-Seen live server accepting counted p q a h = absurd a
Allowed-Seen live server accepting fails p q a h = same-Seen live p q a h
Allowed-Seen live server disconnecting yes p q a h = λ l. absurd (not_idle q a.1 l)
Allowed-Seen live server disconnecting no p q a h = absurd a
Allowed-Seen live server disconnecting nothing p q a h = absurd a
Allowed-Seen live server disconnecting counted p q a h = absurd a
Allowed-Seen live server disconnecting fails p q a h = same-Seen live p q a h

Trace-Guarded :
    (server live : Bool) {p q : Phase} {os : List Observed}
    → Trace server p os q
    → Seen live p
    → Guarded live os
Trace-Guarded server live finished h = tt
Trace-Guarded server live (step {p = p} {q = q} {o = o} a t) h = (
  λ c. h (counted-IsLinked server o.method o.reply p q a c),
  Trace-Guarded server (live_after live o) t (Allowed-Seen live server o.method o.reply p q a h),
)

idle-Seen : (s : Socket) → s.is_connected ≡ false → Seen false (phase s)
idle-Seen s h = rw h (λ l. absurd l)

-- On a socket that is not connected, whatever sequence of calls is made on it and whatever the operating
-- system answers: each call of `send` or `recv` that returns a count other than zero comes behind a call
-- of `connect` or `accept` that returned true, with no call of `disconnect` that returned true between.
pub transcript-Guarded :
    (inet_pton : String → Option ℕ) (s : Socket) (rs : List Request)
    → s.is_connected ≡ false
    → Guarded false (transcript inet_pton s rs)
transcript-Guarded inet_pton s rs h =
    Trace-Guarded s.is_server false (transcript-Trace inet_pton s rs) (idle-Seen s h)
