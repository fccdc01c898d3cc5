-- ===== src/Transfer/Receive/Storing.antt =====
-- What a `memcpy` from a packet leaves in the caller's buffer.
use native.Mathlib.Nat.{add-zero}
use reliable_udp.Prelude.{
  ℕ, ◌+◌, ◌-◌, ◌≤◌, ◌<◌, ◌≡◌, ◌^◌, false, some, ◌++◌, arith, take, drop, refl, ap, length, sym, ◌∙◌,
  replicate, length-take, length-append, length-drop, take-append, drop-append, take-add, drop-drop,
  [], ◌∷◌, take-append-drop, append-nil, take-length, take-all, drop-all,
}
use reliable_udp.Wire.Checksum.{Bytes}
use reliable_udp.Transfer.Receive.{signed_gt, read_payload, store, copy_payload}

pub read_payload_lem :
    (mtu : ℕ) (packet body : Bytes)
    → drop 12 packet ≡ body
    → length packet ≡ 12 + length body
    → 12 + length body ≤ mtu
    → read_payload mtu packet (length body) ≡ some body
unfolding read_payload
read_payload_lem mtu packet body e size fits =
    let zeros : Bytes = replicate (mtu - length packet) 0 in
    let behind : drop 12 (packet ++ zeros) ≡ body ++ zeros =
      drop-append 12 packet zeros (omega arith) ∙ ap (λ (b : Bytes). b ++ zeros) e in
    rw (behind, take-length body zeros) (ground arith)

-- Within the buffer, a `memcpy` replaces the bytes at its place, of which there may be none.
pub store_lem :
    (buffer payload : Bytes) (offset : ℕ)
    → offset + length payload ≤ length buffer
    → store buffer offset payload
      ≡ some (take offset buffer ++ payload ++ drop (offset + length payload) buffer)
unfolding store
store_lem buffer [] offset h = ap some (
    sym
      (rw (add-zero offset, append-nil (take offset buffer), take-append-drop offset buffer) refl))
store_lem buffer (x ∷ payload) offset h = ground arith

-- A buffer whose first `n` bytes are those of a message, and whose others are as they were.
pub progress : ℕ → Bytes → Bytes → Bytes
progress n message old = take n message ++ drop n old

pub length-progress :
    (n : ℕ) (message old : Bytes)
    → n ≤ length message
    → length message ≤ length old
    → length (progress n message old) ≡ length old
unfolding progress
length-progress n message old h k =
    omega
      (arith, length-append (take n message) (drop n old), length-take n message, length-drop n old)

module _ (n : ℕ) (message old : Bytes) (h : n ≤ length message) where
  take-progress : take n (progress n message old) ≡ take n message
  unfolding progress
  take-progress =
      let size = length-take n message in
      take-append n (take n message) (drop n old) (omega arith)
      ∙ take-all n (take n message) (omega arith)

  drop-progress : drop n (progress n message old) ≡ drop n old
  unfolding progress
  drop-progress =
      let size = length-take n message in
      drop-append n (take n message) (drop n old) (omega arith)
      ∙ ap (λ (b : Bytes). b ++ drop n old) (drop-all n (take n message) (omega arith))

  stored :
      (part : Bytes)
      → part ≡ take (length part) (drop n message)
      → take n (progress n message old) ++ part ++ drop (n + length part) (progress n message old)
        ≡ progress (n + length part) message old
  stored part e =
      let behind : drop (n + length part) (progress n message old) ≡ drop (n + length part) old =
        sym (drop-drop (length part) n (progress n message old))
        ∙ ap (drop (length part)) drop-progress
        ∙ drop-drop (length part) n old in
      let grown : take (n + length part) message ≡ take n message ++ part =
        take-add n (length part) message ∙ ap (λ (b : Bytes). take n message ++ b) (sym e) in
      rw (take-progress, behind)
        (ap (λ (b : Bytes). b ++ drop (n + length part) old) (sym grown)
          ∙ sym (progress_lem (n + length part)))
    where
      progress_lem : (k : ℕ) → progress k message old ≡ take k message ++ drop k old
      progress_lem k = unfold progress in refl

-- The next part of the message, stored behind the bytes that are there, makes more of it there.
pub store-progress :
    (n : ℕ) (message old part : Bytes)
    → n + length part ≤ length message
    → length message ≤ length old
    → part ≡ take (length part) (drop n message)
    → store (progress n message old) n part ≡ some (progress (n + length part) message old)
unfolding store
store-progress n message old part h k e =
    let size = length-progress n message old (omega arith) k in
    ground (arith, ap some (stored n message old (omega arith) part e))

pub copy_payload-store :
    (mtu : ℕ) (packet body : Bytes) (size : ℕ) (buffer : Bytes) (offset : ℕ)
    → read_payload mtu packet size ≡ some body
    → copy_payload mtu packet size buffer offset ≡ store buffer offset body
unfolding copy_payload
copy_payload-store mtu packet body size buffer offset e = rw (e, copy_payload) refl

pub progress-zero : (message old : Bytes) → progress 0 message old ≡ old
unfolding progress
progress-zero message old = refl

pub progress-all :
    (message old : Bytes)
    → progress (length message) message old ≡ message ++ drop (length message) old
unfolding progress
progress-all message old =
    ap (λ (b : Bytes). b ++ drop (length message) old)
      (take-all (length message) message (omega arith))

-- The `memcpy` at the buffer's start.
pub copy_payload-start :
    (mtu : ℕ) (packet : Bytes) (size n : ℕ) (message old : Bytes)
    → n ≡ 0
    → copy_payload mtu packet size (progress n message old) n
      ≡ some (progress (n + size) message old)
    → copy_payload mtu packet size old 0 ≡ some (progress size message old)
unfolding progress
copy_payload-start mtu packet size n message old e h =
    let same : n + size ≡ size = omega arith in
    ap (λ (k : ℕ). copy_payload mtu packet size (progress k message old) k) (sym e)
    ∙ h
    ∙ ap (λ (k : ℕ). some (progress k message old)) same

-- Below 2 ^ 31 the signed comparison is that of the numbers.
pub signed_gt-false : (a b : ℕ) → a ≤ b → b < 2 ^ 31 → signed_gt a b ≡ false
unfolding signed_gt
signed_gt-false a b h k = ground arith
