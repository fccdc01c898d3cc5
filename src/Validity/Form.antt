-- ===== src/Validity/Form.antt =====
-- Which packets pass the tests on the form: those that the library seals do, and of two packets with
-- one checksum field at most those with one sum.
use reliable_udp.Prelude.{
  ◌+◌, ◌≤◌, ◌^◌, ◌<◌, ◌≡◌, true, false, arith, length, ap, ◌∙◌, Bool-cases, inl, inr,
}
use reliable_udp.Wire.Checksum.{Bytes}
use reliable_udp.Wire.Checksum.Fold.{IsBytes, SameSum, sum_words, checksum_eq_iff}
use reliable_udp.Wire.Header.{
  Header, SynPacket, decode_header, decode_syn, encode_syn, clear_checksum, seal, flag_set,
  flag_syn, syn_packet_size,
}
use reliable_udp.Wire.Header.Codec.{
  IsHeader, IsSyn, decode-seal, length-seal, clear-seal, decode_syn-seal, length-encode_syn,
}
use reliable_udp.Validity.{syn_acceptable, well_formed}

-- Settings that the tests let pass.
pub record IsAcceptable (p : SynPacket) : Type 0 where
  pub mtu_min : 20 ≤ p.mtu
  pub timeout_min : 10 ≤ p.timeout
  pub max_retries_min : 1 ≤ p.max_retries
  pub debug_mode_max : p.debug_mode ≤ 1

pub syn_acceptable_iff :
    (p : SynPacket)
    → (syn_acceptable syn_packet_size p ≡ true → IsAcceptable p)
      × (IsAcceptable p → syn_acceptable syn_packet_size p ≡ true)
unfolding syn_acceptable
syn_acceptable_iff p = ground arith

module _ (h : Header) (body : Bytes) (v : IsHeader h) (z : h.checksum ≡ 0)
    (l : h.length ≡ length body) where
  seal-well_formed_if :
      syn_acceptable h.length (decode_syn (seal h body)) ≡ true → well_formed (seal h body) ≡ true
  unfolding well_formed
  seal-well_formed_if ok =
      rw (decode-seal h body v, clear-seal h body z, length-seal h body, ok) (ground arith)

  -- A sealed packet without the SYN flag has the right form.
  pub seal-well_formed : flag_set h.flags flag_syn ≡ false → well_formed (seal h body) ≡ true
  unfolding well_formed
  seal-well_formed no_syn =
      rw (decode-seal h body v, clear-seal h body z, length-seal h body) (ground arith)

  -- So has a sealed SYN packet whose settings are acceptable.
  pub seal-well_formed_syn :
      (p : SynPacket)
      → body ≡ encode_syn p
      → IsSyn p
      → IsAcceptable p
      → well_formed (seal h body) ≡ true
  seal-well_formed_syn p e fits ok =
      let size : h.length ≡ syn_packet_size = l ∙ ap length e ∙ length-encode_syn p in
      let settings : decode_syn (seal h body) ≡ p =
        ap (λ b. decode_syn (seal h b)) e ∙ decode_syn-seal h p fits in
      seal-well_formed_if (rw (settings, size) ((syn_acceptable_iff p).1 ok))

-- Two packets of the right form, of bytes and shorter than 2 ^ 16, with one checksum field have word
-- sums that agree by remainder modulo 65535, and as to being zero, once the field is cleared.
pub well_formed_detects :
    (p q : Bytes)
    → IsBytes (clear_checksum p)
    → IsBytes (clear_checksum q)
    → length (clear_checksum p) < 2 ^ 16
    → length (clear_checksum q) < 2 ^ 16
    → well_formed p ≡ true
    → (decode_header q).checksum ≡ (decode_header p).checksum
    → ¬ SameSum (sum_words (clear_checksum p)) (sum_words (clear_checksum q))
    → well_formed q ≡ false
unfolding well_formed
well_formed_detects p q bp bq hp hq wp same differ = elim (Bool-cases (well_formed q)) [
  | inl wq ↦ absurd (
      differ ((checksum_eq_iff (clear_checksum p) (clear_checksum q) bp bq hp hq).0 (ground arith)))
  | inr e ↦ e
]

pub well_formed-size :
    (packet : Bytes)
    → well_formed packet ≡ true
    → length packet ≡ 12 + (decode_header packet).length
unfolding well_formed
well_formed-size packet h = ground arith

pub well_formed-acceptable :
    (packet : Bytes)
    → well_formed packet ≡ true
    → flag_set (decode_header packet).flags flag_syn ≡ true
    → IsAcceptable (decode_syn packet)
unfolding well_formed syn_acceptable
well_formed-acceptable packet h syn = ground arith
