-- ===== src/Wire/Header/Codec.antt =====
-- The headers and settings that are read back from a packet are those that were put into it.
use reliable_udp.Prelude.{ℕ, ◌+◌, ◌^◌, ◌<◌, ◌≡◌, refl, [], ◌∷◌, ◌++◌, arith, length, drop}
use reliable_udp.Wire.Checksum.{Bytes, calculate_checksum}
use reliable_udp.Wire.Checksum.Fold.{checksum-lt, IsBytes}
use reliable_udp.Wire.Header.{
  Header, SynPacket, encode_header, decode_header, encode_syn, decode_syn, clear_checksum, seal,
  header_size,
}

-- The fields have the widths of the C++ structure.
pub record IsHeader (h : Header) : Type 0 where
  pub seq_num_fits : h.seq_num < 2 ^ 32
  pub length_fits : h.length < 2 ^ 16
  pub checksum_fits : h.checksum < 2 ^ 16
  pub flags_fits : h.flags < 2 ^ 8

pub record IsSyn (p : SynPacket) : Type 0 where
  pub mtu_fits : p.mtu < 2 ^ 16
  pub timeout_fits : p.timeout < 2 ^ 16
  pub max_retries_fits : p.max_retries < 2 ^ 16
  pub debug_mode_fits : p.debug_mode < 2 ^ 16

-- Whatever follows it, a header whose fields have their C++ widths is read back as it was written.
pub decode-encode_header :
    (h : Header) (body : Bytes) → IsHeader h → decode_header (encode_header h ++ body) ≡ h
unfolding decode_header encode_header
decode-encode_header h body v = ground arith

pub decode-encode_syn :
    (h : Header) (p : SynPacket) → IsSyn p → decode_syn (encode_header h ++ encode_syn p) ≡ p
unfolding decode_syn encode_header encode_syn
decode-encode_syn h p v = ground arith

pub drop-encode_header :
    (h : Header) (body : Bytes) → drop header_size (encode_header h ++ body) ≡ body
unfolding encode_header
drop-encode_header h body = refl

pub length-encode_header :
    (h : Header) (body : Bytes) → length (encode_header h ++ body) ≡ header_size + length body
unfolding encode_header
length-encode_header h body = omega arith

pub clear-encode_header :
    (h : Header) (body : Bytes)
    → h.checksum ≡ 0
    → (c : ℕ)
    → clear_checksum (encode_header (record h { checksum = c }) ++ body) ≡ encode_header h ++ body
unfolding clear_checksum encode_header
clear-encode_header h body z c = rw z refl

pub IsBytes-append : (xs ys : Bytes) → IsBytes xs → IsBytes ys → IsBytes (xs ++ ys)
IsBytes-append [] ys h k = k
IsBytes-append (x ∷ xs) ys h k = (h.0, IsBytes-append xs ys h.1 k)

pub encode_header-IsBytes : (h : Header) → IsBytes (encode_header h)
unfolding encode_header
encode_header-IsBytes h = omega arith

module _ (h : Header) (body : Bytes) where
  pub decode-seal :
      IsHeader h
      → decode_header (seal h body)
        ≡ record h { checksum = calculate_checksum (encode_header h ++ body) }
  unfolding seal
  decode-seal v = decode-encode_header _ body (record {
    seq_num_fits = v.seq_num_fits;
    length_fits = v.length_fits;
    checksum_fits = checksum-lt _;
    flags_fits = v.flags_fits;
  })

  pub length-seal : length (seal h body) ≡ header_size + length body
  unfolding seal encode_header
  length-seal = omega arith

  pub drop-seal : drop header_size (seal h body) ≡ body
  unfolding seal encode_header
  drop-seal = refl

  pub clear-seal : h.checksum ≡ 0 → clear_checksum (seal h body) ≡ encode_header h ++ body
  unfolding seal
  clear-seal z = clear-encode_header h body z _

pub decode_syn-seal :
    (h : Header) (p : SynPacket) → IsSyn p → decode_syn (seal h (encode_syn p)) ≡ p
unfolding seal
decode_syn-seal h p v = decode-encode_syn _ p v

pub length-encode_syn : (p : SynPacket) → length (encode_syn p) ≡ 8
unfolding encode_syn
length-encode_syn p = refl
