-- ===== src/Message.antt =====
-- message.go, with encodeHeader of session.go, decodeHeader of session_he.go, encodeSCKAHeader of
-- session_spqr.go and encodeTRHeader of session_tr.go: the headers and their byte forms.
pub mod RoundTrip
use go_doubleratchet.Base.{
  ℕ, ◌+◌, ◌<◌, ◌≡◌, List, [], ◌∷◌, ◌++◌, Option, none, some, Bytes, length, take, drop, Result, ok,
  err, bind, invalid_input, nil_scka_header, ltb, if◌then◌else◌,
}
use go_doubleratchet.Base.Words.{put_uint32, uint32, u32_mod}

pub record Header : Type 0 where
  pub ratchet_public_key : Bytes
  pub pn : ℕ
  pub n : ℕ

pub record Message : Type 0 where
  pub ciphertext : Bytes
  pub header : Header

pub record SckaHeader : Type 0 where
  pub msg : Bytes
  pub n : ℕ

pub record TripleRatchetHeader : Type 0 where
  pub scka : Option SckaHeader
  pub ec : Header

pub record TripleRatchetMessage : Type 0 where
  pub ciphertext : Bytes
  pub header : TripleRatchetHeader

-- The key has 32 bytes, and both numbers are uint32.
pub record IsHeader (h : Header) : Type 0 where
  pub key_length : length h.ratchet_public_key ≡ 32
  pub pn_fits : h.pn < u32_mod
  pub n_fits : h.n < u32_mod

unfoldable pub encode_header : Header → Bytes
encode_header h = h.ratchet_public_key ++ (put_uint32 h.pn ++ put_uint32 h.n)

unfoldable pub decode_header : Bytes → Result Header
decode_header data_ =
    if ltb (length data_) 40
    then err invalid_input
    else ok (record {
      ratchet_public_key = take 32 data_;
      pn = uint32 (drop 32 data_);
      n = uint32 (drop 36 data_);
    })

-- The length is written as `uint32(msgLen)`, which put_uint32 cuts to its low 32 bits.
unfoldable pub encode_scka_header : Option SckaHeader → Result Bytes
encode_scka_header none = err nil_scka_header
encode_scka_header (some h) = ok (put_uint32 (length h.msg) ++ (h.msg ++ put_uint32 h.n))

unfoldable pub encode_tr_header : TripleRatchetHeader → Result Bytes
unfolding encode_header encode_scka_header
encode_tr_header h =
    let ec_bytes = encode_header h.ec in
    bind (encode_scka_header h.scka) λ scka_bytes. ok (ec_bytes ++ scka_bytes)
