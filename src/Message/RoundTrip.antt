-- ===== src/Message/RoundTrip.antt =====
-- Headers can be read back from their byte forms.
use go_doubleratchet.Base.{
  ◌+◌, ◌≡◌, ◌++◌, Bytes, length, take, drop, ok, arith, length-append, take-append, drop-append,
  append_assoc,
}
use go_doubleratchet.Base.Words.{put_uint32, length-put_uint32, uint32-put_uint32}
use go_doubleratchet.Message.{Header, IsHeader, encode_header, decode_header}

pub length-encode_header : (h : Header) → IsHeader h → length (encode_header h) ≡ 40
unfolding encode_header
length-encode_header h v = omega (
  arith,
  length-append h.ratchet_public_key (put_uint32 h.pn ++ put_uint32 h.n),
  length-append (put_uint32 h.pn) (put_uint32 h.n),
  length-put_uint32 h.pn,
  length-put_uint32 h.n,
)

encode_header-append :
    (h : Header) (rest : Bytes)
    → encode_header h ++ rest
      ≡ h.ratchet_public_key ++ (put_uint32 h.pn ++ (put_uint32 h.n ++ rest))
unfolding encode_header
encode_header-append h rest = simp append_assoc

-- Decoding gives back the header that was encoded, whatever stands behind its 40 bytes, if its key has
-- 32 bytes and its numbers are uint32.
pub decode_header-encode_header :
    (h : Header) (rest : Bytes) → IsHeader h → decode_header (encode_header h ++ rest) ≡ ok h
unfolding decode_header
decode_header-encode_header h rest v =
    let pk = h.ratchet_public_key in
    let a = put_uint32 h.pn in
    let b = put_uint32 h.n in
    let all : encode_header h ++ rest ≡ pk ++ (a ++ (b ++ rest)) = encode_header-append h rest in
    let l : length (encode_header h ++ rest) ≡ 40 + length rest =
      omega (arith, length-append (encode_header h) rest, length-encode_header h v) in
    let key : take 32 (encode_header h ++ rest) ≡ pk =
      rw all (take-append 32 pk (a ++ (b ++ rest)) v.key_length) in
    let at_pn : drop 32 (encode_header h ++ rest) ≡ a ++ (b ++ rest) =
      rw all (drop-append 32 pk (a ++ (b ++ rest)) v.key_length) in
    let at_n : drop 36 (encode_header h ++ rest) ≡ b ++ rest =
      rw (all, ← append_assoc pk a (b ++ rest))
        (drop-append 36 (pk ++ a) (b ++ rest)
          (omega (arith, length-append pk a, length-put_uint32 h.pn, v.key_length))) in
    rw
      (
        key,
        at_pn,
        at_n,
        uint32-put_uint32 h.pn (b ++ rest) v.pn_fits,
        uint32-put_uint32 h.n rest v.n_fits,
        l,
      )
      (ground arith)
