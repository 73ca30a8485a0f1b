-- ===== src/Tests/Toy.antt =====
-- Concrete functions in place of the primitives, weak but with their documented behaviour.
use go_doubleratchet.Base.{
  ap, sym, ◌≡◌, length, ℕ, ◌+◌, ◌*◌, ◌%◌, [], ◌∷◌, Bytes, get_or, replicate, length-replicate,
  Result, ok, refl,
}
use go_doubleratchet.State.Skipped.{Storage}
use go_doubleratchet.State.Skipped.Laws
use native.Mathlib.Omega.{arith}
use go_doubleratchet.Primitives.{
  X25519Length, X25519Commutes, Primitives, HmacLength, HkdfReads, CbcInverts,
}

abbrev sum : Bytes → ℕ
sum [] = 0
sum (x ∷ xs) = x + sum xs

-- The first bytes are added, modulo a prime.
abbrev toy_x25519 : Bytes → Bytes → Result Bytes
toy_x25519 scalar point = ok (replicate 32 ((get_or scalar 0 0 + get_or point 0 0) % 251))

abbrev pub toy : Primitives
toy = record {
  hmac_sha256 = λ key message. replicate 32 ((sum key * 5 + sum message * 3 + 1) % 251);
  hkdf_sha256 = λ secret salt info n.
      ok (replicate n ((sum secret * 7 + sum salt * 5 + sum info * 3 + 2) % 251));
  x25519 = toy_x25519;
  basepoint = replicate 32 9;
  cbc_encrypt = λ key iv plaintext. ok plaintext;
  cbc_decrypt = λ key iv ciphertext. ok ciphertext;
}

pub toy-HmacLength : HmacLength toy
toy-HmacLength key message = refl

pub toy-HkdfReads : HkdfReads toy
toy-HkdfReads secret salt info n le = (replicate n _, refl, length-replicate n _)

pub toy-CbcInverts : CbcInverts toy
toy-CbcInverts key iv plaintext lk li whole = (plaintext, refl, refl, refl)

abbrev pub ok_value : Result Bytes → Bytes
ok_value (ok b) = b
ok_value _ = []

pub toy-X25519Length : X25519Length toy
toy-X25519Length a b c h = ap (λ r. length (ok_value r)) (sym h)

pub toy-X25519Commutes : X25519Commutes toy
toy-X25519Commutes a b a_pub b_pub pa pb =
    let ha : get_or a_pub 0 0 ≡ (get_or a 0 0 + 9) % 251 =
      ap (λ r. get_or (ok_value r) 0 0) (sym pa) in
    let hb : get_or b_pub 0 0 ≡ (get_or b 0 0 + 9) % 251 =
      ap (λ r. get_or (ok_value r) 0 0) (sym pb) in
    let e : (get_or a 0 0 + get_or b_pub 0 0) % 251 ≡ (get_or b 0 0 + get_or a_pub 0 0) % 251 =
      omega arith in
    ap (λ v. ok (replicate 32 v)) e

abbrev pub empty_storage : Storage
empty_storage = record { entries = []; order = []; max_skip = 1000 }

pub empty_storage-IsValid : Laws.IsValid empty_storage
empty_storage-IsValid = record { synced = refl; distinct = tt; bounded = omega arith }

abbrev pub alice_private : Bytes
alice_private = replicate 32 8

abbrev pub bob_private : Bytes
bob_private = replicate 32 16

abbrev pub bob_pk : Bytes
bob_pk = replicate 32 25
