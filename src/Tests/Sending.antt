-- ===== src/Tests/Sending.antt =====
-- A message that takes a turn, and skipped messages, on concrete inputs.
use native.Mathlib.Omega.{arith}
use go_doubleratchet.Base.{
  ◌+◌, ◌≡◌, refl, [], some, Bytes, Result, replicate, ok, bytes_eqb, leb, ltb, ◌&&◌, if◌then◌else◌,
}
use go_doubleratchet.Message.{Message}
use go_doubleratchet.State.Skipped.Access.{stored}
use go_doubleratchet.State.ReceiverChains.{new_receiver_chains, push, add_chain, chain_at}
use go_doubleratchet.Session.Ratchet.{message_key_32, skip_message_keys}
use go_doubleratchet.Session.Methods.{encrypt}
use go_doubleratchet.Session.Chain.{chain_key}
use go_doubleratchet.Session.Deliver.{chain}
use go_doubleratchet.Session.Skipping.{stored-skip_message_keys}
use go_doubleratchet.Suite
use go_doubleratchet.Tests.Toy.{alice_private, empty_storage-IsValid, toy}
use go_doubleratchet.Tests.Parties.{alice_pk, bob, bob_chains-IsValid, ck, hi, nothing_stored}

bob_chain : chain_at bob.recv_chains 0 ≡ chain ck 0 alice_pk
unfolding chain_at push add_chain new_receiver_chains
bob_chain = refl

stored-skip_message_keys_example :
    let after = skip_message_keys toy alice_pk 0 3 bob in
    (after.0 ≡ ok tt)
    × (chain_at after.1.recv_chains 0 ≡ chain (chain_key toy 3 ck) 3 alice_pk)
    × (stored after.1.mk_skipped alice_pk 2 ≡ (
        if bytes_eqb alice_pk alice_pk && (leb 0 2 && ltb 2 3)
        then some (message_key_32 toy (chain_key toy 2 ck))
        else stored bob.mk_skipped alice_pk 2))
stored-skip_message_keys_example =
    stored-skip_message_keys toy bob 0 0 3 2 ck alice_pk alice_pk alice_pk bob_chain (omega arith)
      bob_chains-IsValid refl refl (omega arith) (omega arith) (omega arith) empty_storage-IsValid
      (omega arith) (λ i lt. nothing_stored (0 + i))

abbrev ciphertext_of : Result Message → Bytes
ciphertext_of (ok msg) = msg.ciphertext
ciphertext_of _ = []

-- The message of the receiver, whose first one takes a turn.
abbrev reply : Message
reply = record {
  ciphertext = ciphertext_of (encrypt toy (ok alice_private) hi [] bob).0;
  header = record { ratchet_public_key = replicate 32 17; pn = 0; n = 0 };
}
