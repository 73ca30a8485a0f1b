-- ===== src/SessionSpqr/KeyAgreement.antt =====
-- The receiver derives the message key of the sender.
use go_doubleratchet.Base.{
  ℕ, ◌-◌, ◌≡◌, refl, sym, ap, ◌∙◌, false, [], Option, none, some, Bytes, ok, bind-eq-ok,
  continue-eq-ok, ltb, arith, nat_eq, eqb_refl, ok-injective,
}
use go_doubleratchet.Base.GoMap
use go_doubleratchet.Primitives.{Primitives}
use go_doubleratchet.Message.{SckaHeader}
use go_doubleratchet.Scka.{Provider}
use go_doubleratchet.State.Epoch.{KdfChain}
use go_doubleratchet.SessionSpqr.{SpqrSession, send_chain, receive_chain, set_send, set_receive}
use go_doubleratchet.SessionSpqr.Methods.{
  adopt_key, drop_send_chain, step_chain, send_on_epoch, send_key, take_key,
  try_skipped_message_keys, skip_loop_spqr, skip_on_epoch, skip_message_keys_spqr, receive_on_epoch,
  receive_with_spqr, receive_key,
}
use go_doubleratchet.SessionSpqr.Chains.{
  held, drop_send_chain-FollowsAll, step-FollowsAll, same-FollowsAll, receive_chain-same,
}
use go_doubleratchet.SessionSpqr.Adopt.{Paired, adopt_key-Paired}

module _ {P : Type 0} (p : Primitives) where
  -- A successful step on the sending chain of an epoch.
  send_on_epoch-ok :
      (e : ℕ) (o : Option KdfChain) (s : SpqrSession P) (sent : ℕ × Bytes)
      → (send_on_epoch p e o s).0 ≡ ok sent
      → (c : KdfChain) × (o ≡ some c)
        × ((step_chain p c).0 ≡ ok sent.1)
        × (sent.0 ≡ c.n)
        × ((send_on_epoch p e o s).1
            ≡ record s { kdf_chains = set_send e (some (step_chain p c).1) s.kdf_chains })
  unfolding send_on_epoch
  send_on_epoch-ok e none s sent h = absurd (ground (arith, h))
  send_on_epoch-ok e (some c) s sent h =
      let (mk, made, h1) = bind-eq-ok (step_chain p c).0 _ h in
      let same : (c.n, mk) ≡ sent = ok-injective (c.n, mk) sent h1 in
      (c, refl, made ∙ ap (λ x. ok x.1) same, sym (ap (λ (x : ℕ × Bytes). x.0) same), refl)

  module _ {S : Type 0} (scka : Provider P S) where
    send_key-ok :
        (a : SpqrSession P) (msg : Bytes) (e : ℕ) (key : Option Bytes) (key_epoch : ℕ)
        (sent : Bytes × ℕ × Bytes)
        → (scka.send a.scka).0 ≡ ok (msg, e, key, key_epoch)
        → (send_key p scka a).0 ≡ ok sent
        → let adopting = adopt_key p e key key_epoch (record a { scka = (scka.send a.scka).1 }) in
          let chains = drop_send_chain e adopting.1.kdf_chains in
          (adopting.0 ≡ ok tt)
          × (c : KdfChain) × (send_chain e chains ≡ some c)
          × ((step_chain p c).0 ≡ ok sent.2)
          × (sent.0 ≡ msg)
          × (sent.1 ≡ c.n)
          × ((send_key p scka a).1
              ≡ record adopting.1 { kdf_chains = set_send e (some (step_chain p c).1) chains })
    unfolding send_key
    send_key-ok a msg e key key_epoch sent given h =
        let adopting = adopt_key p e key key_epoch (record a { scka = (scka.send a.scka).1 }) in
        let chains = drop_send_chain e adopting.1.kdf_chains in
        let (u, passed, h1, e1) =
          continue-eq-ok {B = Bytes × ℕ × Bytes} adopting.0 adopting.1 _ (simp given at h) in
        let at_epoch =
          send_on_epoch p e (send_chain e chains) (record adopting.1 { kdf_chains = chains }) in
        let (numbered, done, h2, e2) =
          continue-eq-ok {B = Bytes × ℕ × Bytes} at_epoch.0 at_epoch.1 _ h1 in
        let (c, found, made, number, left) =
          send_on_epoch-ok e (send_chain e chains) (record adopting.1 { kdf_chains = chains })
            numbered done in
        let same : (msg, numbered.0, numbered.1) ≡ sent = ok-injective _ sent h2 in
        (
          passed,
          c,
          found,
          made ∙ ap (λ (x : Bytes × ℕ × Bytes). ok x.2) same,
          sym (ap (λ (x : Bytes × ℕ × Bytes). x.0) same),
          sym (ap (λ (x : Bytes × ℕ × Bytes). x.1) same) ∙ number,
          simp given (ap (λ r. r.1) (e1 ∙ e2) ∙ left),
        )

    receive_on_epoch-ok :
        (e n : ℕ) (c : KdfChain) (s : SpqrSession P) (mk : Bytes)
        → c.n ≡ n
        → (step_chain p c).0 ≡ ok mk
        → receive_on_epoch p e n (some c) s
          ≡ (ok mk, record s { kdf_chains = set_receive e (some (step_chain p c).1) s.kdf_chains })
    unfolding receive_on_epoch
    receive_on_epoch-ok e n c s mk same made = simp (same, made, eqb_refl n)

    -- Nothing is skipped up to the next message of a chain.
    skip_on_epoch-nothing :
        (e n : ℕ) (c : KdfChain) (s : SpqrSession P)
        → c.n ≡ n
        → skip_on_epoch p e n (some c) s
          ≡ (ok tt, record s { kdf_chains = set_receive e (some c) s.kdf_chains })
    unfolding skip_on_epoch skip_loop_spqr
    skip_on_epoch-nothing e n c s same =
        let rounds : n - c.n ≡ 0 = omega arith in
        let below : ltb c.n n ≡ false = ground arith in simp (rounds, below)

    try_skipped-nothing :
        (e n : ℕ) (s : SpqrSession P)
        → s.mk_skipped ≡ []
        → try_skipped_message_keys e n s ≡ (ok none, s)
    unfolding try_skipped_message_keys take_key GoMap.lookup
    try_skipped-nothing e n s h =
        let taken : take_key e n s.mk_skipped ≡ (none, s.mk_skipped) = rw h refl in simp taken

    receive_with_spqr-next :
        (e n : ℕ) (c : KdfChain) (mk : Bytes) (s : SpqrSession P)
        → receive_chain e s.kdf_chains ≡ some c
        → c.n ≡ n
        → (step_chain p c).0 ≡ ok mk
        → receive_with_spqr p scka e n none s ≡ (
          ok mk,
          record s {
            kdf_chains =
                set_receive e (some (step_chain p c).1) (set_receive e (some c) s.kdf_chains);
          },
        )
    unfolding receive_with_spqr skip_message_keys_spqr
    receive_with_spqr-next e n c mk s found number made =
        let written = set_receive e (some c) s.kdf_chains in
        let found' : receive_chain e written ≡ some c = receive_chain-same e c s.kdf_chains found in
        simp found (
          simp (skip_on_epoch-nothing e n c s number, found')
            (receive_on_epoch-ok e n c (record s { kdf_chains = written }) mk number made))

    receive_key-ok :
        (b : SpqrSession P) (header : SckaHeader) (e : ℕ) (key : Option Bytes) (key_epoch : ℕ)
        (c : KdfChain) (mk : Bytes)
        → let adopting =
            adopt_key p e key key_epoch (record b { scka = (scka.receive header.msg b.scka).1 }) in
          (scka.receive header.msg b.scka).0 ≡ ok (e, key, key_epoch)
          → adopting.0 ≡ ok tt
          → adopting.1.mk_skipped ≡ []
          → receive_chain e adopting.1.kdf_chains ≡ some c
          → header.n ≡ c.n
          → (step_chain p c).0 ≡ ok mk
          → receive_key p scka header b ≡ (
            ok (e, mk),
            record adopting.1 {
              kdf_chains =
                  set_receive e
                    (some (step_chain p c).1)
                    (set_receive e (some c) adopting.1.kdf_chains);
            },
          )
    unfolding receive_key
    receive_key-ok b header e key key_epoch c mk given passed nothing found number made =
        let s1 =
          (adopt_key p e key key_epoch
            (record b { scka = (scka.receive header.msg b.scka).1 })).1 in
        simp (given, passed)
          (simp (
            try_skipped-nothing e header.n s1 nothing,
            receive_with_spqr-next e header.n c mk s1 found (sym number) made,
          ))

    -- If the receiver has got all that the sender has sent, and its provider reports for the message
    -- of the sender's provider the epoch and the output key that it was sent with, then receiveKey
    -- derives the message key that sendKey derived, also when the message starts a new epoch, and the
    -- receiver has again got all that was sent.
    pub receive_key-send_key :
        (a b : SpqrSession P) (keyed : Bytes × ℕ × Bytes) (msg : Bytes) (e : ℕ) (key : Option Bytes)
        (key_epoch : ℕ)
        → Paired a b
        → (scka.send a.scka).0 ≡ ok (msg, e, key, key_epoch)
        → (scka.receive msg b.scka).0 ≡ ok (e, key, key_epoch)
        → (send_key p scka a).0 ≡ ok keyed
        → let header : SckaHeader = record { msg = keyed.0; n = keyed.1 } in
          ((receive_key p scka header b).0 ≡ ok (e, keyed.2))
          × Paired (send_key p scka a).1 (receive_key p scka header b).1
    receive_key-send_key a b keyed msg e key key_epoch y given received h =
        let header : SckaHeader = record { msg = keyed.0; n = keyed.1 } in
        let (passed, c, found, made, msg_same, number, left) =
          send_key-ok a msg e key key_epoch keyed given h in
        let a1 : SpqrSession P = record a { scka = (scka.send a.scka).1 } in
        let b1 : SpqrSession P = record b { scka = (scka.receive keyed.0 b.scka).1 } in
        let y1 : Paired a1 b1 = record {
          root = y.root;
          epochs = y.epochs;
          directions = y.directions;
          chains = y.chains;
          nothing = y.nothing;
        } in
        let (passed_b, y2) = adopt_key-Paired p e key key_epoch a1 b1 tt y1 passed in
        let a2 = (adopt_key p e key key_epoch a1).1 in
        let b2 = (adopt_key p e key key_epoch b1).1 in
        let dropped = drop_send_chain-FollowsAll e a2.kdf_chains b2.kdf_chains y2.chains in
        let chains = drop_send_chain e a2.kdf_chains in
        let found_b : receive_chain e b2.kdf_chains ≡ some c =
          held chains b2.kdf_chains e c dropped found in
        let after =
          receive_key-ok b header e key key_epoch c keyed.2 (rw msg_same received) passed_b
            y2.nothing found_b number made in
        (
          ap (λ r. r.0) after,
          rw (left, after)
              (record {
                root = y2.root;
                epochs = y2.epochs;
                directions = y2.directions;
                chains =
                    step-FollowsAll e c (step_chain p c).1 chains
                      (set_receive e (some c) b2.kdf_chains) found
                      (same-FollowsAll e c chains b2.kdf_chains found_b dropped);
                nothing = y2.nothing;
              }),
        )
