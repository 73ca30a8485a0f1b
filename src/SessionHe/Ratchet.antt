-- ===== src/SessionHe/Ratchet.antt =====
-- session_he.go: the ratchet steps with header keys, and the decryption of a header.
use go_doubleratchet.Base.{
  ℕ, Bool, true, false, Option, none, some, Bytes, Result, ok, err, bind, Method, pure, fail, lift,
  get, modify, ◌>>=◌, ◌>>◌, invalid_input, session_not_initialized, auth_failure, not,
  if◌then◌else◌,
}
use go_doubleratchet.Primitives.{Primitives}
use go_doubleratchet.Config.{effective_hekdf_info}
use go_doubleratchet.Crypto.{generate_key_pair, shared_secret, verify_public_key}
use go_doubleratchet.Crypto.HeaderEncrypt.{decrypt_header}
use go_doubleratchet.Kdf.{derive_root_key_he}
use go_doubleratchet.Message.{Header, decode_header}
use go_doubleratchet.State.ReceiverChains.{push, find}
use go_doubleratchet.Session.Ratchet.{previous, current_chain, store_previous, skip_message_keys}
use go_doubleratchet.Session.Methods.{check_max_skip}
use go_doubleratchet.SessionHe.{HeSession, fresh, on_dr}

module _ (p : Primitives) where
  -- `skipMessageKeysHE` on the chain with this index
  unfoldable pub skip_on_chain_he : ℕ → Option ℕ → Method HeSession (Unit {0})
  skip_on_chain_he until none = pure tt
  skip_on_chain_he until (some idx) = do
    on_dr (check_max_skip idx until)
    s ← get
    on_dr (skip_message_keys p s.hkr.key idx until)

  unfoldable pub skip_message_keys_he : ℕ → Method HeSession (Unit {0})
  skip_message_keys_he until s = skip_on_chain_he until (find s.dr.recv_chains s.dr.dhr) s

  -- The decoded header, and whether it was found with the next header key.
  unfoldable pub decode_found : Bool → Bytes → Result (Header × Bool)
  decode_found with_next pt = bind (decode_header pt) λ header. ok (header, with_next)

  unfoldable pub or_next_key : HeSession → Bytes → Option Bytes → Result (Header × Bool)
  or_next_key s enc_header (some pt) = decode_found false pt
  or_next_key s enc_header none =
      bind (decrypt_header p s.nhkr.key enc_header)
        λ found. elim found [ some pt ↦ decode_found true pt | none ↦ err auth_failure ]

  -- `HESession.decryptHeader`
  unfoldable pub decrypt_header_he : HeSession → Bytes → Result (Header × Bool)
  decrypt_header_he s enc_header =
      bind (decrypt_header p s.hkr.key enc_header) (or_next_key s enc_header)

  -- performDHRatchetRecvHE behind its derivations. The first argument is the receiving header key of
  -- the epoch that ends, the second the copy of its chain key with its counter.
  unfoldable pub enter_epoch_he :
      Bytes → Option Bytes × ℕ → Header → Bytes × Bytes × Bytes → Method HeSession (Unit {0})
  enter_epoch_he prev_hkr (prev_ckr, prev_nr) header (new_rk, ckr, nhkr) = do
    modify (λ s. record s { dr = record s.dr { rk = new_rk }; nhkr = fresh nhkr })
    on_dr (store_previous p prev_hkr prev_ckr prev_nr header.pn)
    modify (λ s. record s {
      dr = record s.dr {
        recv_chains = push s.dr.recv_chains header.ratchet_public_key (some ckr);
        dhr = header.ratchet_public_key;
        dh_r_set = true;
        cks = none;
        dh_ratchet_performed = true;
      };
    })

  unfoldable pub perform_dh_ratchet_recv_he : Header → Bool → Method HeSession (Unit {0})
  perform_dh_ratchet_recv_he header promote_next_header_key =
      if not (verify_public_key header.ratchet_public_key) then fail invalid_input else do
        before ← get
        modify (λ s. record s { hkr = if promote_next_header_key then s.nhkr else s.hkr })
        dh_out ← lift (shared_secret p before.dr.dhs header.ratchet_public_key)
        keys ←
            lift (derive_root_key_he p before.dr.rk dh_out (effective_hekdf_info before.dr.config))
        enter_epoch_he before.hkr.key (previous (current_chain before.dr)) header keys

  -- performDHRatchetSendHE behind its guard
  unfoldable pub turn_he : Result Bytes → Method HeSession (Unit {0})
  turn_he entropy = do
    modify (λ s. record s { dr = record s.dr { pn = s.dr.ns; ns = 0 }; hks = s.nhks })
    (new_priv, _) ← lift (generate_key_pair p entropy)
    s ← get
    dh_out ← lift (shared_secret p new_priv s.dr.dhr)
    (new_rk, cks, nhks) ←
        lift (derive_root_key_he p s.dr.rk dh_out (effective_hekdf_info s.dr.config))
    modify (λ s. record s {
      dr = record s.dr {
        rk = new_rk;
        cks = some cks;
        dhs = new_priv;
        dh_ratchet_performed = false;
      };
      nhks = fresh nhks;
    })

  unfoldable pub perform_dh_ratchet_send_he : Result Bytes → Method HeSession (Unit {0})
  perform_dh_ratchet_send_he entropy = do
    s ← get
    if not s.dr.dh_r_set then fail session_not_initialized else turn_he entropy
