-- ===== src/SessionHe/Sending.antt =====
-- The sending side and the constructors keep or establish the invariant of a session with header
-- encryption.
use go_doubleratchet.Base.{◌≤◌, ◌≡◌, Option, some, Bytes, Result, ok, arith}
use go_doubleratchet.Primitives.{Primitives}
use go_doubleratchet.Config.{Config, effective_max_skip}
use go_doubleratchet.Crypto.{KeyPair}
use go_doubleratchet.Crypto.HeaderEncrypt.{HeaderKey, max_uint64}
use go_doubleratchet.State.Skipped.Laws
use go_doubleratchet.State.ReceiverChains.Window
use go_doubleratchet.Session.{config_or_default}
use go_doubleratchet.SessionHe.{HeSession, fresh, init_initiator_he, init_responder_he}
use go_doubleratchet.SessionHe.WellFormed.{IsValidHe}

module _ (p : Primitives) where
  -- What a call of EncryptHeader does to the counter of its key.
  record Counts (hk : HeaderKey) (r : Result Bytes × HeaderKey) : Type 0 where
    pub fits : r.1.nonce_counter ≤ max_uint64
    pub same_key : r.1.key ≡ hk.key

  -- What InitInitiatorHE returns satisfies the invariant.
  pub init_initiator_he-IsValidHe :
      (entropy : Result Bytes) (secret pk shared_hka shared_nhkb : Bytes) (cfg : Option Config)
      {s : HeSession}
      → init_initiator_he p entropy secret pk shared_hka shared_nhkb cfg ≡ ok s
      → IsValidHe s
  unfolding init_initiator_he fresh
  init_initiator_he-IsValidHe entropy secret pk shared_hka shared_nhkb cfg {s} h =
      let c = config_or_default cfg in
      ground (
        arith,
        Laws.new_storage-IsValid (effective_max_skip (some c)) {s = s.dr.mk_skipped},
        Window.new_receiver_chains-IsValid,
      )

-- What InitResponderHE returns satisfies the invariant.
pub init_responder_he-IsValidHe :
    (secret : Bytes) (pair : KeyPair) (shared_hka shared_nhkb : Bytes) (cfg : Option Config)
    {s : HeSession}
    → init_responder_he secret pair shared_hka shared_nhkb cfg ≡ ok s
    → IsValidHe s
unfolding init_responder_he fresh
init_responder_he-IsValidHe secret pair shared_hka shared_nhkb cfg {s} h =
    let c = config_or_default cfg in
    ground (
      arith,
      Laws.new_storage-IsValid (effective_max_skip (some c)) {s = s.dr.mk_skipped},
      Window.new_receiver_chains-IsValid,
    )
