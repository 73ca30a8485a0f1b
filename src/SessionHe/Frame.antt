-- ===== src/SessionHe/Frame.antt =====
-- Properties of the base session that the receiving steps with header keys keep: those that the
-- receiving steps of the base session keep, and that do not speak of the sending chain key.
use go_doubleratchet.Base.{
  ℕ, Bool, true, Option, none, some, Bytes, ok, Method, Preserves, bind-Preserves, if-Preserves,
  continue-Preserves, not, if◌then◌else◌,
}
use go_doubleratchet.Crypto.HeaderEncrypt.{HeaderKey}
use go_doubleratchet.Primitives.{Primitives}
use go_doubleratchet.Config.{effective_hekdf_info}
use go_doubleratchet.Crypto.{shared_secret, verify_public_key}
use go_doubleratchet.Kdf.{derive_root_key_he}
use go_doubleratchet.Message.{Header}
use go_doubleratchet.State.ReceiverChains.{find, push}
use go_doubleratchet.Session.{Session}
use go_doubleratchet.Session.Ratchet.{previous, current_chain, store_previous, skip_message_keys}
use go_doubleratchet.Session.Methods.{check_max_skip}
use go_doubleratchet.Session.Frame as BaseFrame
use go_doubleratchet.SessionHe.{HeSession, on_dr, fresh}
use go_doubleratchet.SessionHe.Ratchet.{
  skip_on_chain_he, skip_message_keys_he, enter_epoch_he, perform_dh_ratchet_recv_he,
}

-- The sessions that differ from one in the base session.
abbrev At : (HeSession → Type 0) → HeSession → Session → Type 0
At P s dr = P (record s { dr = dr })

-- A property that survives each kind of write of the receiving side.
pub record IsReceivingHe (P : HeSession → Type 0) : Type 0 where
  pub in_dr : (s : HeSession) → BaseFrame.IsReceiving (At P s)
  pub no_cks : (s : HeSession) → P s → P (record s { dr = record s.dr { cks = none } })
  pub to_hkr : (s : HeSession) (hkr : HeaderKey) → P s → P (record s { hkr = hkr })
  pub to_nhkr : (s : HeSession) (nhkr : HeaderKey) → P s → P (record s { nhkr = nhkr })

-- A method of the base session that keeps its receiving properties keeps those of the session.
pub on_dr-Preserves :
    {A : Type 0} (P : HeSession → Type 0) (r : IsReceivingHe P) (m : Method Session A)
    → ((Q : Session → Type 0) → BaseFrame.IsReceiving Q → Preserves Q m)
    → Preserves P (on_dr m)
on_dr-Preserves P r m h s k = h (At P s) (r.in_dr s) s.dr k

module _ (p : Primitives) (P : HeSession → Type 0) (r : IsReceivingHe P) where
  skip_on_chain_he-Preserves : (until : ℕ) (o : Option ℕ) → Preserves P (skip_on_chain_he p until o)
  unfolding skip_on_chain_he
  skip_on_chain_he-Preserves until none s k = k
  skip_on_chain_he-Preserves until (some idx) s k =
      bind-Preserves P (on_dr (check_max_skip idx until)) _
        (on_dr-Preserves P r (check_max_skip idx until)
          (λ Q q. BaseFrame.check_max_skip-Preserves p Q q idx until))
        (λ _ s.
          on_dr-Preserves P r (skip_message_keys p s.hkr.key idx until)
            (λ Q q. BaseFrame.skip_message_keys-Preserves p Q q s.hkr.key idx until) s)
        s k

  pub skip_message_keys_he-Preserves : (until : ℕ) → Preserves P (skip_message_keys_he p until)
  unfolding skip_message_keys_he
  skip_message_keys_he-Preserves until s k =
      skip_on_chain_he-Preserves until (find s.dr.recv_chains s.dr.dhr) s k

  enter_epoch_he-Preserves :
      (prev_hkr : Bytes) (prev : Option Bytes × ℕ) (h : Header) (keys : Bytes × Bytes × Bytes)
      → Preserves P (enter_epoch_he p prev_hkr prev h keys)
  unfolding enter_epoch_he
  enter_epoch_he-Preserves prev_hkr (prev_ckr, prev_nr) h (new_rk, ckr, nhkr) s k =
      bind-Preserves P (on_dr (store_previous p prev_hkr prev_ckr prev_nr h.pn))
        (λ _ s. (ok tt, adopted s))
        (on_dr-Preserves P r (store_previous p prev_hkr prev_ckr prev_nr h.pn)
          (λ Q q. BaseFrame.store_previous-Preserves p Q q prev_hkr prev_ckr prev_nr h.pn))
        (λ _ s k. r.no_cks _ ((r.in_dr s).to_push s.dr h.ratchet_public_key ckr k))
        (record s { dr = record s.dr { rk = new_rk }; nhkr = fresh nhkr })
        (r.to_nhkr _ (fresh nhkr) ((r.in_dr s).to_rk s.dr new_rk k))
    where
      adopted : HeSession → HeSession
      adopted s = record s {
        dr = record s.dr {
          recv_chains = push s.dr.recv_chains h.ratchet_public_key (some ckr);
          dhr = h.ratchet_public_key;
          dh_r_set = true;
          cks = none;
          dh_ratchet_performed = true;
        };
      }

  pub perform_dh_ratchet_recv_he-Preserves :
      (h : Header) (promote : Bool) → Preserves P (perform_dh_ratchet_recv_he p h promote)
  unfolding perform_dh_ratchet_recv_he
  perform_dh_ratchet_recv_he-Preserves h promote s =
      if-Preserves P (not (verify_public_key h.ratchet_public_key)) _ _ (λ _ k. k)
        (λ s k.
          continue-Preserves P (shared_secret p s.dr.dhs h.ratchet_public_key) _ _
            (λ dh_out s1 k1.
              continue-Preserves P
                (derive_root_key_he p s.dr.rk dh_out (effective_hekdf_info s.dr.config)) s1 _
                (λ keys. enter_epoch_he-Preserves s.hkr.key (previous (current_chain s.dr)) h keys)
                k1)
            (r.to_hkr s (if promote then s.nhkr else s.hkr) k))
        s
