-- ===== src/SessionHe/Deliver.antt =====
-- What DecryptHE computes for a message of the current chain: its steps, one after the other.
use native.Mathlib.Nat.{mod-eq_of_lt}
use go_doubleratchet.Base.{
  ℕ, ◌+◌, ◌≤◌, ◌<◌, ◌≡◌, refl, ap, ◌∙◌, true, false, none, some, [], ◌∷◌, List, Bytes, append-nil,
  ok, arith, bytes_eqb_refl, inl, Method, or_error, auth_failure, then-ok, or_undo-ok,
}
use go_doubleratchet.Base.Words.{u32_mod, u32_succ}
use go_doubleratchet.Base.GoMap.{Mem, IsRange}
use go_doubleratchet.Primitives.{Primitives}
use go_doubleratchet.Config.{effective_max_skip, effective_encrypt_info}
use go_doubleratchet.Crypto.HeaderEncrypt.{decrypt_header}
use go_doubleratchet.Kdf.{derive_message_key}
use go_doubleratchet.Message.{Header, IsHeader, encode_header, decode_header}
use go_doubleratchet.Message.RoundTrip.{decode_header-encode_header}
use go_doubleratchet.State.Skipped.{
  SkippedKeyEntry, try_entries, consume_entry, try_all_header_keys,
}
use go_doubleratchet.State.ReceiverChains.{find, chain_at, set_chain, receiver_chains_max}
use go_doubleratchet.State.ReceiverChains.Window
use go_doubleratchet.State.ReceiverChains.Window.{
  set_chain-IsValid, chain_at-set_chain, set_chain-set_chain, find_bounds, find-set_chain,
}
use go_doubleratchet.Suite
use go_doubleratchet.Session.{Session, build_ad}
use go_doubleratchet.Session.Ratchet.{derive_recv_message_key, next_chain_key, store_range}
use go_doubleratchet.Session.Methods.{check_max_skip}
use go_doubleratchet.Session.Chain.{chain_key, message_key}
use go_doubleratchet.Session.Deliver.{
  chain, check_max_skip_lem, skip_message_keys_lem, derive_recv_message_key_lem,
  advance_counter_lem,
}
use go_doubleratchet.SessionHe.{HeSession, on_dr}
use go_doubleratchet.SessionHe.Ratchet.{
  skip_on_chain_he, skip_message_keys_he, decode_found, or_next_key, decrypt_header_he,
}
use go_doubleratchet.SessionHe.Methods.{
  rollback_all, Visit, try_skipped_message_keys_he, open_message_he, is_new_remote_pk,
  follow_header, decrypt_on_chain_he, decrypt_with_he, decrypt_he,
}
use go_doubleratchet.SessionHe.Atomic.{recorded_he}

visit-nil : (visit : Visit) → IsRange visit → visit [] ≡ []
visit-nil visit range = empty (visit []) (λ x. (range [] x).0)
  where
    empty :
        (xs : List (Bytes × SkippedKeyEntry))
        → ((x : Bytes × SkippedKeyEntry) → Mem x xs → Mem x [])
        → xs ≡ []
    empty [] h = refl
    empty (x ∷ xs) h = absurd (h x (inl refl))

module _ (p : Primitives) where
  -- In an empty store no key is found.
  try_skipped-nothing :
      (visit : Visit) (enc : Bytes) (s : HeSession)
      → IsRange visit
      → s.dr.mk_skipped.entries ≡ []
      → try_skipped_message_keys_he p visit enc s ≡ (ok none, s)
  unfolding try_skipped_message_keys_he try_all_header_keys try_entries consume_entry
  try_skipped-nothing visit enc s range nothing =
      let found : visit s.dr.mk_skipped.entries ≡ [] = ap visit nothing ∙ visit-nil visit range in
      simp found

  on_dr-ok :
      {A : Type 0} (m : Method Session A) (s : HeSession) (dr : Session) (a : A)
      → m s.dr ≡ (ok a, dr)
      → on_dr m s ≡ (ok a, record s { dr = dr })
  on_dr-ok m s dr a h = ap (λ r. (r.0, record s { dr = r.1 })) h

  skip_message_keys_he_lem :
      (s : HeSession) (idx nr gap n : ℕ) (ck rpk : Bytes)
      → find s.dr.recv_chains s.dr.dhr ≡ some idx
      → chain_at s.dr.recv_chains idx ≡ chain ck nr rpk
      → n ≡ nr + gap
      → gap ≤ effective_max_skip (some s.dr.config)
      → skip_message_keys_he p n s ≡ (
        ok tt,
        record s {
          dr = record s.dr {
            recv_chains = set_chain s.dr.recv_chains idx (chain (chain_key p gap ck) n rpk);
            mk_skipped = store_range p s.hkr.key gap ck nr s.dr.mk_skipped;
          };
        },
      )
  unfolding skip_message_keys_he skip_on_chain_he
  skip_message_keys_he_lem s idx nr gap n ck rpk held c e le = simp held (
      simp (
        check_max_skip_lem p s.dr idx nr gap n ck rpk c e le,
        skip_message_keys_lem p s.dr idx nr gap n ck s.hkr.key rpk c e,
      ))

  -- The session behind the delivery of message `nr + gap` of a chain that stands at `nr`.
  abbrev pub after_delivery_he : HeSession → Bytes → ℕ → ℕ → ℕ → Bytes → HeSession
  after_delivery_he s rpk idx nr gap ck = record s {
    dr = record s.dr {
      recv_chains =
          set_chain s.dr.recv_chains idx
            (chain (next_chain_key p (chain_key p gap ck)) (nr + gap + 1) rpk);
      mk_skipped = store_range p s.hkr.key gap ck nr s.dr.mk_skipped;
    };
  }

  -- The steps of DecryptHE on a chain, one after the other.
  decrypt_on_chain_he_lem :
      (before s : HeSession) (header : Header) (enc ct ad : Bytes) (idx nr gap : ℕ)
      (ck rpk pt : Bytes)
      → find s.dr.recv_chains s.dr.dhr ≡ some idx
      → chain_at s.dr.recv_chains idx ≡ chain ck nr rpk
      → idx < receiver_chains_max
      → Window.IsValid s.dr.recv_chains
      → header.n ≡ nr + gap
      → gap ≤ effective_max_skip (some s.dr.config)
      → header.n + 1 < u32_mod
      → Suite.decrypt p
          (message_key p gap ck)
          ct
          (build_ad s.dr.config enc ad false)
          (effective_encrypt_info s.dr.config)
        ≡ ok pt
      → decrypt_on_chain_he p before header enc ct ad (some idx) s
        ≡ (ok pt, after_delivery_he s rpk idx nr gap ck)
  unfolding decrypt_on_chain_he message_key open_message_he
  decrypt_on_chain_he_lem before s header enc ct ad idx nr gap ck rpk pt held c lt v e le fits
        opened =
      let n = header.n in
      let top = chain_key p gap ck in
      let undo = rollback_all before in
      let s1 : HeSession = record s {
        dr = record s.dr {
          recv_chains = set_chain s.dr.recv_chains idx (chain top n rpk);
          mk_skipped = store_range p s.hkr.key gap ck nr s.dr.mk_skipped;
        };
      } in
      let c1 : chain_at s1.dr.recv_chains idx ≡ chain top n rpk =
        chain_at-set_chain s.dr.recv_chains idx (chain top n rpk) v lt in
      let s2 : HeSession = record s1 {
        dr = record s1.dr {
          recv_chains = set_chain s1.dr.recv_chains idx (chain (next_chain_key p top) n rpk);
        };
      } in
      let c2 : chain_at s2.dr.recv_chains idx ≡ chain (next_chain_key p top) n rpk =
        chain_at-set_chain s1.dr.recv_chains idx (chain (next_chain_key p top) n rpk)
          (set_chain-IsValid s.dr.recv_chains idx (chain top n rpk) v) lt in
      let wrap : u32_succ n ≡ nr + gap + 1 = mod-eq_of_lt fits ∙ omega arith in
      or_undo-ok undo (on_dr (check_max_skip idx n)) _ s s tt (
        on_dr-ok (check_max_skip idx n) s s.dr tt
          (check_max_skip_lem p s.dr idx nr gap n ck rpk c e le))
      ∙ or_undo-ok undo (skip_message_keys_he p n) _ s s1 tt
          (skip_message_keys_he_lem s idx nr gap n ck rpk held c e le)
      ∙ or_undo-ok undo (on_dr (derive_recv_message_key p idx n)) _ s1 s2 (derive_message_key p top)
          (on_dr-ok (derive_recv_message_key p idx n) s1 s2.dr (derive_message_key p top)
            (derive_recv_message_key_lem p s1.dr idx n top rpk c1 fits))
      ∙ or_undo-ok undo (open_message_he p (derive_message_key p top) enc ct ad) _ s2 s2 pt
          (ap (λ r. (or_error auth_failure r, s2)) opened)
      ∙ ap (λ dr. (ok pt, record s2 { dr = dr }))
          (advance_counter_lem p s2.dr idx n (next_chain_key p top) rpk c2)
      ∙ simp (wrap, set_chain-set_chain)

  decrypt_header_he_lem :
      (s : HeSession) (header : Header) (enc : Bytes)
      → IsHeader header
      → decrypt_header p s.hkr.key enc ≡ ok (some (encode_header header))
      → decrypt_header_he p s enc ≡ ok (header, false)
  unfolding decrypt_header_he or_next_key decode_found
  decrypt_header_he_lem s header enc v opened =
      let decoded : decode_header (encode_header header) ≡ ok header =
        rw (append-nil) at (decode_header-encode_header header [] v) in
      simp (opened, decoded)

  -- A message of the current chain, under the current header key, takes no turn.
  follow_header-stays :
      (before s : HeSession) (header : Header)
      → s.dr.dh_r_set ≡ true
      → s.dr.dhr ≡ header.ratchet_public_key
      → follow_header p before header false s ≡ (ok tt, s)
  unfolding follow_header is_new_remote_pk
  follow_header-stays before s header set same =
      simp (set, same, bytes_eqb_refl header.ratchet_public_key)

  -- DecryptHE of a message of the current chain, when no key is stored.
  pub decrypt_he_lem :
      (visit : Visit) (b : HeSession) (header : Header) (enc ct ad : Bytes) (idx nr gap : ℕ)
      (ck pt : Bytes)
      → IsRange visit
      → b.dr.mk_skipped.entries ≡ []
      → IsHeader header
      → decrypt_header p b.hkr.key enc ≡ ok (some (encode_header header))
      → b.dr.dh_r_set ≡ true
      → b.dr.dhr ≡ header.ratchet_public_key
      → find b.dr.recv_chains b.dr.dhr ≡ some idx
      → chain_at b.dr.recv_chains idx ≡ chain ck nr header.ratchet_public_key
      → Window.IsValid b.dr.recv_chains
      → header.n ≡ nr + gap
      → gap ≤ effective_max_skip (some b.dr.config)
      → header.n + 1 < u32_mod
      → Suite.decrypt p
          (message_key p gap ck)
          ct
          (build_ad b.dr.config enc ad false)
          (effective_encrypt_info b.dr.config)
        ≡ ok pt
      → decrypt_he p visit enc ct ad b
        ≡ (ok pt, after_delivery_he (recorded_he b) header.ratchet_public_key idx nr gap ck)
  unfolding decrypt_he decrypt_with_he
  decrypt_he_lem visit b header enc ct ad idx nr gap ck pt range nothing v found set same held c
        valid e le fits opened =
      let s = recorded_he b in
      let undo = rollback_all s in
      then-ok (try_skipped_message_keys_he p visit enc) _ s s none
        (try_skipped-nothing visit enc s range nothing)
      ∙ or_undo-ok undo (λ s. (decrypt_header_he p s enc, s)) _ s s (header, false)
          (ap (λ r. (r, s)) (decrypt_header_he_lem s header enc v found))
      ∙ then-ok (follow_header p s header false) _ s s tt (follow_header-stays s s header set same)
      ∙ ap (λ o. decrypt_on_chain_he p s header enc ct ad o s) held
      ∙ decrypt_on_chain_he_lem s s header enc ct ad idx nr gap ck header.ratchet_public_key pt held
          c (find_bounds b.dr.recv_chains b.dr.dhr idx held).0 valid e le fits opened
