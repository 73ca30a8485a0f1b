-- ===== src/SessionHe/Nonce.antt =====
-- What EncryptHE does with the nonce counter of its header key.
use go_doubleratchet.Base.{
  ◌+◌, ◌≡◌, if◌then◌else◌, refl, Bool, true, false, Option, none, some, Bytes, take, Result, ok,
  err, diverges, Method, continue-Preserves, continue-eq-ok, ◌>>=◌, lift, pure, not, fail,
  session_not_initialized, Bool-cases, inl, inr, arith, ◌||◌, nat_eqb,
}
use go_doubleratchet.Primitives.{Primitives}
use go_doubleratchet.Config.{effective_hekdf_info}
use go_doubleratchet.Kdf.{derive_root_key_he}
use go_doubleratchet.Crypto.{generate_key_pair, shared_secret, public_key_from_private, is_zeroed}
use go_doubleratchet.Crypto.HeaderEncrypt.{
  HeaderKey, max_uint64, encrypt_header, count_nonce, nonce_of, seal_header, derive_header_keys,
  header_key_info,
}
use go_doubleratchet.Crypto.HeaderEncrypt.Laws.{encrypt_header-take}
use go_doubleratchet.Session.Ratchet.{when}
use go_doubleratchet.SessionHe.{HeSession, on_hks}
use go_doubleratchet.SessionHe.Ratchet.{perform_dh_ratchet_send_he, turn_he}
use go_doubleratchet.SessionHe.Methods.{send_on_chain_he, encrypt_he, is_nil}

-- The sending header key of the next message.
unfoldable pub key_in_use : HeSession → HeaderKey
key_in_use s = if s.dr.dh_ratchet_performed || is_nil s.dr.cks then s.nhks else s.hks

module _ (p : Primitives) where
  -- A call that succeeds starts with the nonce of the counter, and moves the counter on.
  abbrev Uses : HeaderKey → Bytes → HeaderKey → Type 0
  Uses used c after =
      (take 16 c ≡ nonce_of used.nonce_counter)
      × (after ≡ record used { nonce_counter = used.nonce_counter + 1 })

  count_nonce-adds :
      (r : Result Bytes) (hk : HeaderKey) (c : Bytes)
      → (count_nonce p r hk).0 ≡ ok c
      → (count_nonce p r hk).1 ≡ record hk { nonce_counter = hk.nonce_counter + 1 }
  unfolding count_nonce
  count_nonce-adds (ok x) hk c h = refl
  count_nonce-adds (err e) hk c h = cc
  count_nonce-adds diverges hk c h = cc

  encrypt_header-Uses :
      (header c : Bytes) (hk : HeaderKey)
      → (encrypt_header p header hk).0 ≡ ok c
      → Uses hk c (encrypt_header p header hk).1
  unfolding encrypt_header
  encrypt_header-Uses header c hk h =
      let sealed =
        seal_header p header (nonce_of hk.nonce_counter)
          (derive_header_keys p hk.key header_key_info) in
      elim (Bool-cases (is_zeroed hk.key)) [
        | inl zeroed ↦ absurd (ground (arith, h))
        | inr live ↦ elim (Bool-cases (nat_eqb hk.nonce_counter max_uint64)) [
          | inl end ↦ absurd (ground (arith, h))
          | inr below ↦ (
            encrypt_header-take p hk header c h,
            rw (live, below) (count_nonce-adds sealed hk c (rw (live, below) at h)),
          )
        ]
      ]

  -- The tail of EncryptHE.
  abbrev sealing : Bytes → (Bytes → Result Bytes) → Method HeSession (Bytes × Bytes)
  sealing header seal = do
    enc ← on_hks (encrypt_header p header)
    ct ← lift (seal enc)
    pure (enc, ct)

  sealing-Uses :
      (header : Bytes) (seal : Bytes → Result Bytes) (s : HeSession) (sent : Bytes × Bytes)
      → (sealing header seal s).0 ≡ ok sent
      → Uses s.hks sent.0 (sealing header seal s).1.hks
  sealing-Uses header seal s sent h =
      let (enc, made, h1, e1) =
        continue-eq-ok {B = Bytes × Bytes} (encrypt_header p header s.hks).0
          (on_hks (encrypt_header p header) s).1 _ h in
      let (ct, _, h2, e2) =
        continue-eq-ok {B = Bytes × Bytes} (seal enc) (on_hks (encrypt_header p header) s).1 _ h1 in
      let same : enc ≡ sent.0 = ground (arith, h2) in
      rw (e1, e2, ← same) (encrypt_header-Uses header enc s.hks made)

  send_on_chain_he-Uses :
      (plaintext ad : Bytes) (cks : Option Bytes) (s : HeSession) (sent : Bytes × Bytes)
      → (send_on_chain_he p plaintext ad cks s).0 ≡ ok sent
      → Uses s.hks sent.0 (send_on_chain_he p plaintext ad cks s).1.hks
  unfolding send_on_chain_he
  send_on_chain_he-Uses plaintext ad none s sent h = absurd (ground (arith, h))
  send_on_chain_he-Uses plaintext ad (some cks) s sent h =
      let (pub_key, made, h1, e1) = continue-eq-ok (public_key_from_private p s.dr.dhs) _ _ h in
      rw e1 (sealing-Uses _ _ _ sent h1)

  turn_he-hks : (entropy : Result Bytes) (s : HeSession) → (turn_he p entropy s).1.hks ≡ s.nhks
  unfolding turn_he
  turn_he-hks entropy s =
      let P : HeSession → Type 0 = λ s'. s'.hks ≡ s.nhks in
      continue-Preserves P (generate_key_pair p entropy) _ _
        (λ (new_priv, _) s k.
          continue-Preserves P (shared_secret p new_priv s.dr.dhr) s _
            (λ dh_out s1 k1.
              continue-Preserves P
                (derive_root_key_he p s.dr.rk dh_out (effective_hekdf_info s.dr.config)) s1 _
                (λ keys s k. k) k1)
            k)
        refl

  guarded-hks :
      (b : Bool) (entropy : Result Bytes) (s : HeSession) (u : Unit {0})
      → let m : Method HeSession (Unit {0}) =
          if not b then fail session_not_initialized else turn_he p entropy in
        (m s).0 ≡ ok u → (m s).1.hks ≡ s.nhks
  guarded-hks true entropy s u h = turn_he-hks entropy s
  guarded-hks false entropy s u h = cc

  when-hks :
      (turn : Bool) (entropy : Result Bytes) (s : HeSession) (u : Unit {0})
      → (when turn (perform_dh_ratchet_send_he p entropy) s).0 ≡ ok u
      → (when turn (perform_dh_ratchet_send_he p entropy) s).1.hks
        ≡ (if turn then s.nhks else s.hks)
  unfolding perform_dh_ratchet_send_he
  when-hks false entropy s u h = refl
  when-hks true entropy s u h = guarded-hks s.dr.dh_r_set entropy s u h

  -- If EncryptHE succeeds, the encrypted header begins with the nonce of the counter of the header
  -- key in use, which is the next sending header key if the message opens a sending chain and the
  -- current one otherwise, and the session is left with that key and the next counter.
  pub encrypt_he-nonce_of :
      (entropy : Result Bytes) (plaintext ad : Bytes) (s : HeSession) (sent : Bytes × Bytes)
      → (encrypt_he p entropy plaintext ad s).0 ≡ ok sent
      → let used = key_in_use s in
        (take 16 sent.0 ≡ nonce_of used.nonce_counter)
        × ((encrypt_he p entropy plaintext ad s).1.hks
            ≡ record used { nonce_counter = used.nonce_counter + 1 })
  unfolding encrypt_he key_in_use
  encrypt_he-nonce_of entropy plaintext ad s sent h =
      let turn = s.dr.dh_ratchet_performed || is_nil s.dr.cks in
      let first = when turn (perform_dh_ratchet_send_he p entropy) s in
      let (u, passed, h1, e1) = continue-eq-ok {B = Bytes × Bytes} first.0 first.1 _ h in
      rw e1 (
        rw (when-hks turn entropy s u passed) at
          (send_on_chain_he-Uses plaintext ad first.1.dr.cks first.1 sent h1))
