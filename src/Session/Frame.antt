-- ===== src/Session/Frame.antt =====
-- Properties of a session that the receiving steps keep: any property that does not speak of what
-- they write.
use go_doubleratchet.Base.{
  ℕ, zero, suc, ◌-◌, true, Option, none, some, Bytes, ok, arith, Preserves, bind-Preserves,
  if-Preserves, continue-Preserves, not,
}
use go_doubleratchet.Primitives.{Primitives}
use go_doubleratchet.Config.{effective_kdf_info}
use go_doubleratchet.Crypto.{shared_secret, verify_public_key}
use go_doubleratchet.Message.{Header, Message}
use go_doubleratchet.State.Skipped.{store}
use go_doubleratchet.State.ReceiverChains.{ReceiverChain, push, set_chain, chain_at}
use go_doubleratchet.Session.{Session, derive_root_and_chain}
use go_doubleratchet.Session.Ratchet.{
  enter_epoch, perform_dh_ratchet_recv, store_previous, store_range, skip_loop, skip_message_keys,
  derive_recv_message_key, derive_on_chain, finish_derive, previous, current_chain,
}
use go_doubleratchet.Session.Methods.{check_max_skip, open_message, advance_counter}

-- A property of a session that survives each kind of write of the receiving side.
pub record IsReceiving (P : Session → Type 0) : Type 0 where
  pub to_rk : (s : Session) (rk : Bytes) → P s → P (record s { rk = rk })
  pub to_store :
      (s : Session) (pk : Bytes) (n : ℕ) (mk : Bytes)
      → P s
      → P (record s { mk_skipped = store s.mk_skipped pk n mk })
  pub to_push :
      (s : Session) (pk ck : Bytes)
      → P s
      → P (record s {
        recv_chains = push s.recv_chains pk (some ck);
        dhr = pk;
        dh_r_set = true;
        dh_ratchet_performed = true;
      })
  pub to_chain :
      (s : Session) (idx : ℕ) (c : ReceiverChain)
      → P s
      → P (record s { recv_chains = set_chain s.recv_chains idx c })

module _ (p : Primitives) (P : Session → Type 0) (r : IsReceiving P) where
  store_range-keeps :
      (pk : Bytes) (rounds n : ℕ) (ck : Bytes) (s : Session)
      → P s
      → P (record s { mk_skipped = store_range p pk rounds ck n s.mk_skipped })
  unfolding store_range
  store_range-keeps pk zero n ck s h = h
  store_range-keeps pk (suc rounds) n ck s h =
      store_range-keeps pk rounds _ _ (record s { mk_skipped = _ }) (r.to_store s pk n _ h)

  pub store_previous-Preserves :
      (pk : Bytes) (ck : Option Bytes) (nr pn : ℕ) → Preserves P (store_previous p pk ck nr pn)
  unfolding store_previous
  store_previous-Preserves pk none nr pn s h = h
  store_previous-Preserves pk (some ck) nr pn s h =
      ground (arith, store_range-keeps pk (pn - nr) nr ck s h)

  enter_epoch-Preserves :
      (prev_dhr : Bytes) (prev : Option Bytes × ℕ) (h : Header) (keys : Bytes × Bytes)
      → Preserves P (enter_epoch p prev_dhr prev h keys)
  unfolding enter_epoch
  enter_epoch-Preserves prev_dhr (prev_ckr, prev_nr) h (new_rk, ckr) s k =
      bind-Preserves P (store_previous p prev_dhr prev_ckr prev_nr h.pn) (λ _ s. (ok tt, adopted s))
        (store_previous-Preserves prev_dhr prev_ckr prev_nr h.pn)
        (λ _ s k. r.to_push s h.ratchet_public_key ckr k) (record s { rk = new_rk })
        (r.to_rk s new_rk k)
    where
      adopted : Session → Session
      adopted s = record s {
        recv_chains = push s.recv_chains h.ratchet_public_key (some ckr);
        dhr = h.ratchet_public_key;
        dh_r_set = true;
        dh_ratchet_performed = true;
      }

  pub perform_dh_ratchet_recv-Preserves : (h : Header) → Preserves P (perform_dh_ratchet_recv p h)
  unfolding perform_dh_ratchet_recv
  perform_dh_ratchet_recv-Preserves h s =
      if-Preserves P (not (verify_public_key h.ratchet_public_key)) _ _ (λ _ k. k)
        (λ s k.
          continue-Preserves P (shared_secret p s.dhs h.ratchet_public_key) s _
            (λ dh_out s1 k1.
              continue-Preserves P
                (derive_root_and_chain p dh_out s.rk (effective_kdf_info s.config)) s1 _
                (λ keys. enter_epoch-Preserves s.dhr (previous (current_chain s)) h keys) k1)
            k)
        s

  skip_loop-keeps :
      (pk : Bytes) (rounds idx : ℕ) (c : ReceiverChain) (s : Session)
      → P s
      → P (record s { mk_skipped = (skip_loop p pk rounds c s.mk_skipped).1 })
  unfolding skip_loop
  skip_loop-keeps pk zero idx c s h = h
  skip_loop-keeps pk (suc rounds) idx c s h =
      skip_loop-keeps pk rounds idx _ (record s { mk_skipped = _ }) (r.to_store s pk c.nr _ h)

  pub skip_message_keys-Preserves :
      (pk : Bytes) (idx until : ℕ) → Preserves P (skip_message_keys p pk idx until)
  unfolding skip_message_keys
  skip_message_keys-Preserves pk idx until s h =
      let c = chain_at s.recv_chains idx in
      let after = skip_loop p pk (until - c.nr) c s.mk_skipped in
      r.to_chain (record s { mk_skipped = after.1 }) idx after.0
        (skip_loop-keeps pk (until - c.nr) idx c s h)

  finish_derive-Preserves :
      (idx : ℕ) (o : Option (Bytes × Option Bytes)) → Preserves P (finish_derive p idx o)
  unfolding finish_derive
  finish_derive-Preserves idx none s h = h
  finish_derive-Preserves idx (some (ck, none)) s h = h
  finish_derive-Preserves idx (some (ck, some mk)) s h = r.to_chain s idx _ h

  derive_on_chain-Preserves :
      (idx n nr : ℕ) (ck : Option Bytes) → Preserves P (derive_on_chain p idx n nr ck)
  unfolding derive_on_chain
  derive_on_chain-Preserves idx n nr none s h = h
  derive_on_chain-Preserves idx n nr (some ck) s h = finish_derive-Preserves idx _ s h

  pub derive_recv_message_key-Preserves :
      (idx n : ℕ) → Preserves P (derive_recv_message_key p idx n)
  unfolding derive_recv_message_key
  derive_recv_message_key-Preserves idx n s h = derive_on_chain-Preserves idx n _ _ s h

  pub open_message-Preserves :
      (mk : Bytes) (msg : Message) (ad : Bytes) → Preserves P (open_message p mk msg ad)
  unfolding open_message
  open_message-Preserves mk msg ad s h = h

  pub check_max_skip-Preserves : (idx n : ℕ) → Preserves P (check_max_skip idx n)
  unfolding check_max_skip
  check_max_skip-Preserves idx n s h = ground arith

  pub advance_counter-keeps : (idx : ℕ) (s : Session) → P s → P (advance_counter idx s)
  unfolding advance_counter
  advance_counter-keeps idx s h = r.to_chain s idx _ h
