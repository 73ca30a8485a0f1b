-- ===== src/Session/NextMessage.antt =====
-- What ratchetSendKey computes when it succeeds: its turn, if it takes one, and its step on the chain.
use go_doubleratchet.Base.{
  ◌≡◌, [], refl, sym, ap, ◌∙◌, subst, Bool, true, false, Option, none, some, Bytes, Result, ok,
  if◌then◌else◌, continue-eq-ok, ok-injective, arith,
}
use go_doubleratchet.Base.Words.{u32_succ}
use go_doubleratchet.Primitives.{Primitives}
use go_doubleratchet.Config.{effective_kdf_info}
use go_doubleratchet.Crypto.{generate_key_pair, shared_secret, public_key_from_private}
use go_doubleratchet.Kdf.{derive_message_key}
use go_doubleratchet.Message.{Header}
use go_doubleratchet.Session.{Session, derive_root_and_chain}
use go_doubleratchet.Session.Ratchet.{when, or_else, next_chain_key, perform_dh_ratchet_send}
use go_doubleratchet.Session.Methods.{send_on_chain, ratchet_send_key}

-- The fields that sending does not write.
pub record IsSame (s s' : Session) : Type 0 where
  pub config : s'.config ≡ s.config
  pub dhr : s'.dhr ≡ s.dhr
  pub dh_r_set : s'.dh_r_set ≡ s.dh_r_set
  pub recv_chains : s'.recv_chains ≡ s.recv_chains
  pub mk_skipped : s'.mk_skipped ≡ s.mk_skipped
  pub invariants : s'.invariants ≡ s.invariants

module _ (p : Primitives) where
  -- Where the chain key `ck` of a message comes from: the current sending chain, or a turn with a new
  -- key pair and the remote key.
  abbrev pub Origin : Bool → Session → Bytes → Bytes → Bytes → Type 0
  Origin false s rk dhs ck = (s.cks ≡ some ck) × (rk ≡ s.rk) × (dhs ≡ s.dhs)
  Origin true s rk dhs ck =
      (dh_out : Bytes) × (shared_secret p dhs s.dhr ≡ ok dh_out)
      × (derive_root_and_chain p dh_out s.rk (effective_kdf_info s.config) ≡ ok (rk, ck))

  -- A session that is ready to send the next message of a chain.
  pub record Ready (turn : Bool) (s s' : Session) (ck : Bytes) : Type 0 where
    pub origin : Origin turn s s'.rk s'.dhs ck
    pub at_chain : s'.cks ≡ some ck
    pub number : s'.ns ≡ (if turn then 0 else s.ns)
    pub previous : s'.pn ≡ (if turn then s.ns else s.pn)
    pub no_turn : s'.dh_ratchet_performed ≡ (if turn then false else s.dh_ratchet_performed)
    pub same : IsSame s s'

  perform_dh_ratchet_send-Ready :
      (entropy : Result Bytes) (s : Session) (u : Unit {0})
      → (perform_dh_ratchet_send p entropy s).0 ≡ ok u
      → (ck : Bytes) × Ready true s (perform_dh_ratchet_send p entropy s).1 ck
  unfolding perform_dh_ratchet_send
  perform_dh_ratchet_send-Ready entropy s u h =
      let (pair, _, h1, e1) = continue-eq-ok {B = Unit {0}} (generate_key_pair p entropy) _ _ h in
      let (dh_out, agreed, h2, e2) =
        continue-eq-ok {B = Unit {0}} (shared_secret p pair.0 s.dhr) _ _ h1 in
      let (keys, derived, _, e3) =
        continue-eq-ok {B = Unit {0}}
          (derive_root_and_chain p dh_out s.rk (effective_kdf_info s.config)) _ _ h2 in
      (
        keys.1,
        rw (e1 ∙ e2 ∙ e3) (record {
          origin = (dh_out, agreed, derived);
          at_chain = refl;
          number = refl;
          previous = refl;
          no_turn = refl;
          same = record {
            config = refl;
            dhr = refl;
            dh_r_set = refl;
            recv_chains = refl;
            mk_skipped = refl;
            invariants = refl;
          };
        }),
      )

  ready :
      (turn : Bool) (entropy : Result Bytes) (s : Session) (u : Unit {0}) (ck : Bytes)
      → let first = when turn (perform_dh_ratchet_send p entropy) s in
        first.0 ≡ ok u → first.1.cks ≡ some ck → Ready turn s first.1 ck
  ready false entropy s u ck h e = record {
    origin = (e, refl, refl);
    at_chain = e;
    number = refl;
    previous = refl;
    no_turn = refl;
    same = record {
      config = refl;
      dhr = refl;
      dh_r_set = refl;
      recv_chains = refl;
      mk_skipped = refl;
      invariants = refl;
    };
  }
  ready true entropy s u ck h e =
      let (ck0, r) = perform_dh_ratchet_send-Ready entropy s u h in
      let one : some ck0 ≡ some ck = sym r.at_chain ∙ e in
      let same : ck0 ≡ ck = ap (λ o. or_else o []) one in
      subst (Ready true s (perform_dh_ratchet_send p entropy s).1) same r

  send_on_chain-ok :
      (o : Option Bytes) (s : Session) (sent : Header × Bytes)
      → (send_on_chain p o s).0 ≡ ok sent
      → (ck : Bytes) × (o ≡ some ck)
        × (public_key_from_private p s.dhs ≡ ok sent.0.ratchet_public_key)
        × (sent.0.pn ≡ s.pn)
        × (sent.0.n ≡ s.ns)
        × (sent.1 ≡ derive_message_key p ck)
        × ((send_on_chain p o s).1
            ≡ record s { cks = some (next_chain_key p ck); ns = u32_succ s.ns })
  unfolding send_on_chain
  send_on_chain-ok none s sent h = absurd (ground (arith, h))
  send_on_chain-ok (some ck) s sent h =
      let (pub_key, own, h1, e) =
        continue-eq-ok {B = Header × Bytes} (public_key_from_private p s.dhs)
          (record s { cks = some (next_chain_key p ck); ns = u32_succ s.ns }) _ h in
      let header : Header = record { ratchet_public_key = pub_key; pn = s.pn; n = s.ns } in
      let made : (header, derive_message_key p ck) ≡ sent = ok-injective _ sent h1 in
      (
        ck,
        refl,
        own ∙ ap (λ (x : Header × Bytes). ok x.0.ratchet_public_key) made,
        sym (ap (λ (x : Header × Bytes). x.0.pn) made),
        sym (ap (λ (x : Header × Bytes). x.0.n) made),
        sym (ap (λ (x : Header × Bytes). x.1) made),
        ap (λ r. r.1) e,
      )

  -- The session behind the next message of a chain.
  abbrev pub behind : Session → Bytes → Session
  behind s ck = record s { cks = some (next_chain_key p ck); ns = u32_succ s.ns }

  pub ratchet_send_key-ok :
      (entropy : Result Bytes) (s : Session) (sent : Header × Bytes)
      → (ratchet_send_key p entropy s).0 ≡ ok sent
      → (s1 : Session) × (ck : Bytes) × Ready s.dh_ratchet_performed s s1 ck
        × (public_key_from_private p s1.dhs ≡ ok sent.0.ratchet_public_key)
        × (sent.0.pn ≡ s1.pn)
        × (sent.0.n ≡ s1.ns)
        × (sent.1 ≡ derive_message_key p ck)
        × ((ratchet_send_key p entropy s).1 ≡ behind s1 ck)
  unfolding ratchet_send_key
  ratchet_send_key-ok entropy s sent h =
      let first = when s.dh_ratchet_performed (perform_dh_ratchet_send p entropy) s in
      let (u, passed, h1, e1) = continue-eq-ok {B = Header × Bytes} first.0 first.1 _ h in
      let (ck, chained, own, pn, n, key, left) = send_on_chain-ok first.1.cks first.1 sent h1 in
      (
        first.1,
        ck,
        ready s.dh_ratchet_performed entropy s u ck passed chained,
        own,
        pn,
        n,
        key,
        ap (λ r. r.1) e1 ∙ left,
      )
