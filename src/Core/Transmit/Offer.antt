-- ===== src/Core/Transmit/Offer.antt =====
-- What a locked node proposes.
use bft_rs.Prelude.{
  ◌≡◌, refl, ◌⊎◌, inl, inr, Bool, false, Option, none, some, ◌∷◌, BftResult, BftError, ok, err,
  panic, Option-cases, is_none, ◌&&◌, if◌then◌else◌,
}
use bft_rs.Objects.{Bytes, Block, Proposal, SignedProposal, LockStatus, BftMsg}
use bft_rs.Env.{Env}
use bft_rs.Framing.{combine_two}
use bft_rs.Codec.{proposal_item, signed_proposal_item}
use bft_rs.Collect.Proposals
use bft_rs.Collect.Blocks
use bft_rs.Machine.State.{Bft, Effect}
use bft_rs.Machine.Monad.{M, ◌>>=◌, ◌>>◌, when, continue}
use bft_rs.Machine.Access.{emit, proposals_get, blocks_get, send_bft_msg}
use bft_rs.Core.Byzantine.{build_signed_proposal_encode}
use bft_rs.Core.Transmit.{lock_offer, locked_proposal, own_proposal, transmit_proposal}

module _ ⦃env : Env⦄ where
  open env use {sign, crypt_hash, rlp_encode}

  -- A signed proposal of this content, as a message with its block.
  abbrev pub IsOfferOf : Proposal → Bytes → Type 0
  IsOfferOf p encode =
      (sp : SignedProposal) × (block : Block) × (sp.proposal ≡ p)
      × (sign (crypt_hash (rlp_encode (proposal_item p))) ≡ some sp.signature)
      × (encode ≡ combine_two (rlp_encode (signed_proposal_item sp)) block)

  abbrev Built : Bft → Proposal → BftResult Bytes × Bft → Type 0
  Built s p (r, s') =
      (s'.effects ≡ s.effects)
      × (((e : BftError) × (r ≡ err e)) ⊎ ((encode : Bytes) × (r ≡ ok encode) × IsOfferOf p encode))

  encode-Built :
      (s t : Bft) (p : Proposal)
      → t.effects ≡ s.effects
      → Built s p (build_signed_proposal_encode p t)
  unfolding build_signed_proposal_encode blocks_get ◌>>=◌
  encode-Built s t p same = elim (Option-cases (sign (crypt_hash (rlp_encode (proposal_item p))))) [
    | inl unsigned ↦ rw unsigned (same, inl (_, refl))
    | inr (signature, signed) ↦
        elim (Option-cases (Blocks.get_block p.height p.block_hash t.blocks).0) [
          | inl missing ↦ rw (signed, missing) (same, inl (_, refl))
          | inr (block, found) ↦
              rw (signed, found)
                (
                  same,
                  inr (
                    _,
                    refl,
                    (record { proposal = p; signature = signature }, block, refl, refl, refl),
                  ),
                )
        ]
  ]

  -- The result of `locked_proposal`, by the proposal that the cache has for the lock's round.
  abbrev Locked : Bft → LockStatus → BftResult Bytes × Bft → Type 0
  Locked s lock (r, s') =
      (((Proposals.get_proposal s.height lock.round s.proposals).0 ≡ none)
        × (r ≡ panic)
        × (s'.effects ≡ s.effects))
      ⊎ ((cached : SignedProposal) × ((Proposals.get_proposal s.height lock.round s.proposals).0
            ≡ some cached)
          × Built s (lock_offer s lock cached.proposal) (r, s'))

  locked_proposal-Locked : (s : Bft) (lock : LockStatus) → Locked s lock (locked_proposal s lock s)
  unfolding locked_proposal proposals_get ◌>>=◌
  locked_proposal-Locked s lock =
      let (found, c) = Proposals.get_proposal s.height lock.round s.proposals in
      elim (Option-cases found) [
        | inl missing ↦ rw missing (inl (refl, refl, refl))
        | inr (cached, e) ↦
            let built =
              encode-Built s (record s { proposals = c }) (lock_offer s lock cached.proposal)
                refl in
            rw e (inr (cached, refl, built))
      ]

  -- A proposal of a node for its lock, with the block and the proof of a cached proposal.
  pub record OffersLock (s : Bft) (lock : LockStatus) (cached p : Proposal) : Type 0 where
    height : p.height ≡ s.height
    round : p.round ≡ s.round
    block_hash : p.block_hash ≡ cached.block_hash
    proof : p.proof ≡ cached.proof
    lock_round : p.lock_round ≡ some lock.round
    lock_votes : p.lock_votes ≡ lock.votes
    proposer : p.proposer ≡ s.params.address

  -- What a locked node does to propose, by the proposal that it has cached for the lock's round.
  abbrev pub Proposes : Bft → LockStatus → BftResult (Unit {0}) × Bft → Type 0
  Proposes s lock (r, s') =
      (((Proposals.get_proposal s.height lock.round s.proposals).0 ≡ none)
        × (r ≡ panic)
        × (s'.effects ≡ s.effects))
      ⊎ ((cached : SignedProposal) × ((Proposals.get_proposal s.height lock.round s.proposals).0
            ≡ some cached)
          × (((e : BftError) × (r ≡ err e) × (s'.effects ≡ s.effects))
              ⊎ ((p : Proposal) × (encode : Bytes) × OffersLock s lock cached.proposal p
                  × IsOfferOf p encode
                  × (r ≡ ok tt)
                  × (s'.effects
                      ≡ Effect.send (BftMsg.proposal encode)
                        ∷ Effect.transmit (BftMsg.proposal encode)
                        ∷ s.effects))))

  abbrev send_encode : Bytes → M (Unit {0})
  send_encode encode =
      emit (Effect.transmit (BftMsg.proposal encode)) >> send_bft_msg (BftMsg.proposal encode)

  sent-Proposes :
      (s : Bft) (lock : LockStatus) (r : BftResult Bytes) (t : Bft)
      → Locked s lock (r, t)
      → Proposes s lock (continue r send_encode t)
  unfolding send_bft_msg ◌>>=◌
  sent-Proposes s lock r t (inl (missing, e, same)) = rw e (inl (missing, refl, same))
  sent-Proposes s lock r t (inr (cached, found, (same, inl (x, e)))) =
      rw e (inr (cached, found, inl (x, refl, same)))
  sent-Proposes s lock r t (inr (cached, found, (same, inr (encode, e, offer)))) =
      let offers : OffersLock s lock cached.proposal (lock_offer s lock cached.proposal) = record {
        height = refl;
        round = refl;
        block_hash = refl;
        proof = refl;
        lock_round = refl;
        lock_votes = refl;
        proposer = refl;
      } in
      rw e (
        inr (
          cached,
          found,
          inr (lock_offer s lock cached.proposal, encode, offers, offer, refl, rw same refl),
        ))

  with_lock :
      (s : Bft) (l : Option LockStatus) (b : Bool) (wait : M (Unit {0})) (lock : LockStatus)
      → l ≡ some lock
      → Proposes s lock ((when (is_none l && b) wait >> (own_proposal s l >>= send_encode)) s)
  unfolding ◌>>=◌
  with_lock s l b wait lock e =
      let (r, t) = locked_proposal s lock s in
      rw e (sent-Proposes s lock r t (locked_proposal-Locked s lock))

  honest_branch :
      {A : Type 0} (Q : BftResult A × Bft → Type 0) (b : Bool) (m n : M A) (s : Bft)
      → b ≡ false
      → Q (n s)
      → Q ((if b then m else n) s)
  honest_branch Q b m n s e h = rw e h

  -- How an honest node that is locked proposes. If its cache has no proposal of the lock's round, it
  -- panics. Otherwise it fails, with nothing sent, or it sends one message, to all and to itself: a
  -- proposal of its height and round, signed and with a block, that has the block hash and the proof
  -- of the cached proposal, the lock's round and the lock's votes.
  pub transmit_proposal_locked :
      (s : Bft) (lock : LockStatus)
      → s.is_byzantine ≡ false
      → s.lock_status ≡ some lock
      → Proposes s lock (transmit_proposal s)
  unfolding transmit_proposal ◌>>=◌
  transmit_proposal_locked s lock honest locked =
      honest_branch (Proposes s lock) s.is_byzantine _ _ s honest
        (with_lock s s.lock_status _ _ lock locked)
