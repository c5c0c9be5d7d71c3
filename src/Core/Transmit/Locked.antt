-- ===== src/Core/Transmit/Locked.antt =====
-- What a locked node votes for.
use bft_rs.Prelude.{
  ◌≡◌, refl, Bool, false, some, List, [], ◌∷◌, ◌++◌, All, arith, Bool-cases, ◌*◌, Option-cases, inl,
  inr,
}
use bft_rs.Objects.{Hash, Step, VoteType, SignedVote, LockStatus, BftMsg}
use bft_rs.Env.{Env}
use bft_rs.Codec.{vote_item}
use bft_rs.Machine.Params.{get_prevote, get_precommit}
use bft_rs.Machine.State.{Bft, Effect}
use bft_rs.Machine.Monad.{◌>>=◌}
use bft_rs.Machine.Access.{timer_of, change_to_step, send_bft_msg, set_timer}
use bft_rs.Core.Byzantine.{build_signed_vote, timeout_retranse_coef}
use bft_rs.Core.Transmit.{own_vote, vote_msg, transmit_prevote, transmit_precommit}

module _ ⦃env : Env⦄ where
  open env use {sign, crypt_hash, rlp_encode}

  -- A message is the node's own vote of this height and round for the block.
  abbrev pub IsVoteFor : Bft → VoteType → Hash → BftMsg → Type 0
  IsVoteFor s t hash m =
      (v : SignedVote) × (m ≡ vote_msg v)
      × (v.vote ≡ own_vote s t hash)
      × (sign (crypt_hash (rlp_encode (vote_item v.vote))) ≡ some v.signature)

  -- An effect is such a vote, or sets a timer.
  abbrev pub Votes : Bft → VoteType → Hash → Effect → Type 0
  Votes s t hash (Effect.transmit m) = IsVoteFor s t hash m
  Votes s t hash (Effect.send m) = IsVoteFor s t hash m
  Votes s t hash (Effect.timer info) = Unit
  Votes s t hash _ = ⊥

  -- The effects since a state are all such votes.
  abbrev pub OnlyVotes : Bft → Bft → VoteType → Hash → Type 0
  OnlyVotes s s' t hash =
      (new : List Effect) × (s'.effects ≡ new ++ s.effects) × All (Votes s t hash) new

  prevote_effects :
      (resend : Bool) (s : Bft) (lock : LockStatus)
      → s.is_byzantine ≡ false
      → s.lock_status ≡ some lock
      → OnlyVotes s (transmit_prevote resend s).1 VoteType.prevote lock.block_hash
  unfolding transmit_prevote build_signed_vote change_to_step send_bft_msg set_timer ◌>>=◌
  prevote_effects resend s lock honest locked =
      let vote = own_vote s VoteType.prevote lock.block_hash in
      elim (Option-cases (sign (crypt_hash (rlp_encode (vote_item vote))))) [
        | inl none_signed ↦ ([], ground arith, tt)
        | inr (sig, signed) ↦
            let msg = vote_msg (record { vote = vote; signature = sig }) in
            let t = timer_of s (get_prevote s.params.timer * timeout_retranse_coef) Step.prevote in
            let sv : SignedVote = record { vote = vote; signature = sig } in
            let good : IsVoteFor s VoteType.prevote lock.block_hash msg =
              (sv, refl, refl, signed) in
            elim (Bool-cases resend) [
              | inl again ↦
                  (Effect.timer t ∷ Effect.transmit msg ∷ [], ground arith, (tt, (good, tt)))
              | inr first ↦ (
                Effect.timer t ∷ Effect.send msg ∷ Effect.transmit msg ∷ [],
                ground arith,
                (tt, (good, (good, tt))),
              )
            ]
      ]

  precommit_effects :
      (resend : Bool) (s : Bft) (lock : LockStatus)
      → s.is_byzantine ≡ false
      → s.lock_status ≡ some lock
      → OnlyVotes s (transmit_precommit resend s).1 VoteType.precommit lock.block_hash
  unfolding transmit_precommit build_signed_vote change_to_step send_bft_msg set_timer ◌>>=◌
  precommit_effects resend s lock honest locked =
      let vote = own_vote s VoteType.precommit lock.block_hash in
      elim (Option-cases (sign (crypt_hash (rlp_encode (vote_item vote))))) [
        | inl none_signed ↦ ([], ground arith, tt)
        | inr (sig, signed) ↦
            let msg = vote_msg (record { vote = vote; signature = sig }) in
            let t =
              timer_of s (get_precommit s.params.timer * timeout_retranse_coef) Step.precommit in
            let sv : SignedVote = record { vote = vote; signature = sig } in
            let good : IsVoteFor s VoteType.precommit lock.block_hash msg =
              (sv, refl, refl, signed) in
            elim (Bool-cases resend) [
              | inl again ↦
                  (Effect.timer t ∷ Effect.transmit msg ∷ [], ground arith, (tt, (good, tt)))
              | inr first ↦ (
                Effect.timer t ∷ Effect.send msg ∷ Effect.transmit msg ∷ [],
                ground arith,
                (tt, (good, (good, tt))),
              )
            ]
      ]

  -- The prevote and the precommit of an honest node that is locked are for the locked block, at its
  -- height and round: all that the two methods send since the state before, first or again, is its
  -- signed vote for the lock's block hash, and timers. It holds whether or not the signing succeeds.
  pub transmit_locked :
      (resend : Bool) (s : Bft) (lock : LockStatus)
      → s.is_byzantine ≡ false
      → s.lock_status ≡ some lock
      → OnlyVotes s (transmit_prevote resend s).1 VoteType.prevote lock.block_hash
        × OnlyVotes s (transmit_precommit resend s).1 VoteType.precommit lock.block_hash
  transmit_locked resend s lock honest is_locked = (
    prevote_effects resend s lock honest is_locked,
    precommit_effects resend s lock honest is_locked,
  )
