-- ===== src/Core/Height/Checks.antt =====
-- The height and the lock under the checks, the cached messages and the moves to another round.
use bft_rs.Prelude.{
  refl, true, false, is_none, ◌&&◌, ◌==◌, nat_eq, if◌then◌else◌, ℕ, ◌≡◌, Bool, Option, none, some,
  List, [], ◌∷◌, HashMap, arith,
}
use bft_rs.Objects.{
  Bytes, Hash, Status, Proof, SignedVote, SignedProposal, Block, Proposal, Feed, VerifyResp,
}
use bft_rs.Env.{Env}
use bft_rs.Collect.VoteSet.{StepCollector}
use bft_rs.Collect.Votes.{RoundCollector}
use bft_rs.Checks.{check_proof_and_set}
use bft_rs.Checks.Votes.{check_each, check_justified, check_lock_votes}
use bft_rs.Checks.Save.{
  check_and_save_verify_resp, check_block_txs, check_and_save_proposal, check_and_save_status,
  check_and_save_feed,
}
use bft_rs.Machine.State.{Bft}
use bft_rs.Machine.Monad.Keeps.{Keeps, keeps_rules, Keeps-bind, Keeps-modify}
use bft_rs.Core.Rounds.{
  fetch_proposal, flush_cache, goto_next_round, set_proposal, with_lock_round, lock_allows, taken,
  send_votes, send_steps, send_rounds, send_collected,
}
use bft_rs.Core.Height.{Frame, Locks, Free, access_rules}

module _ ⦃env : Env⦄ {P : Bft → Type 0} (frame : Frame P) where
  proof_and_set-Keeps : (h : ℕ) (p : Proof) → Keeps P (check_proof_and_set h p)
  unfolding check_proof_and_set
  proof_and_set-Keeps h p = search (keeps_rules, access_rules) depth 12

  check_each-Keeps :
      (h r : ℕ) (hash : Hash) (seen : List Bytes) (vs : List SignedVote)
      → Keeps P (check_each h r hash seen vs)
  unfolding check_each
  check_each-Keeps h r hash seen [] = search (keeps_rules)
  check_each-Keeps h r hash seen (v ∷ vs) =
      let rest : (seen' : List Bytes) → Keeps P (check_each h r hash seen' vs) =
        λ seen'. check_each-Keeps h r hash seen' vs in
      search (keeps_rules, frame.vets, rest) depth 12

  justified-Keeps : (p : Proposal) (hash : Hash) (o : Option ℕ) → Keeps P (check_justified p hash o)
  justified-Keeps p hash none = search (keeps_rules)
  justified-Keeps p hash (some r) = search (keeps_rules, check_each-Keeps) depth 12

  lock_votes-Keeps : (p : Proposal) (hash : Hash) → Keeps P (check_lock_votes p hash)
  unfolding check_lock_votes
  lock_votes-Keeps p hash = search (keeps_rules, justified-Keeps) depth 12

  pub verify_resp-Keeps : (v : VerifyResp) (b : Bool) → Keeps P (check_and_save_verify_resp v b)
  unfolding check_and_save_verify_resp
  verify_resp-Keeps v b = search (keeps_rules, frame.move, access_rules) depth 12

  block_txs-Keeps : (p : Proposal) (b : Block) (h : Hash) → Keeps P (check_block_txs p b h)
  unfolding check_block_txs
  block_txs-Keeps p b h = search (keeps_rules, frame.move, access_rules, verify_resp-Keeps) depth 12

  pub save_proposal-Keeps :
      (p : SignedProposal) (b : Block) (e : Bytes) (w : Bool)
      → Keeps P (check_and_save_proposal p b e w)
  unfolding check_and_save_proposal
  save_proposal-Keeps p b e w =
      search (keeps_rules, access_rules, block_txs-Keeps, lock_votes-Keeps, proof_and_set-Keeps)
        depth 20

  pub save_status-Keeps : (t : Status) (w : Bool) → Keeps P (check_and_save_status t w)
  unfolding check_and_save_status
  save_status-Keeps t w = search (keeps_rules, access_rules) depth 12

  pub save_feed-Keeps : (f : Feed) (w : Bool) → Keeps P (check_and_save_feed f w)
  unfolding check_and_save_feed
  save_feed-Keeps f w = search (keeps_rules, frame.move, access_rules) depth 12

  taken-Keeps : (h r : ℕ) (p : Option SignedProposal) → Keeps P (taken h r p)
  taken-Keeps h r none = search (keeps_rules)
  taken-Keeps h r (some p) = search (keeps_rules, access_rules) depth 12

  fetch_proposal-Keeps : (h r : ℕ) → Keeps P (fetch_proposal h r)
  unfolding fetch_proposal
  fetch_proposal-Keeps h r = search (keeps_rules, access_rules, taken-Keeps)

  send_votes-Keeps : (m : HashMap (List ℕ) SignedVote) → Keeps P (send_votes m)
  send_votes-Keeps [] = search (keeps_rules)
  send_votes-Keeps ((a, v) ∷ m) = Keeps-bind _ _ (search (access_rules)) (λ _. send_votes-Keeps m)

  send_steps-Keeps : (m : StepCollector) → Keeps P (send_steps m)
  send_steps-Keeps [] = search (keeps_rules)
  send_steps-Keeps ((t, v) ∷ m) = Keeps-bind _ _ (send_votes-Keeps _) (λ _. send_steps-Keeps m)

  pub send_rounds-Keeps : (m : List StepCollector) → Keeps P (send_rounds m)
  send_rounds-Keeps [] = search (keeps_rules)
  send_rounds-Keeps (c ∷ m) = Keeps-bind _ _ (send_steps-Keeps c) (λ _. send_rounds-Keeps m)

  pub next_round-Keeps : Keeps P goto_next_round
  unfolding goto_next_round
  next_round-Keeps = search (keeps_rules, frame.move, fetch_proposal-Keeps)

  either : (b : Bool) (s t : Bft) → (b ≡ true → P s) → (b ≡ false → P t) → P (if b then s else t)
  either true s t h k = h refl
  either false s t h k = k refl

module _ ⦃env : Env⦄ {P : Bft → Type 0} (frame : Frame P) (locks : Locks P) where
  with_lock_round-at : (p : Proposal) (o : Option ℕ) (s : Bft) → P s → P (with_lock_round p o s)
  with_lock_round-at p (some lock_round) s h =
      either frame (lock_allows s.lock_status lock_round) _ s
        (λ e. locks s _ _ (ground arith) (ground arith) (ground arith) (ground arith) refl refl h)
        (λ e. h)
  with_lock_round-at p none s h =
      either frame (is_none s.lock_status && (p.round == s.round)) _ s
        (λ e. frame.unlocks s _ refl refl refl refl (ground arith) h) (λ e. h)

  pub set_proposal-Keeps : (p : Proposal) → Keeps P (set_proposal p)
  unfolding set_proposal
  set_proposal-Keeps p = Keeps-modify _ λ s h. with_lock_round-at p p.lock_round s h

module _ ⦃env : Env⦄ {P : Bft → Type 0} (frame : Frame P) (free : Free P) where
  send_collected-Keeps :
      (o : Option (RoundCollector × (RoundCollector → env.LruCache RoundCollector))) (h : ℕ)
      → Keeps P (send_collected o h)
  send_collected-Keeps none h = search (keeps_rules)
  send_collected-Keeps (some (rc, f)) h = search (keeps_rules, free.move, frame, send_rounds-Keeps)

  pub flush_cache-Keeps : Keeps P flush_cache
  unfolding flush_cache
  flush_cache-Keeps =
      search (keeps_rules, frame, fetch_proposal-Keeps, send_collected-Keeps) depth 12
