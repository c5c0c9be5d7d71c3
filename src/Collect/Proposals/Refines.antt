-- ===== src/Collect/Proposals/Refines.antt =====
-- `ProposalCollector::add` of src/collectors.rs as an update of the map that `get_proposal` reads.
use bft_rs.Prelude.{
  ℕ, ◌<◌, ◌≡◌, ◌≢◌, refl, sym, ◌∙◌, ap, false, ◌&&◌, Option, none, some, BftResult, ok, err,
  recv_msg_again, arith, nat_beq, nat_beq_iff, Bool-cases, Option-cases, inl, inr,
}
use bft_rs.Objects.{SignedProposal}
use bft_rs.Env.{Env, LruLaws, lru_peek}
use bft_rs.Collect.Cache.{
  KeptOrLost, key-cases, Updates, insert-Updates, write-Updates, Updates-all,
}
use bft_rs.Collect.Blocks.Refines.{first_of}
use bft_rs.Collect.Votes.{cache_n}
use bft_rs.Collect.Proposals.{
  ProposalRoundCollector, ProposalCollector, new, add_round, get_round, add, get_proposal,
}

-- The result of an `add`, by the proposal that is there.
abbrev pub added : Option SignedProposal → BftResult (Unit {0})
added none = ok tt
added (some p) = err recv_msg_again

module _ ⦃env : Env⦄ where
  open env use {lru_get_mut, lru_new}

  abbrev view_round : ℕ → Option ProposalRoundCollector → Option SignedProposal
  view_round round none = none
  view_round round (some rc) = lru_peek round rc.round_proposals

  -- The proposal of a height and a round.
  abbrev view : ℕ → ℕ → ProposalCollector → Option SignedProposal
  view height round c = view_round round (lru_peek height c.proposals)

  get_round-view :
      (round : ℕ) (rc : ProposalRoundCollector)
      → (get_round round rc).0 ≡ lru_peek round rc.round_proposals
  unfolding get_round
  get_round-view round rc = elim (Option-cases (lru_get_mut round rc.round_proposals)) [
    | inl e ↦ rw (get_round, e) refl
    | inr (r, e) ↦ rw (get_round, e) refl
  ]

  get_proposal-view :
      (height round : ℕ) (c : ProposalCollector)
      → (get_proposal height round c).0 ≡ view height round c
  unfolding get_proposal
  get_proposal-view height round c = elim (Option-cases (lru_get_mut height c.proposals)) [
    | inl e ↦ rw (get_proposal, e) refl
    | inr (r, e) ↦ rw (get_proposal, e) (get_round-view round r.0)
  ]

  abbrev or_empty : Option ProposalRoundCollector → ProposalRoundCollector
  or_empty none = record { round_proposals = lru_new cache_n }
  or_empty (some rc) = rc

module _ ⦃env : Env⦄ (laws : LruLaws env) where
  -- No cache has the capacity 0.
  pub record HasRoom (c : ProposalCollector) : Type 0 where
    heights : 0 < laws.capacity c.proposals
    rounds :
        (height : ℕ) (rc : ProposalRoundCollector)
        → lru_peek height c.proposals ≡ some rc
        → 0 < laws.capacity rc.round_proposals

  viewed :
      (round : ℕ) (o : Option ProposalRoundCollector)
      → view_round round o ≡ lru_peek round (or_empty o).round_proposals
  viewed round none = sym (laws.peek_new round cache_n)
  viewed round (some rc) = refl

  opened_room :
      (height : ℕ) (c : ProposalCollector)
      → HasRoom c
      → 0 < laws.capacity (or_empty (lru_peek height c.proposals)).round_proposals
  opened_room height c room = elim (Option-cases (lru_peek height c.proposals)) [
    | inl e ↦ rw (e, laws.capacity_new cache_n) (omega arith)
    | inr (rc, e) ↦ rw e (room.rounds height rc e)
  ]

  -- `ProposalRoundCollector::add` leaves the first proposal of the round.
  add_round-Updates :
      (round : ℕ) (p : SignedProposal) (rc : ProposalRoundCollector)
      → 0 < laws.capacity rc.round_proposals
      → let before = lru_peek round rc.round_proposals in
        ((add_round round p rc).0 ≡ added before)
        × Updates laws round
            (first_of before p)
            rc.round_proposals
            (add_round round p rc).1.round_proposals
  unfolding add_round
  add_round-Updates round p rc room = elim (key-cases laws round rc.round_proposals) [
    | inl (e, absent) ↦ rw (e, absent) (refl, insert-Updates laws round p rc.round_proposals room)
    | inr (r, e, present) ↦
        rw (e, present)
          (refl, record { self = rw e refl; other = λ j ne. inl refl; capacity = refl })
  ]

  add-Updates :
      (p : SignedProposal) (c : ProposalCollector)
      → HasRoom c
      → let height = p.proposal.height in
        let rc = or_empty (lru_peek height c.proposals) in
        ((add p c).0 ≡ (add_round p.proposal.round p rc).0)
        × Updates laws height (add_round p.proposal.round p rc).1 c.proposals (add p c).1.proposals
  unfolding add
  add-Updates p c room =
      let height = p.proposal.height in
      let round = p.proposal.round in
      elim (key-cases laws height c.proposals) [
        | inl (e, absent) ↦
            let first = or_empty none in
            let fresh : (add_round round p first).0 ≡ ok tt =
              (add_round-Updates round p first (rw (laws.capacity_new cache_n) (omega arith))).0
              ∙ ap added (laws.peek_new round cache_n) in
            rw (e, absent, fresh)
              (
                refl,
                insert-Updates laws height (add_round round p first).1 c.proposals room.heights,
              )
        | inr (r, e, present) ↦
            rw (e, present)
              (refl, write-Updates laws height (add_round round p r.0).1 c.proposals r e)
      ]

  -- `ProposalCollector::add` is refused exactly if `get_proposal` gives a proposal for its height and
  -- round; from then on `get_proposal` gives the proposal that it gave before, or else the new one.
  -- What it gives for another height or round is as before or forgotten, and the caches, none of which
  -- has the capacity 0, keep their room.
  pub add-get_proposal :
      (p : SignedProposal) (c : ProposalCollector)
      → HasRoom c
      → let c' = (add p c).1 in
        let before = (get_proposal p.proposal.height p.proposal.round c).0 in
        ((add p c).0 ≡ added before)
        × ((get_proposal p.proposal.height p.proposal.round c').0 ≡ some (first_of before p))
        × ((height round : ℕ)
            → (nat_beq p.proposal.height height && nat_beq p.proposal.round round) ≡ false
            → KeptOrLost (get_proposal height round c).0 (get_proposal height round c').0)
        × HasRoom c'
  add-get_proposal p c room =
      let h = p.proposal.height in
      let r = p.proposal.round in
      let c' = (add p c).1 in
      let rc = or_empty (lru_peek h c.proposals) in
      let open_room = opened_room h c room in
      let (result, inner) = add_round-Updates r p rc open_room in
      let (same, u) = add-Updates p c room in
      let before : (get_proposal h r c).0 ≡ lru_peek r rc.round_proposals =
        get_proposal-view h r c ∙ viewed r (lru_peek h c.proposals) in
      (
        rw before (same ∙ result),
        rw (before, get_proposal-view h r c', u.self) inner.self,
        (λ height round differ.
            rw (get_proposal-view height round c, get_proposal-view height round c')
              (elim (Bool-cases (nat_beq h height)) [
                | inl here ↦
                    let at : h ≡ height = (nat_beq_iff h height).0 here in
                    rw (← at, u.self, viewed round (lru_peek h c.proposals))
                      (inner.other round
                        (λ e. ground (arith, here, differ, e, nat_beq_iff r round)))
                | inr away ↦
                    let ne : h ≢ height = λ at. ground arith in
                    elim (u.other height ne) [
                      | inl kept ↦ inl (ap (view_round round) kept)
                      | inr lost ↦ inr (ap (view_round round) lost)
                    ]
              ])),
        record {
          heights = rw u.capacity room.heights;
          rounds =
              Updates-all laws (λ (k : ProposalRoundCollector). 0 < laws.capacity k.round_proposals)
                u (rw inner.capacity open_room) room.rounds;
        },
      )

  -- A new collector has room.
  pub new-HasRoom : HasRoom new
  new-HasRoom = record {
    heights = rw (laws.capacity_new cache_n) (omega arith);
    rounds = λ h rc found.
        let same : none ≡ some rc = sym (laws.peek_new h cache_n) ∙ found in absurd (ground arith);
  }
