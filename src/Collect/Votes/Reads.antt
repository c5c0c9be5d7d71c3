-- ===== src/Collect/Votes/Reads.antt =====
-- `VoteCollector::get_voteset` of src/collectors.rs moves entries to the front of the caches, and
-- changes nothing that is read from them.
use bft_rs.Prelude.{
  ℕ, ◌≡◌, refl, sym, ap, ◌∙◌, some, arith, nat_beq, nat_beq_iff, Bool-cases, Option-cases, inl, inr,
}
use bft_rs.Objects.{VoteType}
use bft_rs.Env.{Env, LruLaws, lru_peek}
use bft_rs.Collect.Cache.{write_back}
use bft_rs.Collect.Votes.{RoundCollector, VoteCollector, get_voteset, get_voteset_round}
use bft_rs.Collect.Votes.View.{view, view_round, view_steps, get_voteset-view, HasRoom}

module _ ⦃env : Env⦄ (laws : LruLaws env) where
  open env use {LruCache, lru_get_mut}

  get_round-view :
      (round round' : ℕ) (t t' : VoteType) (c : RoundCollector)
      → view_round round' t' (get_voteset_round round t c).1 ≡ view_round round' t' c
  unfolding get_voteset_round
  get_round-view round round' t t' c = elim (Option-cases (lru_get_mut round c.round_votes)) [
    | inl e ↦ rw (get_voteset_round, e) refl
    | inr (r, e) ↦
        rw (get_voteset_round, e)
          (ap (view_steps t') (write_back laws round round' c.round_votes r e))
  ]

  get_round-capacity :
      (round : ℕ) (t : VoteType) (c : RoundCollector)
      → laws.capacity (get_voteset_round round t c).1.round_votes ≡ laws.capacity c.round_votes
  unfolding get_voteset_round
  get_round-capacity round t c = elim (Option-cases (lru_get_mut round c.round_votes)) [
    | inl e ↦ rw (get_voteset_round, e) refl
    | inr (r, e) ↦ rw (get_voteset_round, e) (laws.capacity_write round c.round_votes r r.0 e)
  ]

  get-view :
      (height round : ℕ) (t : VoteType) (c : VoteCollector) (height' round' : ℕ) (t' : VoteType)
      → view height' round' t' (get_voteset height round t c).1 ≡ view height' round' t' c
  unfolding get_voteset
  get-view height round t c height' round' t' = elim (Option-cases (lru_get_mut height c.votes)) [
    | inl e ↦ rw (get_voteset, e) refl
    | inr (r, e) ↦
        let rc' = (get_voteset_round round t r.0).1 in
        let write = laws.peek_write height height' c.votes r rc' e in
        elim (Bool-cases (nat_beq height height')) [
          | inl here ↦
              let at : height ≡ height' = (nat_beq_iff height height').0 here in
              let before : lru_peek height' c.votes ≡ some r.0 = rw (← at, e) refl in
              rw (get_voteset, e, write, here, before) (get_round-view round round' t t' r.0)
          | inr there ↦ rw (get_voteset, e, write, there) refl
        ]
  ]

  get-HasRoom :
      (height round : ℕ) (t : VoteType) (c : VoteCollector)
      → HasRoom laws c
      → HasRoom laws (get_voteset height round t c).1
  unfolding get_voteset
  get-HasRoom height round t c room = elim (Option-cases (lru_get_mut height c.votes)) [
    | inl e ↦ rw (get_voteset, e) room
    | inr (r, e) ↦
        let rc' = (get_voteset_round round t r.0).1 in
        record {
          heights = rw (get_voteset, e, laws.capacity_write height c.votes r rc' e) room.heights;
          rounds = λ height' rc found.
              let found' = rw (get_voteset, e) at found in
              let write = laws.peek_write height height' c.votes r rc' e in
              elim (Bool-cases (nat_beq height height')) [
                | inl here ↦
                    let same : some rc' ≡ some rc = rw here at (sym write) ∙ found' in
                    let e' : rc' ≡ rc = ground arith in
                    rw (← e', get_round-capacity round t r.0) (room.rounds height r.0 (rw e refl))
                | inr there ↦ room.rounds height' rc (rw there at (sym write) ∙ found')
              ];
        }
  ]

  -- After a call of `get_voteset`, any call of it gives what it gave before, and the caches keep their
  -- room.
  pub get_voteset-reads :
      (height round : ℕ) (t : VoteType) (c : VoteCollector)
      → HasRoom laws c
      → let c' = (get_voteset height round t c).1 in
        ((height' round' : ℕ) (t' : VoteType)
          → (get_voteset height' round' t' c').0 ≡ (get_voteset height' round' t' c).0)
        × HasRoom laws c'
  get_voteset-reads height round t c room =
      let c' = (get_voteset height round t c).1 in
      (
        (λ height' round' t'.
            get_voteset-view height' round' t' c'
            ∙ get-view height round t c height' round' t'
            ∙ sym (get_voteset-view height' round' t' c)),
        get-HasRoom height round t c room,
      )
