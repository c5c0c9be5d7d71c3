-- ===== src/Objects/Kinds.antt =====
-- The enumerations of src/objects.rs and their numbers on the wire and in the log.
use bft_rs.Prelude.{
  ℕ, ◌≡◌, Bool, true, BftResult, ok, panic, arith, ltb, leb, Eq, nat_beq, if◌then◌else◌, ◌==◌,
  nat_eq, ◌↔◌,
}

pub data Step : Type 0 where
  propose propose_wait prevote prevote_wait verify_wait : Step
  precommit precommit_wait commit commit_wait : Step

pub data VoteType : Type 0 where
  prevote precommit : VoteType

pub data LogType : Type 0 where
  proposal vote status proof feed verify_resp time_out_info block : LogType

pub data PrecommitRes : Type 0 where
  above below nil proposal : PrecommitRes

pub data VerifyResult : Type 0 where
  approved failed undetermined : VerifyResult

-- `Into<u8>`. The derived order of the steps is the order of these numbers.
abbrev pub step_to_u8 : Step → ℕ
step_to_u8 propose = 0
step_to_u8 propose_wait = 1
step_to_u8 Step.prevote = 2
step_to_u8 prevote_wait = 3
step_to_u8 verify_wait = 4
step_to_u8 Step.precommit = 5
step_to_u8 precommit_wait = 6
step_to_u8 commit = 7
step_to_u8 commit_wait = 8

-- `From<u8>`; the variant 4 exists in a build with the feature `verify_req`.
unfoldable pub step_from_u8 : Bool → ℕ → BftResult Step
step_from_u8 verify_req s =
    if s == 0
    then ok propose
    else if s == 1
    then ok propose_wait
    else if s == 2
    then ok Step.prevote
    else if s == 3
    then ok prevote_wait
    else if s == 4
    then (if verify_req then ok verify_wait else panic)
    else if s == 5
    then ok Step.precommit
    else if s == 6
    then ok precommit_wait
    else if s == 7
    then ok commit
    else if s == 8
    then ok commit_wait
    else panic

abbrev pub step_ltb : Step → Step → Bool
step_ltb a b = ltb (step_to_u8 a) (step_to_u8 b)

abbrev pub step_leb : Step → Step → Bool
step_leb a b = leb (step_to_u8 a) (step_to_u8 b)

abbrev pub step_beq : Step → Step → Bool
step_beq a b = nat_beq (step_to_u8 a) (step_to_u8 b)

pub step_to_u8_inj : (a b : Step) → step_to_u8 a ≡ step_to_u8 b → a ≡ b
step_to_u8_inj a b h = ground arith

pub step_beq_iff : (a b : Step) → (step_beq a b ≡ true) ↔ (a ≡ b)
step_beq_iff a b = ground arith

instance abbrev pub step_eq : Eq Step
step_eq = record { beq = step_beq; beq_iff = step_beq_iff }

abbrev pub vote_type_to_u8 : VoteType → ℕ
vote_type_to_u8 VoteType.prevote = 0
vote_type_to_u8 VoteType.precommit = 1

unfoldable pub vote_type_from_u8 : ℕ → BftResult VoteType
vote_type_from_u8 s =
    if s == 0 then ok VoteType.prevote else if s == 1 then ok VoteType.precommit else panic

abbrev pub vote_type_beq : VoteType → VoteType → Bool
vote_type_beq a b = nat_beq (vote_type_to_u8 a) (vote_type_to_u8 b)

pub vote_type_beq_iff : (a b : VoteType) → (vote_type_beq a b ≡ true) ↔ (a ≡ b)
vote_type_beq_iff a b = ground arith

instance abbrev pub vote_type_eq : Eq VoteType
vote_type_eq = record { beq = vote_type_beq; beq_iff = vote_type_beq_iff }

abbrev pub log_type_to_u8 : LogType → ℕ
log_type_to_u8 LogType.proposal = 0
log_type_to_u8 LogType.vote = 1
log_type_to_u8 LogType.status = 2
log_type_to_u8 LogType.proof = 3
log_type_to_u8 LogType.feed = 4
log_type_to_u8 LogType.verify_resp = 5
log_type_to_u8 LogType.time_out_info = 6
log_type_to_u8 LogType.block = 7

unfoldable pub log_type_from_u8 : ℕ → BftResult LogType
log_type_from_u8 s =
    if s == 0
    then ok LogType.proposal
    else if s == 1
    then ok LogType.vote
    else if s == 2
    then ok LogType.status
    else if s == 3
    then ok LogType.proof
    else if s == 4
    then ok LogType.feed
    else if s == 5
    then ok LogType.verify_resp
    else if s == 6
    then ok LogType.time_out_info
    else if s == 7
    then ok LogType.block
    else panic

pub log_type_roundtrip : (t : LogType) → log_type_from_u8 (log_type_to_u8 t) ≡ ok t
unfolding log_type_from_u8
log_type_roundtrip t = ground arith

pub step_roundtrip : (s : Step) → step_from_u8 true (step_to_u8 s) ≡ ok s
unfolding step_from_u8
step_roundtrip s = ground arith
