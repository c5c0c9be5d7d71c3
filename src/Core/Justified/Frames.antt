-- ===== src/Core/Justified/Frames.antt =====
-- The frames of the justified lock, and of a height with its authorities.
use bft_rs.Prelude.{ℕ, ◌≡◌, refl, sym, ◌∙◌, none, Option, arith}
use bft_rs.Objects.{AuthorityManage, LockStatus, VoteType}
use bft_rs.Env.{Env}
use bft_rs.Checks.Votes.{check_vote}
use bft_rs.Checks.Save.{check_and_save_vote}
use bft_rs.Machine.State.{Bft}
use bft_rs.Machine.Monad.Keeps.{Keeps, Keeps-both}
use bft_rs.Machine.Access.{votes_get}
use bft_rs.Core.Height.{Frame, Free, frame_of, votes_get-Keeps, save_vote-Keeps, check_vote-Keeps}
use bft_rs.Core.Commits.Stored.{save_vote-changes}
use bft_rs.Core.Commits.Within.{check_vote-changes}
use bft_rs.Core.Justified.{LockIsJustified}

module _ ⦃env : Env⦄ where
  -- Two conditions with a frame have one together.
  pub Frame-both : {P Q : Bft → Type 0} → Frame P → Frame Q → Frame (λ s. P s × Q s)
  Frame-both f g = record {
    move = λ s s' h b m v l k at. (f.move s s' h b m v l k at.0, g.move s s' h b m v l k at.1);
    unlocks = λ s s' h b m v l at. (f.unlocks s s' h b m v l at.0, g.unlocks s s' h b m v l at.1);
    corrupts =
        λ s s' h b m v l at. (f.corrupts s s' h b m v l at.0, g.corrupts s s' h b m v l at.1);
    reads = λ h r t. Keeps-both _ (f.reads h r t) (g.reads h r t);
    stores = λ v w. Keeps-both _ (f.stores v w) (g.stores v w);
    vets = λ h r hash v. Keeps-both _ (f.vets h r hash v) (g.vets h r hash v);
  }

  -- The height and the authorities are these.
  abbrev pub Pinned : ℕ → AuthorityManage → Bft → Type 0
  Pinned height manage s = (s.height ≡ height) × (s.authority_manage ≡ manage)

  votes_get-Pinned :
      (height : ℕ) (manage : AuthorityManage) (h r : ℕ) (t : VoteType)
      → Keeps (Pinned height manage) (votes_get h r t)
  unfolding votes_get
  votes_get-Pinned height manage h r t = record { at = λ s at. at }

  pub pinned : (height : ℕ) (manage : AuthorityManage) → Frame (Pinned height manage)
  pinned height manage = record {
    move = λ s s' h b m v l k at. (h ∙ at.0, m ∙ at.1);
    unlocks = λ s s' h b m v l at. (h ∙ at.0, m ∙ at.1);
    corrupts = λ s s' h b m v l at. (h ∙ at.0, m ∙ at.1);
    reads = votes_get-Pinned height manage;
    stores = λ v w. record {
      at = λ s at. let (h, m, _) = save_vote-changes v w s in (h ∙ at.0, m ∙ at.1);
    };
    vets = λ h r hash v. record {
      at = λ s at. let (h', m, _) = check_vote-changes h r hash v s in (h' ∙ at.0, m ∙ at.1);
    };
  }

  -- The lock is this one, or there is none.
  held : (l : Option LockStatus) → Free (λ s. s.lock_status ≡ l)
  held l = record { move = λ s s' h b l k at. l ∙ at }

  -- There is no lock.
  abbrev pub IsUnlocked : Bft → Type 0
  IsUnlocked s = s.lock_status ≡ none

  pub IsUnlocked-Free : Free IsUnlocked
  IsUnlocked-Free = held none

  pub IsUnlocked-Frame : Frame IsUnlocked
  IsUnlocked-Frame = frame_of IsUnlocked-Free (λ s s' h b l at. l) (λ s s' h b l at. l ∙ at)

  same_lock :
      (s s' : Bft)
      → s'.height ≡ s.height
      → s'.authority_manage ≡ s.authority_manage
      → s'.lock_status ≡ s.lock_status
      → LockIsJustified s
      → LockIsJustified s'
  same_lock s s' height manage same at lock locked =
      rw (height, manage) (at lock (sym same ∙ locked))

  pub unlocked : (s : Bft) → s.lock_status ≡ none → LockIsJustified s
  unlocked s free lock locked = absurd (ground (arith, free, locked))

  pub lock_frame : Frame LockIsJustified
  lock_frame = record {
    move = λ s s' h b m v l k at. same_lock s s' h m l at;
    unlocks = λ s s' h b m v l at. unlocked s' l;
    corrupts = λ s s' h b m v l at. same_lock s s' h m l at;
    reads = λ h r t. record {
      at = λ s at.
          let same = ((pinned s.height s.authority_manage).reads h r t).at s (refl, refl) in
          same_lock s (votes_get h r t s).1 same.0 same.1
            ((votes_get-Keeps (held s.lock_status) h r t).at s refl) at;
    };
    stores = λ v w. record {
      at = λ s at.
          let (height, manage, _) = save_vote-changes v w s in
          same_lock s (check_and_save_vote v w s).1 height manage
            ((save_vote-Keeps (held s.lock_status) v w).at s refl) at;
    };
    vets = λ h r hash v. record {
      at = λ s at.
          let (height, manage, _) = check_vote-changes h r hash v s in
          same_lock s (check_vote h r hash v s).1 height manage
            ((check_vote-Keeps (held s.lock_status) h r hash v).at s refl) at;
    };
  }
