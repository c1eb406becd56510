-- ===== src/Resolver/Verdict/Chain.antt =====
-- resolver/query.go: which signatures count for a version, as a relation.
use tillit.Base.{Bytes, true, false, List, In, ◌≡◌, ◌≢◌}
use tillit.Models.Payload.{level_rejected}
use tillit.Resolver.Verdict.{SigInfo, covers}
use tillit.Resolver.Verdict.Aggregate.{IsPositive}

-- The signature is about the version: an exact decision of it, or a delta around it.
pub data Matches (s : SigInfo) (v : Bytes) : Type 0 where
  exactly : s.is_delta ≡ false → s.exact_version ≡ v → Matches s v
  within : s.is_delta ≡ true → covers s v ≡ true → Matches s v

module _ (sigs : List SigInfo) where
  -- Some signature about the version rejects.
  pub data IsRejected (v : Bytes) : Type 0 where
    rejects :
        (s : SigInfo) → In s sigs → Matches s v → s.decision.level ≡ level_rejected → IsRejected v

  -- The signature counts for the version: it is an exact decision, or a delta that rejects, or a
  -- delta whose first version is itself trusted: some positive signature counts for it, and none
  -- rejects it. The chain of such deltas is finite and ends at an exact decision.
  pub data Counts : Bytes → SigInfo → Type 0 where
    exact :
        {v : Bytes} {s : SigInfo}
        → In s sigs
        → s.is_delta ≡ false
        → s.exact_version ≡ v
        → Counts v s
    rejecting :
        {v : Bytes} {s : SigInfo}
        → In s sigs
        → s.is_delta ≡ true
        → covers s v ≡ true
        → s.decision.level ≡ level_rejected
        → Counts v s
    chained :
        {v : Bytes} {s : SigInfo} (t : SigInfo)
        → In s sigs
        → s.is_delta ≡ true
        → covers s v ≡ true
        → s.decision.level ≢ level_rejected
        → Counts s.from_version t
        → IsPositive t.decision.level
        → ¬ IsRejected s.from_version
        → Counts v s
