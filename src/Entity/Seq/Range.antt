-- ===== src/Entity/Seq/Range.antt =====
-- What the clamped range of internal/entity/seq.go holds.
use nexo_im.Base.{ℤ, ◌≤ℤ◌, ◌↔◌, arith}
use nexo_im.Entity.Seq.{SeqUser, get_visible_range, clamp_seq_range}

-- `lo ≤ n ≤ hi`
abbrev pub Within : ℤ × ℤ → ℤ → Type 0
Within (lo, hi) n = (lo ≤ℤ n) × (n ≤ℤ hi)

-- A sequence number lies in the clamped range exactly when it lies in the requested range and in
-- the user's visible range: clamping is intersection.
pub clamp_seq_range-Within :
    (s : SeqUser) (b e m n : ℤ)
    → Within (clamp_seq_range s b e m) n ↔ Within (b, e) n × Within (get_visible_range s m) n
unfolding clamp_seq_range
clamp_seq_range-Within s b e m n = (λ h. ground arith, λ h. ground arith)
