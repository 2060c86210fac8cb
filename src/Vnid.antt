-- ===== src/Vnid.antt =====
-- pkg/vnid: the reserved VNIDs and the test of a VNID (vnid.go). The children model
-- pkg/vnid/netid: the ranges (netid.go) and the allocator (allocator.go).
pub mod Range
pub mod Bitmap
pub mod ListBitmap
pub mod Allocator
use k8s_ovs.Base.{
  ℕ, ◌^◌, ◌≤◌, ◌<◌, ◌≡◌, ◌⊎◌, Result, ok, err, message, ltb, ◌==◌, if◌then◌else◌, arith, ◌↔◌,
}

-- `uint32((1 << 24) - 1)`.
abbrev pub max_vnid : ℕ
max_vnid = 16777215

abbrev pub min_vnid : ℕ
min_vnid = 10

abbrev pub global_vnid : ℕ
global_vnid = 0

unfoldable pub valid_vnid : ℕ → Result (Unit {0})
valid_vnid vnid =
    if vnid == global_vnid
    then ok tt
    else if ltb vnid min_vnid
    then err (message "VNID must be greater than or equal to MinVNID")
    else if ltb max_vnid vnid
    then err (message "VNID must be less than or equal to MaxVNID")
    else ok tt

-- The VNIDs that are accepted: the global one, and those from MinVNID to MaxVNID.
pub valid_vnid-ok :
    (vnid : ℕ) → (valid_vnid vnid ≡ ok tt) ↔ ((vnid ≡ 0) ⊎ ((10 ≤ vnid) × (vnid < 2 ^ 24)))
unfolding valid_vnid
valid_vnid-ok vnid = ground arith
