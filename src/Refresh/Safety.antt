-- ===== src/Refresh/Safety.antt =====
-- The invariant on claims and its lemmas, fencing, and the order of claims.
pub mod Exclusive
pub mod Claim
pub mod ClaimUnderLease
pub mod Settle
pub mod Takeover
pub mod Insert
pub mod Create
pub mod Finalize
pub mod Fencing
pub mod Stale
pub mod Order
pub mod LegacyOrder
