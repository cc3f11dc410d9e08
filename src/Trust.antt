-- ===== src/Trust.antt =====
-- internal/types: signed envelopes, the fleet trust root, grants and their downgrades.
pub mod Signed
pub mod MultiSigned
pub mod FleetState
pub mod Grant
pub mod RootKeys
