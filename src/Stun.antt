-- ===== src/Stun.antt =====
-- src/stun: Session Traversal Utilities for NAT.
pub mod Header
