-- ===== src/Common.antt =====
-- Code of common/: the error contract and the protocol models that the services share.
pub mod Errors
pub mod Protocol
pub mod Tests
