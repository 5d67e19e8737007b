-- ===== src/Payments.antt =====
-- src/payments/: the payment gate, replay protection, verification and settlement.
pub mod Challenge
pub mod Eip3009
pub mod Facilitator
pub mod Verifier
pub mod Gate
pub mod Replay
