-- ===== src/Kernel.antt =====
-- src/connect_governance_kernel: the Decision Kernel. It decides from explicit inputs alone.
pub mod Json
pub mod Types
pub mod Timestamp
pub mod Evidence
pub mod Authority
pub mod Evaluate
