-- ===== src/HostTunnel.antt =====
-- The tunnel that the desktop of a host asks the relay for: `createHostTunnelPlan`, whose frames are
-- what the relay's `openHostTunnel` and `closeHostTunnel` are handed, and `createHostTunnelUiState`.
pub mod Redaction
pub mod Plan
pub mod Proofs
