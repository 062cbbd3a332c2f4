-- ===== src/Ocip.antt =====
-- plugins/ocip-protocol/src: agent-to-agent exchanges, from the envelope to the hooks.
pub mod Envelope
pub mod Parser
pub mod Commitment
pub mod Counter
pub mod Filter
pub mod CrossOrg
pub mod Logger
pub mod Session
pub mod Hooks
