-- ===== src/AutoResponse.antt =====
-- plugins/auto-response/src: answers to incoming messages, and the answers that wait for a user.
pub mod Queue
pub mod Responder
pub mod Message
