-- ===== src/Gateway.antt =====
-- The model gateway (src/patsquire_plr/gateway): its data (Model), the retry loop (Retry), prompts
-- (Prompt), what a call depends on (Key), and the text and structured calls (Chat).
pub mod Model
pub mod Retry
pub mod Prompt
pub mod Key
pub mod Chat
