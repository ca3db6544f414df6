-- ===== src/Chat.antt =====
-- backend/app/chat: what the model answers to the bounded workspace agent (agent_loop.py).
pub mod Decisions
