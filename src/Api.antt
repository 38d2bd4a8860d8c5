-- ===== src/Api.antt =====
-- internal/api: the handlers of the dashboard that change state.
pub mod Dlq
pub mod Rules
pub mod Replays
