-- ===== src/Webhook.antt =====
-- internal/webhook: Forgejo webhooks and manual scheduling.
pub mod Event
pub mod Auth
pub mod Handler
mod Tests
