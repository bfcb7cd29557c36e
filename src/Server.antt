-- ===== src/Server.antt =====
-- internal/server: the redirect to HTTPS, the listeners and the reaction to signals.
pub mod Net
pub mod Redirect
pub mod Listening
pub mod Handlers
pub mod Signals
