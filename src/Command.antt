-- ===== src/Command.antt =====
-- cmd/static-web/main.go: the flags of `serve` and what they make of the configuration.
pub mod Sizes
pub mod Flags
pub mod Units
pub mod Precedence
