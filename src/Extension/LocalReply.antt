-- ===== src/Extension/LocalReply.antt =====
-- internal/extensionserver/mutate/localreply.go
pub mod Escape
pub mod Percent
pub mod EscapeSafe
pub mod AssertSafe
pub mod Inject
pub mod InjectSafe
