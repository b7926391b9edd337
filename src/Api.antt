-- ===== src/Api.antt =====
-- internal/api: the router, the handlers and their composition.
pub mod Router
pub mod Types
pub mod Handlers
pub mod Server
pub mod Call
pub mod Wrapper
pub mod Keeps
pub mod App
pub mod Enums
pub mod Generated
