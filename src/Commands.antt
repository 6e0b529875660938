-- ===== src/Commands.antt =====
-- pkg/socket/cmd: the commands of the chat, and who may run them.
pub mod Handler
pub mod Time
pub mod Stream
pub mod Chat
pub mod Authorized
pub mod Defaults
pub mod Role
pub mod Queue
mod Tests
