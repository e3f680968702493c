-- ===== src/Api.antt =====
-- internal/api: the handlers of a node.
pub mod Completion
pub mod Stall
pub mod Gather
pub mod Backend
pub mod App
pub mod Pairing
pub mod Unpair
pub mod Introducer
pub mod Paths
pub mod FolderCalls
pub mod FolderMoves
pub mod Guards
pub mod Accept
pub mod Removal
pub mod Shown
pub mod FolderView
pub mod Wire
pub mod NodeEvents
pub mod Strangers
pub mod Greeting
pub mod UiHub
pub mod Server
pub mod Conflicts
mod Memory
mod Tests
