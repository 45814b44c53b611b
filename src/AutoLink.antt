-- ===== src/AutoLink.antt =====
-- The coordinator of the automatic link: firmware/radio/src/auto_link.c. The children: Peer has its state, Acl the
-- packets, Events what an HCI packet does, Commands and Startup the start of a connection and of the
-- audio, Keeper a turn of the loop and Session a whole pass; the others have the proofs.
pub mod Peer
pub mod Acl
pub mod Events
pub mod Commands
pub mod Startup
pub mod Keeper
pub mod Handshake
pub mod Handled
pub mod Staged
pub mod Started
pub mod Kept
pub mod Reassembled
pub mod Delivered
pub mod Session
pub mod Stopped
pub mod Sent
mod Examples
