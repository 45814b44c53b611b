-- ===== src/RawLlcp.antt =====
-- The raw link control of the parent connection: firmware/radio/src/raw_llcp.c. The children: State has its
-- variables and what it reads of the controller, Detached the parent after its retirement, Parent the parent
-- within the Air, Send the requests and the plans.
pub mod State
pub mod Detached
pub mod Parent
pub mod Keys
pub mod Waiting
pub mod Confirmed
pub mod Plans
pub mod Send
pub mod Bound
mod Examples
