-- ===== src/X11.antt =====
-- The X11 backend, evgetx11: the interface to Xlib (Api), the members of the event switches and the
-- transformer (State), the switches (EventSwitch, PointerKey, Touch) and the transformer itself.
pub mod Api
pub mod State
pub mod EventSwitch
pub mod PointerKey
pub mod Motion
pub mod Touch
pub mod Refresh
pub mod Transformer
pub mod Outcomes
pub mod Fields
pub mod Origins
pub mod Recorded
pub mod Entries
pub mod Axes
pub mod Scrolling
pub mod Events
pub mod Faults
pub mod Valuators
pub mod Growth
pub mod Runs
mod Examples
