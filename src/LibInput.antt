-- ===== src/LibInput.antt =====
-- The libinput backend, evgetlibinput: the interfaces to libinput and xkbcommon (Api), and the
-- transformer of events (State and the modules after it).
pub mod Api
pub mod State
pub mod Values
pub mod Handlers
pub mod Transformer
pub mod BaseFields
pub mod Provenance
pub mod Setters
pub mod Origins
pub mod EntryTypes
pub mod Contexts
pub mod Frames
pub mod Runs
pub mod Devices
pub mod Motion
pub mod Touch
pub mod TouchPositions
mod Examples
