-- ===== src/Event.antt =====
-- The event model of evget/include/evget/event and evget/src/event: enumerations and their text
-- (Enums, Names, Format), entries and their fields (Fields, Entry), the list of entries that a
-- transformer returns (Data), the interface of builders (Builder) and the four builders of entries.
pub mod Enums
pub mod Enumerators
pub mod Names
pub mod Format
pub mod Fields
pub mod Entry
pub mod Data
pub mod Builder
pub mod Key
pub mod MouseClick
pub mod MouseMove
pub mod MouseScroll
pub mod Modifiers
pub mod Origin
pub mod Display
