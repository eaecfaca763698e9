-- ===== src/Finding.antt =====
-- services/finding-service/state_machine.py: the lifecycle of a finding. A finding is a record with
-- a field for each key that this code reads or writes; a key that may be missing, or is read with a
-- default, is an `Option`, and a list that may be missing is empty (the code reads both alike).
-- Floats are the parameter `Floats`; the settings read from the environment are `Settings`. A JSON
-- object that is only passed on (summary) is its text. The values of `iocs` are lists, as the Zeek
-- worker sends them.
mod Types
mod Lifecycle
pub mod Quality
pub mod Delivery
pub mod Discount
pub mod Routing
pub mod Evidence
pub mod Capture
pub mod Examples
unfoldable pub use Types.*
unfoldable pub use Lifecycle.*
