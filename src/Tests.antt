-- ===== src/Tests.antt =====
-- Concrete runs of the model, and the theorems at concrete inputs.
pub mod Machines
pub mod Run
pub mod Alu
pub mod Shifts
pub mod Fields
pub mod Pins
pub mod Packets
pub mod Clock
pub mod Serial
pub mod Registers
pub mod Display
pub mod Uploads
pub mod Timers
pub mod Debugging
pub mod Rounds
mod Starts
mod Serving
mod Listings
