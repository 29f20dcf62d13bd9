-- ===== src/Ac108.antt =====
-- The microphone codec driver (ac108.c) over the kernel's register maps.
pub mod Bits
pub mod Registers
pub mod Regmap
pub mod Clock
pub mod Format
pub mod Params
pub mod Controls
pub mod Device
pub mod Works
pub mod Acts
pub mod Pll
pub mod Checks
pub mod BitClock
pub mod Roles
pub mod StartStop
pub mod Slots
pub mod Volume
