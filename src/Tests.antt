-- ===== src/Tests.antt =====
-- Concrete runs of the models, and the theorems at concrete inputs.
pub mod Samples
pub mod Hap
pub mod CodeSign
pub mod App
pub mod Runnable
pub mod Materials
pub mod Profile
pub mod Store
pub mod Manager
pub mod Agc
pub mod Json
pub mod Device
pub mod Auth
pub mod Http
pub mod Cli
