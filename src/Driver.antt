-- ===== src/Driver.antt =====
-- driver/wg05.cpp and driver/master_driver.cpp, by what they do.
pub mod State
pub mod Checksum
pub mod ProcessData
pub mod Configure
pub mod Startup
pub mod Status
pub mod Monitor
pub mod Info
pub mod Loop
pub mod Race
pub mod Clients
pub mod Delivery
pub mod Reported
