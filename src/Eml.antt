-- ===== src/Eml.antt =====
-- The headers of the EtherCAT Master Library under eml/include: the data types that the driver
-- builds and reads, and the functions whose bodies the headers hold. The bodies that are only in
-- the compiled eml/lib are the operations of `Library`, which the driver takes as a parameter.

pub mod SlaveMemory
pub mod SlaveConf
pub mod Library
pub mod Wire
pub mod Registers
pub mod Al
