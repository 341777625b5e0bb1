-- ===== src/Com.antt =====
-- ethercat_hardware/src/ethercat_com.cpp: the two ways to send an EtherCAT frame.
pub mod Oob
pub mod Retry
