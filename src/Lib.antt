-- ===== src/Lib.antt =====
-- The PR2 EtherCAT driver without ROS: a program that finds the WG05 motor boards of a PR2 on an
-- EtherCAT bus, configures them, and exchanges a command and a status with each in every cycle.
--
-- The program and its model
--
-- * driver/master_driver.cpp and driver/wg05.cpp are modelled by `Driver`. Their global variables
--   are the record `Driver.State.Driver`, which every operation takes and gives back.
--   `Driver.Startup` has what runs before the first cycle (`initializeECatMaster`,
--   `getSlaveHandles`, `setMasterBuffer`, `initializePr2EthercatSlaves`) and after the last
--   (`closeOperationalSlaves`); `Driver.Configure` has `findWG05slaves` and the configuration of
--   FMMUs and sync managers; `Driver.ProcessData` has the cycle (`packCommand`, `txandrx_PD`,
--   `update`); `Driver.Checksum` has `rotateRight8` and `computeChecksum`; `Driver.Status` and
--   `Driver.Monitor` have `WG0XStatus`, `unpackCommand` and `monitorChanges`; `Driver.Race` has
--   `update` and `monitorChanges` in their two threads, step by step, with the mutex between them,
--   and `Driver.ProcessData.Racing` has `packCommand` while `main` writes what it reads;
--   `Driver.Clients` has the tries of `txandrx_PD`, one by one, beside any number of threads in
--   `txandrx_once`; `Driver.Delivery` joins the configuration and the cycle, and
--   `Driver.Reported` the cycle and the monitor; `Driver.Info` has what `slaveInfo`
--   and its callees print.
-- * ethercat_hardware/src/ethercat_com.cpp is modelled by `Com`. `Com.Oob` has the object with its
--   lock and `tx`; `Com.Oob.Threads` has `txandrx_once` as a step relation of any number of threads
--   and the real-time loop, in any interleaving; `Com.Oob.Channel` has what the object promises, a
--   channel for one frame at a time, with no lock and no waiting; `Com.Retry` has the retries and
--   `EthercatDirectCom`.
-- * ethercat_hardware/ethercat_device.h and wg_mailbox.h are modelled by `Hardware`, as far as they
--   declare data or bodies: the structures for diagnostics, the members of `EthercatDevice` and its
--   inline functions, and the places of the mailboxes.
-- * The headers under eml/include are modelled by `Eml`, as far as they hold data or bodies. The
--   bodies in the compiled eml/lib are the parameter `Eml.Library.Library`, with what the headers
--   document of them as `Eml.Library.IsDocumented`. The operating system's answers at the start are
--   the parameter `Answers`.
-- * test/main.cpp is modelled by `Program`: `main` from the start to the close, the loop in which the
--   operator enters amplitudes (`Program.Operator`), and the three threads with the flag
--   `__RUN_THREADS__`, the steps of the two calls of `Driver.Race` and the joins (`Program.Threads`),
--   compared with the sequential `main` in `Program.Threads.Session`. The sequential `main` plays a
--   list of events: cycles, calls of `monitorChanges` and numbers that the operator enters; when the
--   list runs out before the operator has ended the loop, `main` is still in it. What a list of
--   events comes to is in `Program.Events` and `Program.Played`. `Driver.Loop` has the rounds of
--   the real-time loop alone, with what the network sees of them (`Driver.ProcessData.View`, the
--   driver without the upper half of its array), and `Timing` the times that the threads compute for
--   their waits.
--
-- The driver and the out-of-band object meet in `txandrx_PD`, which calls `tx` after its last
-- failure; the driver and the library meet in the bytes that `Driver.ProcessData.exchange` hands
-- over and gets back.
--
-- Conventions
--
-- A pointer into the array at `Master_Buffer_` is an offset, a null pointer is `none`, and a read or
-- a write outside the array is a fault, the result `none` of the operation. Machine integers are
-- natural numbers with their wrap-around written out, and signed fields are their patterns. Loops
-- are recursions on the list or on the number of rounds that the source counts, 20 tries of
-- `txandrx_PD` and 10 of `txandrx`, so that no bound is added. `Base` has what the modules share,
-- `Tests` a concrete bus on which the theorems are tried.
--
-- The loop of the operator takes a bound on its rounds, and what is shown of it holds for every bound
-- that is large enough.
--
-- Not modelled: the creation and the priorities of the threads; the sine of the command, which is
-- computed in `double`; the headers of the EtherCAT Master Library that the driver does not use,
-- and the telegram, frame and mailbox classes, whose bodies are compiled: it is another project;
-- and the functions of ethercat_device.h, wg_mailbox.h and wg_eeprom.h, which are declared without
-- bodies and which no other file uses.
pub mod Base
pub mod Eml
pub mod Com
pub mod Hardware
pub mod Driver
pub mod Program
pub mod Timing
pub mod Tests
