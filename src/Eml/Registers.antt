-- ===== src/Eml/Registers.antt =====
-- eml/include/dll/ethercat_slave_memory.h: the table of a slave's registers, and the functions that
-- give the register of a channel.
pub mod Laws
use pr2_ether_cat_no_ros.Base.{ℕ, ◌+◌, List, [], ◌∷◌, ◌==◌, if◌then◌else◌}
use pr2_ether_cat_no_ros.Base.Int.{ℤ, pos, negsuc}

-- `ECAT_Register_Access`: to read, to write, or both.
pub data RegisterAccess : Type 0 where
  r w rw : RegisterAccess

-- `ECAT_Slave_Register_Data`, less the name: the offset address, the access of the master and of
-- the slave, and the number of bytes.
pub record RegisterData : Type 0 where
  pub ado : ℕ
  pub ecat_access : RegisterAccess
  pub uc_access : RegisterAccess
  pub size : ℕ

-- A row of the table.
abbrev pub register : ℕ → RegisterAccess → RegisterAccess → ℕ → RegisterData
register ado ecat uc size = record { ado = ado; ecat_access = ecat; uc_access = uc; size = size }

-- `EC_Slave_RD`, in the order of the enumeration `ECAT_Slave_Registers`, whose values are the
-- positions in this list.
abbrev pub slave_registers : List RegisterData
slave_registers =
    register 0x0000 r r 1
    ∷ register 0x0001 r r 1
    ∷ register 0x0002 r r 2
    ∷ register 0x0004 r r 1
    ∷ register 0x0005 r r 1
    ∷ register 0x0006 r r 1
    ∷ register 0x0010 rw r 2
    ∷ register 0x0100 rw r 2
    ∷ register 0x0110 r r 2
    ∷ register 0x0120 rw r 2
    ∷ register 0x0130 r rw 2
    ∷ register 0x0140 r r 2
    ∷ register 0x0150 r r 5
    ∷ register 0x0220 r r 4
    ∷ register 0x0300 rw r 2
    ∷ register 0x0302 rw r 2
    ∷ register 0x0400 rw r 2
    ∷ register 0x0410 rw r 2
    ∷ register 0x0420 rw r 2
    ∷ register 0x0422 rw r 2
    ∷ register 0x0424 rw r 2
    ∷ register 0x0426 rw r 2
    ∷ register 0x0428 rw r 2
    ∷ register 0x042a rw r 2
    ∷ register 0x042c rw r 2
    ∷ register 0x042e rw r 2
    ∷ register 0x0430 rw r 2
    ∷ register 0x0432 rw r 2
    ∷ register 0x0434 rw r 2
    ∷ register 0x0436 rw r 2
    ∷ register 0x0438 rw r 2
    ∷ register 0x043a rw r 2
    ∷ register 0x043c rw r 2
    ∷ register 0x043e rw r 2
    ∷ register 0x0450 r r 2
    ∷ register 0x0500 r r 2
    ∷ register 0x0502 rw r 2
    ∷ register 0x0504 rw r 4
    ∷ register 0x0508 rw r 4
    ∷ register 0x0600 rw r 16
    ∷ register 0x0610 rw r 16
    ∷ register 0x0620 rw r 16
    ∷ register 0x0630 rw r 16
    ∷ register 0x0640 rw r 16
    ∷ register 0x0650 rw r 16
    ∷ register 0x0660 rw r 16
    ∷ register 0x0670 rw r 16
    ∷ register 0x0680 rw r 16
    ∷ register 0x0690 rw r 16
    ∷ register 0x06a0 rw r 16
    ∷ register 0x06b0 rw r 16
    ∷ register 0x06c0 rw r 16
    ∷ register 0x06d0 rw r 16
    ∷ register 0x06e0 rw r 16
    ∷ register 0x06f0 rw r 16
    ∷ register 0x0800 rw r 8
    ∷ register 0x0808 rw r 8
    ∷ register 0x0810 rw r 8
    ∷ register 0x0818 rw r 8
    ∷ register 0x0820 rw r 8
    ∷ register 0x0828 rw r 8
    ∷ register 0x0830 rw r 8
    ∷ register 0x0838 rw r 8
    ∷ register 0x0840 rw r 8
    ∷ register 0x0848 rw r 8
    ∷ register 0x0850 rw r 8
    ∷ register 0x0858 rw r 8
    ∷ register 0x0860 rw r 8
    ∷ register 0x0868 rw r 8
    ∷ register 0x0870 rw r 8
    ∷ register 0x0878 rw r 8
    ∷ []

-- A `switch` over numbered cases, with the `default` that reports the channel and returns -1.
abbrev pub switch : List (ℕ × ℕ) → ℕ → ℤ
switch [] k = negsuc 0
switch ((c, value) ∷ cs) k = if c == k then pos value else switch cs k

abbrev pub switch_int : List (ℕ × ℕ) → ℤ → ℤ
switch_int cs (pos k) = switch cs k
switch_int cs (negsuc k) = negsuc 0

-- The cases of `FMMUx`.
abbrev pub fmmu_cases : List (ℕ × ℕ)
fmmu_cases =
    (0, 39)
    ∷ (1, 40)
    ∷ (2, 41)
    ∷ (3, 42)
    ∷ (4, 43)
    ∷ (5, 44)
    ∷ (6, 45)
    ∷ (7, 46)
    ∷ (8, 47)
    ∷ (9, 48)
    ∷ (10, 49)
    ∷ (11, 50)
    ∷ (12, 51)
    ∷ (13, 52)
    ∷ (14, 53)
    ∷ (15, 54)
    ∷ []

unfoldable pub fmmu_x : ℤ → ℤ
fmmu_x channel = switch_int fmmu_cases channel

-- The cases of `Sync_Managerx`.
abbrev pub sync_manager_cases : List (ℕ × ℕ)
sync_manager_cases =
    (0, 55)
    ∷ (1, 56)
    ∷ (2, 57)
    ∷ (3, 58)
    ∷ (4, 59)
    ∷ (5, 60)
    ∷ (6, 61)
    ∷ (7, 62)
    ∷ (8, 63)
    ∷ (9, 64)
    ∷ (10, 65)
    ∷ (11, 66)
    ∷ (12, 67)
    ∷ (13, 68)
    ∷ (14, 69)
    ∷ (15, 70)
    ∷ []

unfoldable pub sync_manager_x : ℤ → ℤ
sync_manager_x channel = switch_int sync_manager_cases channel

-- The cases of `Watchdog_Time_Channelx`.
abbrev pub watchdog_time_cases : List (ℕ × ℕ)
watchdog_time_cases =
    (0, 18)
    ∷ (1, 19)
    ∷ (2, 20)
    ∷ (3, 21)
    ∷ (4, 22)
    ∷ (5, 23)
    ∷ (6, 24)
    ∷ (7, 25)
    ∷ (8, 26)
    ∷ (9, 27)
    ∷ (10, 28)
    ∷ (11, 29)
    ∷ (12, 30)
    ∷ (13, 31)
    ∷ (14, 32)
    ∷ (15, 33)
    ∷ []

unfoldable pub watchdog_time_channel_x : ℤ → ℤ
watchdog_time_channel_x channel = switch_int watchdog_time_cases channel
