-- ===== src/Driver/Configure/Managers.antt =====
-- The sync managers that `configureWG05pd` puts together.
use pr2_ether_cat_no_ros.Base.{
  ℕ, ◌+◌, ◌≤◌, ◌≡◌, refl, ◌⊎◌, inl, inr, true, List, [], ◌∷◌, arith, length, set, All,
}
use pr2_ether_cat_no_ros.Eml.SlaveMemory.{
  SyncMan, BufferType, Direction, buffered, queued, read_from_master, written_from_master,
}
use pr2_ether_cat_no_ros.Eml.SlaveConf.{PdConfig}
use pr2_ether_cat_no_ros.Eml.Library.{Library, IsDocumented}
use pr2_ether_cat_no_ros.Driver.State.{command_size, status_size}
use pr2_ether_cat_no_ros.Driver.Configure.{
  wg05_sync_mans, command_phy_addr, status_phy_addr, mbx_command_phy_addr, mbx_command_size,
  mbx_status_phy_addr, mbx_status_size,
}

-- The area of the slave's memory that a sync manager guards, its kind and its direction.
abbrev pub Guards : ℕ → ℕ → BufferType → Direction → SyncMan → Type 0
Guards start size t d s =
    (s.physical_start_address ≡ start)
    × (s.length ≡ size)
    × (s.buffer_type ≡ t)
    × (s.direction ≡ d)
    × (s.channel_enable ≡ true)

-- Two areas that do not overlap.
abbrev pub Apart : SyncMan → SyncMan → Type 0
Apart s t =
    (s.physical_start_address + s.length ≤ t.physical_start_address)
    ⊎ (t.physical_start_address + t.length ≤ s.physical_start_address)

-- Every pair of the managers has areas that do not overlap.
abbrev pub AllApart : List SyncMan → Type 0
AllApart [] = Unit
AllApart (s ∷ l) = All (Apart s) l × AllApart l

set_four {ℓ} :
    {A : Type ℓ} (l : List A) (x y z w : A)
    → length l ≡ 4
    → set (set (set (set l 0 x) 1 y) 2 z) 3 w ≡ x ∷ y ∷ z ∷ w ∷ []
set_four [] x y z w h = absurd (omega arith)
set_four (a ∷ []) x y z w h = absurd (omega arith)
set_four (a ∷ b ∷ []) x y z w h = absurd (omega arith)
set_four (a ∷ b ∷ c ∷ []) x y z w h = absurd (omega arith)
set_four (a ∷ b ∷ c ∷ d ∷ []) x y z w h = refl
set_four (a ∷ b ∷ c ∷ d ∷ e ∷ l) x y z w h = absurd (omega arith)

Guards-Apart :
    (s t : SyncMan) (a n b m : ℕ) (ts tt' : BufferType) (ds dt : Direction)
    → Guards a n ts ds s
    → Guards b m tt' dt t
    → (a + n ≤ b) ⊎ (b + m ≤ a)
    → Apart s t
Guards-Apart s t a n b m ts tt' ds dt g h o = grind arith

-- Exactly the four managers of a WG05 slave, each enabled, in areas that do not overlap.
abbrev pub IsManaged : PdConfig → Type 0
IsManaged c =
    (sm0 : SyncMan) × (sm1 : SyncMan) × (sm2 : SyncMan) × (sm3 : SyncMan) × (c.sms
      ≡ sm0 ∷ sm1 ∷ sm2 ∷ sm3 ∷ [])
    × Guards command_phy_addr command_size buffered written_from_master sm0
    × Guards status_phy_addr status_size buffered read_from_master sm1
    × Guards mbx_command_phy_addr mbx_command_size queued written_from_master sm2
    × Guards mbx_status_phy_addr mbx_status_size queued read_from_master sm3
    × (sm0.al_event_enable ≡ true)
    × (sm2.al_event_enable ≡ true)
    × AllApart c.sms

module _ {Net : Type 0} (lib : Library Net) (doc : IsDocumented lib) where
  -- The four managers: commands and status, and two mailboxes. Those that the master writes raise an
  -- AL event.
  pub wg05_sync_mans_lem : IsManaged (wg05_sync_mans lib)
  unfolding wg05_sync_mans
  wg05_sync_mans_lem =
      let all = set_four (lib.new_pd_config 4).sms _ _ _ _ (doc.sync_man_room 4) in
      let command : ℕ × ℕ × BufferType × Direction =
        (command_phy_addr, command_size, buffered, written_from_master) in
      let status : ℕ × ℕ × BufferType × Direction =
        (status_phy_addr, status_size, buffered, read_from_master) in
      let mbx_command : ℕ × ℕ × BufferType × Direction =
        (mbx_command_phy_addr, mbx_command_size, queued, written_from_master) in
      let mbx_status : ℕ × ℕ × BufferType × Direction =
        (mbx_status_phy_addr, mbx_status_size, queued, read_from_master) in
      (
        _,
        _,
        _,
        _,
        all,
        guards command_phy_addr command_size buffered written_from_master,
        guards status_phy_addr status_size buffered read_from_master,
        guards mbx_command_phy_addr mbx_command_size queued written_from_master,
        guards mbx_status_phy_addr mbx_status_size queued read_from_master,
        refl,
        refl,
        rw all (
          (
            apart command status (inl (omega arith)),
            (
              apart command mbx_command (inl (omega arith)),
              (apart command mbx_status (inl (omega arith)), tt),
            ),
          ),
          (
            (
              apart status mbx_command (inr (omega arith)),
              (apart status mbx_status (inl (omega arith)), tt),
            ),
            ((apart mbx_command mbx_status (inl (omega arith)), tt), (tt, tt)),
          ),
        ),
      )
    where
      guards :
          (a n : ℕ) (t : BufferType) (d : Direction)
          → Guards a n t d (record (lib.new_sync_man a n t d) { channel_enable = true })
      guards a n t d = (
        doc.sync_man_start a n t d,
        doc.sync_man_length a n t d,
        doc.sync_man_buffer_type a n t d,
        doc.sync_man_direction a n t d,
        refl,
      )

      apart :
          (p q : ℕ × ℕ × BufferType × Direction)
          → (p.0 + p.1 ≤ q.0) ⊎ (q.0 + q.1 ≤ p.0)
          → Apart (lib.new_sync_man p.0 p.1 p.2 p.3) (lib.new_sync_man q.0 q.1 q.2 q.3)
      apart p q o =
          Guards-Apart (record (lib.new_sync_man p.0 p.1 p.2 p.3) { channel_enable = true })
            (record (lib.new_sync_man q.0 q.1 q.2 q.3) { channel_enable = true }) p.0 p.1 q.0 q.1
            p.2 q.2 p.3 q.3 (guards p.0 p.1 p.2 p.3) (guards q.0 q.1 q.2 q.3) o
