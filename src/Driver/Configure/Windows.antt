-- ===== src/Driver/Configure/Windows.antt =====
-- Where in the process data `configureWG05slaves` puts the windows of each slave.
use pr2_ether_cat_no_ros.Base.{
  ℕ, zero, suc, ◌+◌, ◌*◌, ◌%◌, ◌^◌, ◌<◌, ◌≡◌, ◌≢◌, refl, sym, ap, ◌∙◌, true, false, some, List, [],
  ◌∷◌, map, ◌==◌, arith, length, get_elem?, set, All,
}
use mathlib.Core.Path.{ap₂, subst}
use native.Mathlib.Nat.{add-zero}
use pr2_ether_cat_no_ros.Eml.SlaveMemory.{Fmmu}
use pr2_ether_cat_no_ros.Eml.SlaveConf.{FmmuConfig, SlaveHandler}
use pr2_ether_cat_no_ros.Eml.Library.{Library, IsDocumented}
use pr2_ether_cat_no_ros.Driver.State.{Driver, command_size, status_size, slot_size}
use pr2_ether_cat_no_ros.Driver.Configure.{
  command_phy_addr, status_phy_addr, wg05_product_code, is_wg05, wg05_fmmus, configure_wg05_fmmu,
  configure_wg05_pd, configure_each,
}

-- The FMMU that maps the command of a slave to `start`, and the one that maps its status.
abbrev pub command_window : ℕ → Fmmu
command_window start = record {
  logical_start_address = start;
  length = command_size;
  logical_start_bit = 0;
  logical_end_bit = 7;
  physical_start_address = command_phy_addr;
  physical_start_bit = 0;
  read_enable = false;
  write_enable = true;
  channel_enable = true;
}

abbrev pub status_window : ℕ → Fmmu
status_window start = record {
  logical_start_address = start;
  length = status_size;
  logical_start_bit = 0;
  logical_end_bit = 7;
  physical_start_address = status_phy_addr;
  physical_start_bit = 0;
  read_enable = true;
  write_enable = false;
  channel_enable = true;
}

-- The slave's two windows are next to each other, from `start` on.
abbrev pub HasWindows : ℕ → SlaveHandler → Type 0
HasWindows start sh =
    (c : FmmuConfig) × (sh.conf.fmmu_config ≡ some c)
    × (c.fmmus ≡ command_window start ∷ status_window (start + command_size) ∷ [])

abbrev pub Distinct : List ℕ → Type 0
Distinct [] = Unit
Distinct (p ∷ ps) = All (λ q. q ≢ p) ps × Distinct ps

abbrev pub AllWg05 : (ℕ → SlaveHandler) → List ℕ → Type 0
AllWg05 handlers ps = All (λ p. is_wg05 handlers p ≡ true) ps

set_both {ℓ} : {A : Type ℓ} (l : List A) (x y : A) → length l ≡ 2 → set (set l 0 x) 1 y ≡ x ∷ y ∷ []
set_both [] x y h = absurd (omega arith)
set_both (a ∷ []) x y h = absurd (omega arith)
set_both (a ∷ b ∷ []) x y h = refl
set_both (a ∷ b ∷ c ∷ l) x y h = absurd (omega arith)

module _ {Net : Type 0} (lib : Library Net) where
  -- The driver after both configurations of a WG05 slave.
  abbrev configured : ℕ → Driver Net → Driver Net
  configured p d = (configure_wg05_pd lib (some p) (configure_wg05_fmmu lib (some p) d).0).0

  configured_address :
      (p : ℕ) (d : Driver Net)
      → is_wg05 d.handlers p ≡ true
      → d.start_address + slot_size < 2 ^ 32
      → (configured p d).start_address ≡ d.start_address + slot_size
  unfolding configure_wg05_fmmu configure_wg05_pd
  configured_address p d w h = ground arith

  configured_product :
      (p q : ℕ) (d : Driver Net)
      → ((configured p d).handlers q).conf.product_code ≡ (d.handlers q).conf.product_code
  unfolding configure_wg05_fmmu configure_wg05_pd
  configured_product p q d = ground arith

  configured_other : (p q : ℕ) (d : Driver Net) → q ≢ p → (configured p d).handlers q ≡ d.handlers q
  unfolding configure_wg05_fmmu configure_wg05_pd
  configured_other p q d h = ground arith

  configured_fmmus :
      (p : ℕ) (d : Driver Net)
      → is_wg05 d.handlers p ≡ true
      → ((configured p d).handlers p).conf.fmmu_config ≡ some (wg05_fmmus lib d.start_address)
  unfolding configure_wg05_fmmu configure_wg05_pd
  configured_fmmus p d w = ground arith

  still_wg05 :
      (p q : ℕ) (d : Driver Net) → is_wg05 (configured p d).handlers q ≡ is_wg05 d.handlers q
  still_wg05 p q d = ap (λ (c : ℕ). c == wg05_product_code) (configured_product p q d)

  configured-AllWg05 :
      (p : ℕ) (d : Driver Net) (ps : List ℕ)
      → AllWg05 d.handlers ps
      → AllWg05 (configured p d).handlers ps
  configured-AllWg05 p d [] h = tt
  configured-AllWg05 p d (q ∷ ps) h = (still_wg05 p q d ∙ h.0, configured-AllWg05 p d ps h.1)

  -- A slave that is not in the list keeps its configuration.
  pub configure_each_other :
      (ps : List ℕ) (q : ℕ) (d : Driver Net)
      → All (λ p. p ≢ q) ps
      → (configure_each lib (map some ps) d).handlers q ≡ d.handlers q
  unfolding configure_each
  configure_each_other [] q d h = refl
  configure_each_other (p ∷ ps) q d h =
      configure_each_other ps q (configured p d) h.1 ∙ configured_other p q d (λ e. h.0 (sym e))

  configure_each_address :
      (ps : List ℕ) (d : Driver Net)
      → AllWg05 d.handlers ps
      → d.start_address + slot_size * length ps < 2 ^ 32
      → (configure_each lib (map some ps) d).start_address ≡ d.start_address + slot_size * length ps
  unfolding configure_each
  configure_each_address [] d w h = omega arith
  configure_each_address (p ∷ ps) d w h =
      let next = configured_address p d w.0 (omega arith) in
      omega (
        arith,
        next,
        configure_each_address ps (configured p d) (configured-AllWg05 p d ps w.1)
            (omega (arith, next)),
      )

  module _ (doc : IsDocumented lib) where
    wg05_fmmus_windows :
        (start : ℕ)
        → start + slot_size < 2 ^ 32
        → (wg05_fmmus lib start).fmmus
          ≡ command_window start ∷ status_window (start + command_size) ∷ []
    unfolding wg05_fmmus
    wg05_fmmus_windows start h =
        let next : (start + command_size) % 2 ^ 32 ≡ start + command_size = omega arith in
        rw next (
          set_both (lib.new_fmmu_config 2).fmmus _ _ (doc.fmmu_room 2)
          ∙ ap₂ (λ x y. x ∷ y ∷ []) (doc.fmmu_fields _ _ _ _ _ _ _ _ _)
              (doc.fmmu_fields _ _ _ _ _ _ _ _ _))

    configured-HasWindows :
        (p : ℕ) (d : Driver Net)
        → is_wg05 d.handlers p ≡ true
        → d.start_address + slot_size < 2 ^ 32
        → HasWindows d.start_address ((configured p d).handlers p)
    configured-HasWindows p d w h = (
      wg05_fmmus lib d.start_address,
      configured_fmmus p d w,
      wg05_fmmus_windows d.start_address h,
    )

    -- The slave `k` of a list of distinct WG05 slaves gets the `k`th slot from `start_address` on.
    pub configure_each-HasWindows :
        (ps : List ℕ) (k p : ℕ) (d : Driver Net)
        → AllWg05 d.handlers ps
        → Distinct ps
        → d.start_address + slot_size * length ps < 2 ^ 32
        → get_elem? ps k ≡ some p
        → HasWindows
            (d.start_address + slot_size * k)
            ((configure_each lib (map some ps) d).handlers p)
    unfolding configure_each
    configure_each-HasWindows [] k p d w apart h at = cc
    configure_each-HasWindows (q ∷ ps) zero p d w apart h at =
        let same : q ≡ p = cc in
        let other : All (λ r. r ≢ p) ps = rw (← same) (apart.0) in
        rw (configure_each_other ps p (configured q d) other) (
          subst (λ r. HasWindows (d.start_address + 0) ((configured q d).handlers r)) same
            (rw add-zero (configured-HasWindows q d w.0 (omega arith))))
    configure_each-HasWindows (q ∷ ps) (suc k) p d w apart h at =
        let next = configured_address q d w.0 (omega arith) in
        subst (λ a. HasWindows a ((configure_each lib (map some ps) (configured q d)).handlers p))
          (omega (arith, next))
          (configure_each-HasWindows ps k p (configured q d) (configured-AllWg05 q d ps w.1) apart.1
            (omega (arith, next)) at)
