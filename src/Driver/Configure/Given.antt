-- ===== src/Driver/Configure/Given.antt =====
-- Which slaves have their sync managers after `configureWG05slaves`.
use pr2_ether_cat_no_ros.Base.{
  ℕ, zero, suc, ◌≡◌, refl, ap, ◌∙◌, true, Option, none, some, List, [], ◌∷◌, ◌==◌, arith, get_elem?,
}
use pr2_ether_cat_no_ros.Eml.SlaveConf.{PdConfig}
use pr2_ether_cat_no_ros.Eml.Library.{Library, IsDocumented}
use pr2_ether_cat_no_ros.Driver.State.{Driver}
use pr2_ether_cat_no_ros.Driver.Configure.{
  wg05_product_code, is_wg05, wg05_sync_mans, configure_wg05_fmmu, configure_wg05_pd,
  configure_each, configure_wg05_slaves,
}
use pr2_ether_cat_no_ros.Driver.Configure.Managers.{IsManaged, wg05_sync_mans_lem}

module _ {Net : Type 0} (lib : Library Net) where
  -- The driver after one round of the loop of `configureWG05slaves`.
  abbrev round_for : Option ℕ → Driver Net → Driver Net
  round_for h d = (configure_wg05_pd lib h (configure_wg05_fmmu lib h d).0).0

  round-product :
      (h : Option ℕ) (q : ℕ) (d : Driver Net)
      → is_wg05 (round_for h d).handlers q ≡ is_wg05 d.handlers q
  unfolding configure_wg05_fmmu configure_wg05_pd
  round-product none q d = refl
  round-product (some p) q d = ap (λ (c : ℕ). c == wg05_product_code) same
    where
      same :
          ((round_for (some p) d).handlers q).conf.product_code ≡ (d.handlers q).conf.product_code
      same = ground arith

  round-keeps :
      (h : Option ℕ) (q : ℕ) (d : Driver Net)
      → (d.handlers q).conf.pd_config ≡ some (wg05_sync_mans lib)
      → ((round_for h d).handlers q).conf.pd_config ≡ some (wg05_sync_mans lib)
  unfolding configure_wg05_fmmu configure_wg05_pd
  round-keeps none q d e = e
  round-keeps (some p) q d e = ground arith

  round-gives :
      (p : ℕ) (d : Driver Net)
      → is_wg05 d.handlers p ≡ true
      → ((round_for (some p) d).handlers p).conf.pd_config ≡ some (wg05_sync_mans lib)
  unfolding configure_wg05_fmmu configure_wg05_pd
  round-gives p d w = ground arith

  each-keeps :
      (hs : List (Option ℕ)) (q : ℕ) (d : Driver Net)
      → (d.handlers q).conf.pd_config ≡ some (wg05_sync_mans lib)
      → ((configure_each lib hs d).handlers q).conf.pd_config ≡ some (wg05_sync_mans lib)
  unfolding configure_each
  each-keeps [] q d e = e
  each-keeps (h ∷ hs) q d e = each-keeps hs q (round_for h d) (round-keeps h q d e)

  each-gives :
      (hs : List (Option ℕ)) (i p : ℕ) (d : Driver Net)
      → get_elem? hs i ≡ some (some p)
      → is_wg05 d.handlers p ≡ true
      → ((configure_each lib hs d).handlers p).conf.pd_config ≡ some (wg05_sync_mans lib)
  unfolding configure_each
  each-gives [] i p d e w = cc
  each-gives (h ∷ hs) zero p d e w =
      let same : h ≡ some p = cc in
      each-keeps hs p (round_for h d)
        (ap (λ x. ((round_for x d).handlers p).conf.pd_config) same ∙ round-gives p d w)
  each-gives (h ∷ hs) (suc i) p d e w =
      each-gives hs i p (round_for h d) e (round-product h p d ∙ w)

  -- With a library that behaves as documented, after `configureWG05slaves` every WG05 slave whose
  -- handle is in the list has exactly four sync managers: for commands and status, and for two
  -- mailboxes, each of them enabled, in areas that do not overlap, and with an AL event for the two
  -- that the master writes. What else the list holds, null pointers included, makes no difference.
  pub slaves-IsManaged :
      IsDocumented lib
      → (i p : ℕ) (d : Driver Net) → get_elem? d.wg05_slave_handles i ≡ some (some p)
      → is_wg05 d.handlers p ≡ true
      → (c : PdConfig) × (((configure_wg05_slaves lib d).handlers p).conf.pd_config ≡ some c)
        × IsManaged c
  unfolding configure_wg05_slaves
  slaves-IsManaged doc i p d e w =
      (wg05_sync_mans lib, each-gives d.wg05_slave_handles i p d e w, wg05_sync_mans_lem lib doc)
