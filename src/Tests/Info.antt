-- ===== src/Tests/Info.antt =====
-- The theorem on what `fmmuInfo` and `pdInfo` print, for one FMMU and two sync managers.
use pr2_ether_cat_no_ros.Base.{◌≡◌, some, List, [], ◌∷◌, arith}
use pr2_ether_cat_no_ros.Base.Int.{pos}
use pr2_ether_cat_no_ros.Eml.SlaveMemory.{buffered, read_from_master, written_from_master}
use pr2_ether_cat_no_ros.Eml.SlaveConf.{PdConfig, FmmuConfig}
use pr2_ether_cat_no_ros.Driver.Info.{Line, fmmu_info, pd_info}
use pr2_ether_cat_no_ros.Driver.Info.ReadBack.{read_fmmus, read_sync_mans, infos_read_back}
use pr2_ether_cat_no_ros.Tests.{some_fmmu, sync_man}

abbrev two_managers : PdConfig
two_managers = record {
  sms =
      sync_man 4096 8 buffered written_from_master
      ∷ sync_man 8192 44 buffered read_from_master
      ∷ [];
  num_used_sms = 2;
}

abbrev one_fmmu : FmmuConfig
one_fmmu = record { fmmus = some_fmmu ∷ []; num_used_fmmus = 1 }

infos_read_back_example :
    (fmmus : List Line) × (sms : List Line) × (fmmu_info (some one_fmmu)
      ≡ some (Line.number_of_fmmus 1 ∷ fmmus, pos 0))
    × (read_fmmus fmmus ≡ (0, some_fmmu) ∷ [])
    × (pd_info (some two_managers) ≡ some (Line.number_of_sms 2 ∷ sms, pos 0))
    × (read_sync_mans sms
        ≡ (0, sync_man 4096 8 buffered written_from_master)
          ∷ (1, sync_man 8192 44 buffered read_from_master)
          ∷ [])
infos_read_back_example = infos_read_back one_fmmu two_managers (omega arith) (omega arith)
