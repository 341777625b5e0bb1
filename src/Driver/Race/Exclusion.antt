-- ===== src/Driver/Race/Exclusion.antt =====
-- What holds in every interleaving of `update` and `monitorChanges`.
use pr2_ether_cat_no_ros.Base.{
  ℕ, ◌≡◌, refl, sym, ap, subst, ◌∙◌, ◌⊎◌, inl, inr, false, Option, none, some, List, [], arith,
  length,
}
use pr2_ether_cat_no_ros.Base.Int.{ℤ}
use pr2_ether_cat_no_ros.Base.Memory.{read_bytes, write_bytes, length-splice}
use pr2_ether_cat_no_ros.Eml.Library.{Library, IsDocumented}
use pr2_ether_cat_no_ros.Driver.State.{Driver}
use pr2_ether_cat_no_ros.Driver.ProcessData.Ready.{IsReady}
use pr2_ether_cat_no_ros.Driver.ProcessData.Update.{update_racing-IsUpdated}
use pr2_ether_cat_no_ros.Driver.Race.{
  rt_waiting, rt_working, rt_leaving, MonitorPc, testing, reading, holding, comparing, compared,
  testing_again, wanting, saving, saved_frame, World, Step, rt_lock, rt_update, rt_unlock, enter,
  pass_first, pass_null, read, lock_first, compare, unlock_first, want, skip, lock_second, save,
  unlock_second, Reach, start, step,
}
use pr2_ether_cat_no_ros.Driver.Race.Lock.{
  owns, rt_owns, Locked, rt_takes, rt_frees, monitor_takes, monitor_frees, stays,
}

-- The pointer that the monitor has read and still uses.
abbrev pub pointer_of : MonitorPc → Option ℕ
pointer_of (holding p) = some p
pointer_of (comparing p) = some p
pointer_of _ = none

-- The two threads before their first call, with a backup as
-- `new unsigned char[Master_Buffer_Size_]` gives it.
abbrev pub initial : {Net : Type 0} → Driver Net → List ℕ → World Net
initial d backup = record {
  driver = d;
  mutex = none;
  rt = rt_waiting;
  monitor = testing;
  delta_init = false;
  backup = backup;
  printed = [];
}

module _ {Net : Type 0} where
  pub record Inv (w : World Net) : Type 0 where
    pub ready : IsReady w.driver
    pub backup_size : length w.backup ≡ w.driver.master_buffer_size
    pub locked : Locked w.rt w.monitor w.mutex
    pub open locked use *
    pub at_half :
        (p : ℕ) → pointer_of w.monitor ≡ some p → (p ≡ 0) ⊎ (p ≡ w.driver.master_buffer_size)

  prev_half :
      (d : Driver Net) (p : ℕ)
      → IsReady d
      → d.prev_buffer ≡ some p
      → (p ≡ 0) ⊎ (p ≡ d.master_buffer_size)
  prev_half d p r e = elim (r.halves) [
    | inl (a, b) ↦ inr (ground arith)
    | inr (a, b) ↦ inl (ground arith)
  ]

module _ {Net : Type 0} (lib : Library Net) (doc : IsDocumented lib) where
  saved_size :
      (w : World Net) (p : ℕ) (bytes backup : List ℕ)
      → read_bytes w.driver.master_buffer p w.driver.master_buffer_size ≡ some bytes
      → write_bytes w.backup 0 bytes ≡ some backup
      → length backup ≡ length w.backup
  unfolding write_bytes
  saved_size w p bytes backup c e = ground (arith, length-splice w.backup 0 bytes)

  -- A step that leaves the driver alone.
  pub moves :
      (w v : World Net)
      → Inv w
      → v.driver ≡ w.driver
      → length v.backup ≡ length w.backup
      → Locked v.rt v.monitor v.mutex
      → ((p : ℕ) → pointer_of v.monitor ≡ some p → (p ≡ 0) ⊎ (p ≡ w.driver.master_buffer_size))
      → Inv v
  moves w v inv d b l half = record {
    ready = subst (λ x. IsReady x) (sym d) inv.ready;
    backup_size = b ∙ inv.backup_size ∙ ap (λ x. x.master_buffer_size) (sym d);
    locked = l;
    at_half = λ p h. subst (λ x. (p ≡ 0) ⊎ (p ≡ x.master_buffer_size)) (sym d) (half p h);
  }

  pub Step-Inv : (t : ℤ) (w v : World Net) → Inv w → Step lib t w v → Inv v
  Step-Inv t w v inv (rt_lock a b) =
      moves w v inv refl (refl) (rt_takes inv.locked rt_working b refl) (inv.at_half)
  Step-Inv t w v inv (rt_update demands targets d a e) =
      let u = update_racing-IsUpdated lib doc demands targets w.driver d inv.ready e in
      let size = u.same_size in
      record {
        ready = u.ready;
        backup_size = inv.backup_size ∙ sym size;
        locked = stays inv.locked rt_leaving w.monitor (sym (ap rt_owns a)) refl;
        at_half = λ q h. ground (arith, inv.at_half q h, size);
      }
  Step-Inv t w v inv (rt_unlock a) =
      moves w v inv refl (refl) (rt_frees inv.locked rt_waiting (ap rt_owns a) refl) (inv.at_half)
  Step-Inv t w v inv (enter a b c) =
      moves w v inv refl (refl) (stays inv.locked w.rt reading refl (sym (ap owns a))) (λ q h. cc)
  Step-Inv t w v inv (pass_first a b) =
      moves w v inv refl (refl) (stays inv.locked w.rt testing_again refl (sym (ap owns a)))
        (λ q h. cc)
  Step-Inv t w v inv (pass_null a b) =
      moves w v inv refl (refl) (stays inv.locked w.rt testing_again refl (sym (ap owns a)))
        (λ q h. cc)
  Step-Inv t w v inv (read p a b) =
      moves w v inv refl (refl) (stays inv.locked w.rt (holding p) refl (sym (ap owns a)))
        (λ q h. prev_half w.driver q inv.ready (ground arith))
  Step-Inv t w v inv (lock_first p a b) =
      moves w v inv refl (refl) (monitor_takes inv.locked (comparing p) b refl)
        (λ q h. inv.at_half q (ap pointer_of a ∙ h))
  Step-Inv t w v inv (compare p lines a b) =
      moves w v inv refl (refl) (stays inv.locked w.rt compared refl (sym (ap owns a))) (λ q h. cc)
  Step-Inv t w v inv (unlock_first a) =
      moves w v inv refl (refl) (monitor_frees inv.locked testing_again (ap owns a) refl)
        (λ q h. cc)
  Step-Inv t w v inv (want a b) =
      moves w v inv refl (refl) (stays inv.locked w.rt wanting refl (sym (ap owns a))) (λ q h. cc)
  Step-Inv t w v inv (skip a b) =
      moves w v inv refl (refl) (stays inv.locked w.rt testing refl (sym (ap owns a))) (λ q h. cc)
  Step-Inv t w v inv (lock_second a b) =
      moves w v inv refl (refl) (monitor_takes inv.locked saving b refl) (λ q h. cc)
  Step-Inv t w v inv (save p bytes backup a b c e) =
      moves w v inv refl (saved_size w p bytes backup c e)
        (stays inv.locked w.rt saved_frame refl (sym (ap owns a))) (λ q h. cc)
  Step-Inv t w v inv (unlock_second a) =
      moves w v inv refl (refl) (monitor_frees inv.locked testing (ap owns a) refl) (λ q h. cc)

  pub Reach-Inv :
      (t : ℤ) (d : Driver Net) (backup : List ℕ) (w : World Net)
      → IsReady d
      → length backup ≡ d.master_buffer_size
      → Reach lib t (initial d backup) w
      → Inv w
  Reach-Inv t d backup w r size start = record {
    ready = r;
    backup_size = size;
    locked = record {
      rt_has = λ h. cc;
      monitor_has = λ h. cc;
      has_rt = λ h. cc;
      has_monitor = λ h. cc;
    };
    at_half = λ p h. cc;
  }
  Reach-Inv t d backup w r size (step {v} before m) =
      Step-Inv t v w (Reach-Inv t d backup v r size before) m
