-- ===== src/Driver/Reported.antt =====
-- The way back of the data: what `monitorChanges` prints of the reply that an `update` has
-- received.
use mathlib.Core.Option
use pr2_ether_cat_no_ros.Base.{
  ℕ, ◌+◌, ◌*◌, ◌^◌, ◌≤◌, ◌<◌, ◌≡◌, sym, ap, ◌∙◌, subst, ◌↔◌, true, Option, none, some, List, [],
  ◌∷◌, arith, length,
}
use pr2_ether_cat_no_ros.Base.Int.{ℤ, ◌-ℤ◌, abs}
use pr2_ether_cat_no_ros.Base.Memory.{slice}
use pr2_ether_cat_no_ros.Eml.Library.{Library, IsDocumented}
use pr2_ether_cat_no_ros.Driver.State.{Driver, slot_size}
use pr2_ether_cat_no_ros.Driver.ProcessData.{max_pd_retries, update}
use pr2_ether_cat_no_ros.Driver.ProcessData.Ready.{IsReady}
use pr2_ether_cat_no_ros.Driver.ProcessData.Replies.{first_reply, wire}
use pr2_ether_cat_no_ros.Driver.ProcessData.Update.{update_total, update_handles}
use pr2_ether_cat_no_ros.Driver.ProcessData.View.{
  View, view, after_reply, with_command, cycle_view, update-view,
}
use pr2_ether_cat_no_ros.Driver.Monitor.{Monitor, exceeds, monitor_changes}
use pr2_ether_cat_no_ros.Driver.Monitor.Reports.{count}
use pr2_ether_cat_no_ros.Driver.Monitor.Lines.{Printed, OneMoved, Near}
use pr2_ether_cat_no_ros.Driver.Monitor.Calls.{Watched, saved, monitor_changes_lem}
use pr2_ether_cat_no_ros.Driver.Monitor.Blind.{count-slice}

module _ (m got b : List ℕ) (size : ℕ) (front : slice m 0 size ≡ got) where
  count_front : (p : ℕ) → p + slot_size ≤ size → count got p ≡ count m p
  count_front p h =
      ap (λ l. count l p) (sym front) ∙ count-slice m 0 size p h ∙ ap (count m) (omega arith)

  Near-front :
      (hs : List (Option ℕ)) (p q : ℕ)
      → p + slot_size * length hs ≤ size
      → Near hs p q got b
      → Near hs p q m b
  Near-front [] p q h near = tt
  Near-front (x ∷ hs) p q h (close, near) = (
    subst (λ c. abs (c -ℤ count b q) < 2 ^ 31) (count_front p (omega (arith, h))) close,
    Near-front hs (p + slot_size) (q + slot_size) (omega (arith, h)) near,
  )

  OneMoved-front :
      (t : ℤ) (n : ℕ) (x : ℕ × ℤ)
      → slot_size * n ≤ size
      → OneMoved t 0 0 0 m b n x ↔ OneMoved t 0 0 0 got b n x
  OneMoved-front t n x h = (
    (λ (k, le, moved). (k, le, subst (line k) (sym (same k le)) moved)),
    λ (k, le, moved). (k, le, subst (line k) (same k le) moved),
  )
    where
      same : (k : ℕ) → k < n → count got (0 + slot_size * k) ≡ count m (0 + slot_size * k)
      same k le = count_front (0 + slot_size * k) (omega (arith, h, le))

      line : ℕ → ℤ → Type 0
      line k c = (x ≡ (0 + k, c)) × (exceeds (abs (c -ℤ count b (0 + slot_size * k))) t ≡ true)

module _ {Net : Type 0} (lib : Library Net) (doc : IsDocumented lib) where
  reply_frame :
      (demand : ℕ) (d d' : Driver Net) (got : List ℕ)
      → IsReady d
      → 0 < d.master_buffer_size
      → update lib demand d ≡ some d'
      → (first_reply lib max_pd_retries d.net (with_command lib demand (view d)).frame).1 ≡ some got
      → wire d' ≡ got
  unfolding cycle_view
  reply_frame demand d d' got ready some_slot e came =
      let seen : some (view d') ≡ cycle_view lib demand (view d) =
        sym (ap (Option.map (λ x. view x)) e) ∙ update-view lib doc demand d ready some_slot in
      go (with_command lib demand (view d)) (view d')
        (first_reply lib max_pd_retries d.net (with_command lib demand (view d)).frame) came
        (sym seen)
    where
      go :
          (v v' : View Net) (reply : Net × Option (List ℕ))
          → reply.1 ≡ some got
          → after_reply lib v reply ≡ some v'
          → v'.frame ≡ got
      go v v' (net, none) c h = cc
      go v v' (net, some other) c h = cc

  -- With a documented library, ready buffers with `this_buffer_` the lower half, at least one slave
  -- and a backup of the size of a frame: if one of the tries of an `update` is answered and the
  -- differences between the first answer and the backup fit an `int`, then a call of
  -- `monitorChanges` after it, that is not the first, prints exactly the slaves whose encoder count
  -- in that answer differs from the saved one by more than the threshold, each with its number and
  -- its count in the answer.
  pub reply_reported :
      (demand : ℕ) (t : ℤ) (d d' : Driver Net) (s : Monitor) (got : List ℕ)
      → IsReady d
      → 0 < d.master_buffer_size
      → d.this_buffer ≡ some 0
      → update lib demand d ≡ some d'
      → (first_reply lib max_pd_retries d.net (with_command lib demand (view d)).frame).1 ≡ some got
      → s.delta_init ≡ true
      → length s.backup ≡ d.master_buffer_size
      → Near d.slave_handles 0 0 got s.backup
      → (lines : List (ℕ × ℤ)) × (monitor_changes t d' s ≡ some (lines, saved d' 0))
        × ((x : ℕ × ℤ) → Printed x lines ↔ OneMoved t 0 0 0 got s.backup (length d.slave_handles) x)
  reply_reported demand t d d' s got ready some_slot low e came on sized near =
      let (d1, e1, ready1, this1, prev1, size1, kept1) = update_total lib doc demand d ready in
      let same : d1 ≡ d' = cc in
      let ready' : IsReady d' = subst IsReady same ready1 in
      let size' : d'.master_buffer_size ≡ d.master_buffer_size =
        ap (λ (x : Driver Net). x.master_buffer_size) (sym same) ∙ size1 in
      let prev' : d'.prev_buffer ≡ some 0 =
        ap (λ (x : Driver Net). x.prev_buffer) (sym same) ∙ prev1 ∙ low in
      let handles = update_handles lib doc demand d d' ready e in
      let front : slice d'.master_buffer 0 d'.master_buffer_size ≡ got =
        reply_frame demand d d' got ready some_slot e came in
      let w : Watched d' s 0 = record {
        points = prev';
        inside = omega (arith, ready'.sized);
        room = omega (arith, ready'.few, ready'.frame_size);
        backup_size = sized ∙ sym size';
      } in
      let near' : Near d'.slave_handles 0 0 got s.backup =
        subst (λ hs. Near hs 0 0 got s.backup) (sym handles) near in
      let (lines, printed, exactly) = monitor_changes_lem t d' s 0 w on (
        Near-front d'.master_buffer got s.backup d'.master_buffer_size front d'.slave_handles 0 0
          (omega (arith, w.room)) near') in
      (
        lines,
        printed,
        λ x.
            let (to, from) = exactly x in
            let (there, back) =
              OneMoved-front d'.master_buffer got s.backup d'.master_buffer_size front t
                (length d'.slave_handles) x w.room in
            subst (λ hs. Printed x lines ↔ OneMoved t 0 0 0 got s.backup (length hs) x) handles
              ((λ h. there (to h)), λ h. from (back h)),
      )
