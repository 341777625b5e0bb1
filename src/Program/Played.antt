-- ===== src/Program/Played.antt =====
-- What the events do to the program of test/main.cpp between the start and the close.
use pr2_ether_cat_no_ros.Base.{
  ℕ, ◌≤◌, ◌≡◌, refl, sym, ap, ◌∙◌, ◌⊎◌, inl, inr, Bool, true, false, not, ◌&&◌, Option, none, some,
  List, [], ◌∷◌, ◌++◌, map, ◌>>=◌, arith, length, if◌then◌else◌, Bool-cases,
}
use pr2_ether_cat_no_ros.Base.Int.{ℤ}
use pr2_ether_cat_no_ros.Base.Memory.{length-slice}
use pr2_ether_cat_no_ros.Eml.Library.{Library, IsDocumented}
use pr2_ether_cat_no_ros.Driver.ProcessData.Ready.{IsReady}
use pr2_ether_cat_no_ros.Driver.ProcessData.Update.{update_racing_total}
use pr2_ether_cat_no_ros.Driver.Monitor.{monitor_changes}
use pr2_ether_cat_no_ros.Driver.Monitor.Lines.{Near}
use pr2_ether_cat_no_ros.Driver.Monitor.Calls.{
  Watched, saved, monitor_changes_lem, first_call, later_call,
}
use pr2_ether_cat_no_ros.Program.Ready.{with_target}
use pr2_ether_cat_no_ros.Program.{
  Event, cycle, checked, entered_target, entered_amplitude, Run, encoder_threshold_movement, happen,
  session,
}
use pr2_ether_cat_no_ros.Program.Events.{still_asked, last_target, lower_after, was_checked}

abbrev pub half : Bool → ℕ → Option ℕ
half lower size = if lower then some 0 else some size

prev_at :
    (lower : Bool) (size : ℕ) (o : Option ℕ)
    → o ≡ half (not lower) size
    → (p : ℕ) × (o ≡ some p) × (p ≤ size)
prev_at true size o e = (size, e, omega arith)
prev_at false size o e = (0, e, omega arith)

module _ {Net : Type 0} where
  -- Ready buffers with `this_buffer_` the lower half or the upper, a backup of the size of a frame,
  -- the target slave, and whether the operator is still asked.
  pub record At (ps : List ℕ) (size : ℕ) (lower : Bool) (target : ℕ) (asking seen : Bool)
      (r : Run Net) : Type 0 where
    pub ready : IsReady r.driver
    pub handles : r.driver.slave_handles ≡ map some ps
    pub size_is : r.driver.master_buffer_size ≡ size
    pub this_is : r.driver.this_buffer ≡ half lower size
    pub prev_is : r.driver.prev_buffer ≡ half (not lower) size
    pub target_is : r.driver.target_slave ≡ target
    pub backup_size : length r.monitor.backup ≡ size
    pub asking_is : r.asking ≡ asking
    pub seen_is : r.monitor.delta_init ≡ seen

  -- A call of `monitorChanges` in which a difference of two counts is no `int`.
  abbrev pub Overflows : Run Net → Type 0
  Overflows r =
      (p : ℕ) × (r.driver.prev_buffer ≡ some p)
      × (r.monitor.delta_init ≡ true)
      × (¬ Near r.driver.slave_handles p 0 r.driver.master_buffer r.monitor.backup)

module _ {Net : Type 0} (lib : Library Net) where
  -- The first of the events that faults is a call of the monitor with such a difference.
  abbrev pub Breaks : List Event → Run Net → Type 0
  Breaks es r =
      (before : List Event) × (after : List Event) × (s : Run Net) × (es
        ≡ before ++ checked ∷ after)
      × (session lib before r ≡ some s)
      × Overflows s

  -- All events are played, or such a call has faulted.
  abbrev pub Played : List ℕ → ℕ → List Event → Run Net → Bool → ℕ → Bool → Bool → Type 0
  Played ps size es r lower target asking seen =
      ((r' : Run Net) × (session lib es r ≡ some r') × At ps size lower target asking seen r')
      ⊎ ((session lib es r ≡ none) × Breaks es r)

  first_plays :
      (ps : List ℕ) (size : ℕ) (e : Event) (es : List Event) (r r1 : Run Net) (lower : Bool)
      (target : ℕ) (asking seen : Bool)
      → happen lib e r ≡ some r1
      → Played ps size es r1 lower target asking seen
      → Played ps size (e ∷ es) r lower target asking seen
  unfolding session
  first_plays ps size e es r r1 lower target asking seen h (inl (r', s, at)) =
      inl (r', ap (λ o. o >>= session lib es) h ∙ s, at)
  first_plays ps size e es r r1 lower target asking seen h
        (inr (s, (before, after, t, same, to, over))) =
      inr (
        ap (λ o. o >>= session lib es) h ∙ s,
        (
          e ∷ before,
          after,
          t,
          ap (λ l. e ∷ l) same,
          ap (λ o. o >>= session lib before) h ∙ to,
          over,
        ),
      )

  module _ (doc : IsDocumented lib) (ps : List ℕ) (size : ℕ) where
    watched :
        (lower : Bool) (target : ℕ) (asking seen : Bool) (r : Run Net)
        → At ps size lower target asking seen r
        → (p : ℕ) × (r.driver.prev_buffer ≡ some p) × Watched r.driver r.monitor p
    watched lower target asking seen r at =
        let (p, is, le) = prev_at lower size r.driver.prev_buffer at.prev_is in
        (
          p,
          is,
          record {
            points = is;
            inside = omega (arith, le, at.size_is, at.ready.sized);
            room = omega (arith, at.ready.few, at.ready.frame_size);
            backup_size = at.backup_size ∙ sym at.size_is;
          },
        )

    check_some :
        (lower : Bool) (target : ℕ) (asking seen : Bool) (r : Run Net) (p : ℕ)
        (lines : List (ℕ × ℤ))
        → At ps size lower target asking seen r
        → Watched r.driver r.monitor p
        → monitor_changes encoder_threshold_movement r.driver r.monitor
          ≡ some (lines, saved r.driver p)
        → (r1 : Run Net) × (happen lib checked r ≡ some r1) × At ps size lower target asking true r1
    unfolding happen
    check_some lower target asking seen r p lines at w e = (
      record r { monitor = saved r.driver p; printed = r.printed ++ lines },
      ap (λ o. o >>= λ x. some (record r { monitor = x.1; printed = r.printed ++ x.0 })) e,
      record {
        ready = at.ready;
        handles = at.handles;
        size_is = at.size_is;
        this_is = at.this_is;
        prev_is = at.prev_is;
        target_is = at.target_is;
        backup_size =
            length-slice r.driver.master_buffer p r.driver.master_buffer_size w.inside ∙ at.size_is;
        asking_is = at.asking_is;
        seen_is = refl;
      },
    )

    -- A call of the monitor keeps all that, unless a difference is no `int`.
    check_lem :
        (lower : Bool) (target : ℕ) (asking seen : Bool) (r : Run Net)
        → At ps size lower target asking seen r
        → ((r1 : Run Net) × (happen lib checked r ≡ some r1)
            × At ps size lower target asking true r1)
          ⊎ ((happen lib checked r ≡ none) × Overflows r)
    unfolding happen
    check_lem lower target asking seen r at =
        let (p, is, w) = watched lower target asking seen r at in
        let t = encoder_threshold_movement in
        elim (Bool-cases (r.monitor.delta_init)) [
          | inr off ↦ inl (
              check_some lower target asking seen r p [] at w
                (first_call t r.driver r.monitor p w off))
          | inl on ↦ elim (later_call t r.driver r.monitor p w on) [
            | inl (lines, e) ↦ inl (check_some lower target asking seen r p lines at w e)
            | inr e ↦ inr (
              ap (λ o. o >>= λ x. some (record r { monitor = x.1; printed = r.printed ++ x.0 })) e,
              (
                p,
                is,
                on,
                λ near.
                    let (lines, fine, same) =
                      monitor_changes_lem t r.driver r.monitor p w on near in
                    cc,
              ),
            )
          ]
        ]

    cycle_lem :
        (demands targets : ℕ → ℕ) (lower : Bool) (target : ℕ) (asking seen : Bool) (r : Run Net)
        → At ps size lower target asking seen r
        → (r1 : Run Net) × (happen lib (cycle demands targets) r ≡ some r1)
          × At ps size (not lower) target asking seen r1
    unfolding happen
    cycle_lem demands targets lower target asking seen r at =
        let (d, e, u) = update_racing_total lib doc demands targets r.driver at.ready in
        (
          record r { driver = d },
          ap (λ o. o >>= λ z. some (record r { driver = z })) e,
          record {
            ready = u.ready;
            handles = u.same_handles ∙ at.handles;
            size_is = u.same_size ∙ at.size_is;
            this_is = u.new_this ∙ at.prev_is;
            prev_is = u.new_prev ∙ at.this_is ∙ ap (λ b. half b size) (not_not lower);
            target_is = u.same_target ∙ at.target_is;
            backup_size = at.backup_size;
            asking_is = at.asking_is;
            seen_is = at.seen_is;
          },
        )
      where
        not_not : (b : Bool) → b ≡ not (not b)
        not_not true = refl
        not_not false = refl

    target_lem :
        (slave : ℕ) (lower : Bool) (target : ℕ) (asking seen : Bool) (r : Run Net)
        → At ps size lower target asking seen r
        → (r1 : Run Net) × (happen lib (entered_target slave) r ≡ some r1)
          × At ps size lower (if asking then slave else target) asking seen r1
    unfolding happen
    target_lem slave lower target true seen r at = (
      record r { driver = record (r.driver) { target_slave = slave } },
      rw at.asking_is refl,
      record {
        ready = with_target slave r.driver at.ready;
        handles = at.handles;
        size_is = at.size_is;
        this_is = at.this_is;
        prev_is = at.prev_is;
        target_is = refl;
        backup_size = at.backup_size;
        asking_is = at.asking_is;
        seen_is = at.seen_is;
      },
    )
    target_lem slave lower target false seen r at = (r, rw at.asking_is refl, at)

    amplitude_lem :
        (positive : Bool) (lower : Bool) (target : ℕ) (asking seen : Bool) (r : Run Net)
        → At ps size lower target asking seen r
        → (r1 : Run Net) × (happen lib (entered_amplitude positive) r ≡ some r1)
          × At ps size lower target (asking && positive) seen r1
    unfolding happen
    amplitude_lem positive lower target asking seen r at = (
      record r { asking = r.asking && positive },
      refl,
      record {
        ready = at.ready;
        handles = at.handles;
        size_is = at.size_is;
        this_is = at.this_is;
        prev_is = at.prev_is;
        target_is = at.target_is;
        backup_size = at.backup_size;
        asking_is = ap (λ b. b && positive) at.asking_is;
        seen_is = at.seen_is;
      },
    )

    pub session_lem :
        (es : List Event) (lower : Bool) (target : ℕ) (asking seen : Bool) (r : Run Net)
        → At ps size lower target asking seen r
        → Played ps size es r
            (lower_after lower es)
            (last_target asking es target)
            (still_asked asking es)
            (was_checked seen es)
    unfolding session
    session_lem [] lower target asking seen r at = inl (r, refl, at)
    session_lem (cycle demands targets ∷ es) lower target asking seen r at =
        let (r1, e, at1) = cycle_lem demands targets lower target asking seen r at in
        first_plays ps size (cycle demands targets) es r r1 _ _ _ _ e
          (session_lem es (not lower) target asking seen r1 at1)
    session_lem (entered_target slave ∷ es) lower target asking seen r at =
        let (r1, e, at1) = target_lem slave lower target asking seen r at in
        first_plays ps size (entered_target slave) es r r1 _ _ _ _ e
          (session_lem es lower (if asking then slave else target) asking seen r1 at1)
    session_lem (entered_amplitude positive ∷ es) lower target asking seen r at =
        let (r1, e, at1) = amplitude_lem positive lower target asking seen r at in
        first_plays ps size (entered_amplitude positive) es r r1 _ _ _ _ e
          (session_lem es lower target (asking && positive) seen r1 at1)
    session_lem (checked ∷ es) lower target asking seen r at =
        elim (check_lem lower target asking seen r at) [
          | inl (r1, e, at1) ↦
              first_plays ps size checked es r r1 _ _ _ _ e
                (session_lem es lower target asking true r1 at1)
          | inr (e, over) ↦ inr (ap (λ o. o >>= session lib es) e, ([], es, r, refl, refl, over))
        ]
