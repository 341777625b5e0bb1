-- ===== src/Driver/Info/ReadBack.antt =====
-- What can be read back from the lines that `fmmuInfo` and `pdInfo` print.
use pr2_ether_cat_no_ros.Base.{
  ℕ, zero, suc, ◌+◌, ◌≤◌, ◌<◌, ◌≡◌, refl, sym, ap, ◌∙◌, some, List, [], ◌∷◌, ◌++◌, arith, length,
  get_elem?, take, drop,
}
use pr2_ether_cat_no_ros.Base.Int.{pos}
use pr2_ether_cat_no_ros.Eml.SlaveMemory.{Fmmu, SyncMan}
use pr2_ether_cat_no_ros.Eml.SlaveConf.{FmmuConfig, PdConfig}
use pr2_ether_cat_no_ros.Driver.Info.{
  Line, sync_man_lines, pd_lines, pd_info, fmmu_lines, fmmus_lines, fmmu_info, fmmu, fmmu_length,
  physical_addr, physical_start_bit, logical_start_addr, logical_start_bit, logical_end_bit,
  read_enable, write_enable, channel_enable, sm, sm_length, sm_physical_address, sm_buffer_type,
  sm_buffer_state, sm_direction, al_event_enable, ecat_event_enable, watchdog_enable,
  watchdog_trigger, queued_state, read_event, write_event, sm_channel_enable,
}

-- The FMMUs that the lines describe, by the labels of the lines.
abbrev pub read_fmmus : List Line → List (ℕ × Fmmu)
read_fmmus
      (fmmu i
        ∷ fmmu_length a
        ∷ physical_addr b
        ∷ physical_start_bit c
        ∷ logical_start_addr d
        ∷ logical_start_bit e
        ∷ logical_end_bit f
        ∷ read_enable g
        ∷ write_enable h
        ∷ channel_enable j
        ∷ rest) =
    (
      i,
      record {
        logical_start_address = d;
        length = a;
        logical_start_bit = e;
        logical_end_bit = f;
        physical_start_address = b;
        physical_start_bit = c;
        read_enable = g;
        write_enable = h;
        channel_enable = j;
      },
    )
    ∷ read_fmmus rest
read_fmmus _ = []

-- The sync managers.
abbrev pub read_sync_mans : List Line → List (ℕ × SyncMan)
read_sync_mans
      (sm i
        ∷ sm_length a
        ∷ sm_physical_address b
        ∷ sm_buffer_type c
        ∷ sm_buffer_state d
        ∷ sm_direction e
        ∷ al_event_enable f
        ∷ ecat_event_enable g
        ∷ watchdog_enable h
        ∷ watchdog_trigger j
        ∷ queued_state k
        ∷ read_event l
        ∷ write_event m
        ∷ sm_channel_enable n
        ∷ rest) =
    (
      i,
      record {
        physical_start_address = b;
        length = a;
        buffer_type = c;
        direction = e;
        al_event_enable = f;
        ecat_event_enable = g;
        watchdog_enable = h;
        write_event = m;
        read_event = l;
        watchdog_trigger = j;
        queued_state = k;
        buffered_state = d;
        channel_enable = n;
      },
    )
    ∷ read_sync_mans rest
read_sync_mans _ = []

-- A list with the numbers of its elements.
abbrev pub numbered {ℓ} : {A : Type ℓ} → ℕ → List A → List (ℕ × A)
numbered i [] = []
numbered i (x ∷ xs) = (i, x) ∷ numbered (i + 1) xs

element_at {ℓ} :
    {A : Type ℓ} (l : List A) (i j : ℕ)
    → i < length l
    → j ≡ i + 1
    → (x : A) × (get_elem? l i ≡ some x) × (drop i l ≡ x ∷ drop j l)
element_at [] i j h e = absurd (omega arith)
element_at (x ∷ l) zero zero h e = absurd (omega arith)
element_at (x ∷ l) zero (suc j) h e =
    let none_left : j ≡ 0 = omega arith in (x, refl, ap (λ n. x ∷ drop n l) (sym none_left))
element_at (x ∷ l) (suc i) zero h e = absurd (omega arith)
element_at (x ∷ l) (suc i) (suc j) h e = element_at l i j (omega arith) (omega arith)

fmmus_read_back :
    (c : FmmuConfig) (left i : ℕ)
    → i + left ≤ length c.fmmus
    → (lines : List Line) × (fmmus_lines c left i ≡ some lines)
      × (read_fmmus lines ≡ numbered i (take left (drop i c.fmmus)))
unfolding fmmus_lines fmmu_lines
fmmus_read_back c zero i h = ([], refl, refl)
fmmus_read_back c (suc left) i h =
    let (f, e, d) = element_at c.fmmus i (i + 1) (omega (arith, h)) refl in
    let (rest, e', back) = fmmus_read_back c left (i + 1) (omega (arith, h)) in
    (
      fmmu_lines i f ++ rest,
      rw (e, e') refl,
      ap (λ l. (i, f) ∷ l) back ∙ ap (λ l. numbered i (take (suc left) l)) (sym d),
    )

sync_mans_read_back :
    (c : PdConfig) (left i : ℕ)
    → i + left ≤ length c.sms
    → (lines : List Line) × (pd_lines c left i ≡ some lines)
      × (read_sync_mans lines ≡ numbered i (take left (drop i c.sms)))
unfolding pd_lines sync_man_lines
sync_mans_read_back c zero i h = ([], refl, refl)
sync_mans_read_back c (suc left) i h =
    let (s, e, d) = element_at c.sms i (i + 1) (omega (arith, h)) refl in
    let (rest, e', back) = sync_mans_read_back c left (i + 1) (omega (arith, h)) in
    (
      sync_man_lines i s ++ rest,
      rw (e, e') refl,
      ap (λ l. (i, s) ∷ l) back ∙ ap (λ l. numbered i (take (suc left) l)) (sym d),
    )

-- With room for the managers that the configurations count, `fmmuInfo` and `pdInfo` return 0. Each
-- prints the number of its managers, and then lines from which their labels let one read back all
-- fields of each of these managers, with its index.
pub infos_read_back :
    (f : FmmuConfig) (c : PdConfig)
    → f.num_used_fmmus ≤ length f.fmmus
    → c.num_used_sms ≤ length c.sms
    → (fmmus : List Line) × (sms : List Line) × (fmmu_info (some f)
        ≡ some (Line.number_of_fmmus f.num_used_fmmus ∷ fmmus, pos 0))
      × (read_fmmus fmmus ≡ numbered 0 (take f.num_used_fmmus f.fmmus))
      × (pd_info (some c) ≡ some (Line.number_of_sms c.num_used_sms ∷ sms, pos 0))
      × (read_sync_mans sms ≡ numbered 0 (take c.num_used_sms c.sms))
unfolding fmmu_info pd_info
infos_read_back f c fmmu_room sm_room =
    let (fmmus, e, back) = fmmus_read_back f f.num_used_fmmus 0 (omega (arith, fmmu_room)) in
    let (sms, e', back') = sync_mans_read_back c c.num_used_sms 0 (omega (arith, sm_room)) in
    (fmmus, sms, rw e refl, back, rw e' refl, back')
