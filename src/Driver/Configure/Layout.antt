-- ===== src/Driver/Configure/Layout.antt =====
-- Which slot of the process data a slave gets by its configuration, against the slot that
-- `packCommand` fills for it.
use mathlib.Core.Path.{subst}
use pr2_ether_cat_no_ros.Base.{
  ℕ, zero, suc, ◌+◌, ◌*◌, ◌^◌, ◌≤◌, ◌<◌, ◌≡◌, ◌≢◌, refl, sym, ap, ◌∙◌, true, Option, none, some,
  List, [], ◌∷◌, ◌++◌, map, if◌then◌else◌, arith, length, get_elem?, take, All, ◌↔◌, Bool-cases,
  inl, inr,
}
use mathlib.Core.List.{append-nil, append_assoc}
use pr2_ether_cat_no_ros.Eml.SlaveConf.{SlaveHandler}
use pr2_ether_cat_no_ros.Eml.Library.{Library, IsDocumented}
use pr2_ether_cat_no_ros.Driver.State.{Driver, slot_size}
use pr2_ether_cat_no_ros.Driver.Configure.{is_wg05, find_wg05_slaves, configure_wg05_slaves}
use pr2_ether_cat_no_ros.Driver.Configure.Windows.{
  HasWindows, Distinct, AllWg05, configure_each-HasWindows,
}

module _ (handlers : ℕ → SlaveHandler) where
  -- The WG05 slaves among handles, in their order.
  pub select : List (Option ℕ) → List ℕ
  select [] = []
  select (none ∷ hs) = select hs
  select (some p ∷ hs) = if is_wg05 handlers p then p ∷ select hs else select hs

  abbrev pub IsWg05Handle : Option ℕ → Type 0
  IsWg05Handle none = ⊥
  IsWg05Handle (some p) = is_wg05 handlers p ≡ true

  pub select-AllWg05 : (hs : List (Option ℕ)) → AllWg05 handlers (select hs)
  unfolding select
  select-AllWg05 [] = tt
  select-AllWg05 (none ∷ hs) = select-AllWg05 hs
  select-AllWg05 (some p ∷ hs) = elim (Bool-cases (is_wg05 handlers p)) [
    | inl w ↦ rw w (w, select-AllWg05 hs)
    | inr o ↦ rw o (select-AllWg05 hs)
  ]

  length-select : (hs : List (Option ℕ)) → length (select hs) ≤ length hs
  unfolding select
  length-select [] = omega arith
  length-select (none ∷ hs) = omega (arith, length-select hs)
  length-select (some p ∷ hs) = elim (Bool-cases (is_wg05 handlers p)) [
    | inl w ↦ rw w (omega (arith, length-select hs))
    | inr o ↦ rw o (omega (arith, length-select hs))
  ]

  -- Nothing is left out exactly if every handle is of a WG05 slave.
  length-select_iff :
      (hs : List (Option ℕ)) → (length (select hs) ≡ length hs) ↔ All IsWg05Handle hs
  unfolding select
  length-select_iff [] = (λ _. tt, λ _. refl)
  length-select_iff (none ∷ hs) = (λ e. absurd (omega (arith, length-select hs)), λ h. absurd h.0)
  length-select_iff (some p ∷ hs) = elim (Bool-cases (is_wg05 handlers p)) [
    | inl w ↦ rw w (
      λ e. (refl, (length-select_iff hs).0 (omega arith)),
      λ h. ap suc ((length-select_iff hs).1 h.1),
    )
    | inr o ↦ rw o (λ e. absurd (omega (arith, length-select hs)), λ h. absurd (cc (h.0)))
  ]

  -- A WG05 slave stands in the selection behind those before it.
  get_elem?-select :
      (hs : List (Option ℕ)) (i p : ℕ)
      → get_elem? hs i ≡ some (some p)
      → is_wg05 handlers p ≡ true
      → get_elem? (select hs) (length (select (take i hs))) ≡ some p
  unfolding select
  get_elem?-select [] i p at w = cc
  get_elem?-select (none ∷ hs) zero p at w = cc
  get_elem?-select (some q ∷ hs) zero p at w =
      let same : q ≡ p = cc in let v : is_wg05 handlers q ≡ true = rw same w in rw v (ap some same)
  get_elem?-select (none ∷ hs) (suc i) p at w = get_elem?-select hs i p at w
  get_elem?-select (some q ∷ hs) (suc i) p at w = elim (Bool-cases (is_wg05 handlers q)) [
    | inl v ↦ rw v (get_elem?-select hs i p at w)
    | inr o ↦ rw o (get_elem?-select hs i p at w)
  ]

module _ {Net : Type 0} where
  -- `findWG05slaves` adds the selection to the list.
  pub find_wg05_slaves_lem :
      (hs : List (Option ℕ)) (d : Driver Net)
      → find_wg05_slaves hs d
        ≡ record d { wg05_slave_handles = d.wg05_slave_handles ++ map some (select d.handlers hs) }
  unfolding find_wg05_slaves select
  find_wg05_slaves_lem [] d =
      λ i. record d { wg05_slave_handles = sym (append-nil d.wg05_slave_handles) i }
  find_wg05_slaves_lem (none ∷ hs) d = find_wg05_slaves_lem hs d
  find_wg05_slaves_lem (some p ∷ hs) d = elim (Bool-cases (is_wg05 d.handlers p)) [
    | inl w ↦ rw w (
        find_wg05_slaves_lem hs
          (record d { wg05_slave_handles = d.wg05_slave_handles ++ some p ∷ [] })
        ∙ λ i. record d {
          wg05_slave_handles =
              append_assoc d.wg05_slave_handles (some p ∷ []) (map some (select d.handlers hs)) i;
        })
    | inr o ↦ rw o (find_wg05_slaves_lem hs d)
  ]

-- The pointers among handles.
abbrev pub pointers : List (Option ℕ) → List ℕ
pointers [] = []
pointers (none ∷ hs) = pointers hs
pointers (some p ∷ hs) = p ∷ pointers hs

module _ (handlers : ℕ → SlaveHandler) where
  select-All :
      (P : ℕ → Type 0) (hs : List (Option ℕ)) → All P (pointers hs) → All P (select handlers hs)
  unfolding select
  select-All P [] h = tt
  select-All P (none ∷ hs) h = select-All P hs h
  select-All P (some p ∷ hs) h = elim (Bool-cases (is_wg05 handlers p)) [
    | inl w ↦ rw w (h.0, select-All P hs h.1)
    | inr o ↦ rw o (select-All P hs h.1)
  ]

  select-Distinct : (hs : List (Option ℕ)) → Distinct (pointers hs) → Distinct (select handlers hs)
  unfolding select
  select-Distinct [] h = tt
  select-Distinct (none ∷ hs) h = select-Distinct hs h
  select-Distinct (some p ∷ hs) h = elim (Bool-cases (is_wg05 handlers p)) [
    | inl w ↦ rw w (select-All (λ q. q ≢ p) hs h.0, select-Distinct hs h.1)
    | inr o ↦ rw o (select-Distinct hs h.1)
  ]

length-take_at {ℓ} :
    {A : Type ℓ} (l : List A) (i : ℕ) (x : A) → get_elem? l i ≡ some x → length (take i l) ≡ i
length-take_at [] i x e = cc
length-take_at (y ∷ l) zero x e = refl
length-take_at (y ∷ l) (suc i) x e = ap suc (length-take_at l i x e)

HasWindows-start : (a b : ℕ) (sh : SlaveHandler) → HasWindows a sh → HasWindows b sh → a ≡ b
HasWindows-start a b sh (c, e, f) (c', e', f') = cc

module _ {Net : Type 0} (lib : Library Net) (doc : IsDocumented lib) where
  -- `findWG05slaves(slave_handles); configureWG05slaves();`, as `initializePr2EthercatSlaves` calls
  -- them
  abbrev pub found_and_configured : Driver Net → Driver Net
  found_and_configured d = configure_wg05_slaves lib (find_wg05_slaves d.slave_handles d)

  module _ (d : Driver Net) (i p : ℕ) where
    -- With a library that behaves as documented, no WG05 slave found before, distinct handles and
    -- addresses below `2 ^ 32`: a WG05 slave gets the windows of the slot whose number is that of
    -- the WG05 slaves before it.
    pub slave_window :
        d.wg05_slave_handles ≡ []
        → Distinct (pointers d.slave_handles)
        → d.start_address + slot_size * length d.slave_handles < 2 ^ 32
        → get_elem? d.slave_handles i ≡ some (some p)
        → is_wg05 d.handlers p ≡ true
        → HasWindows
            (d.start_address + slot_size * length (select d.handlers (take i d.slave_handles)))
            ((found_and_configured d).handlers p)
    unfolding configure_wg05_slaves
    slave_window fresh apart h at w =
        rw (find_wg05_slaves_lem d.slave_handles d, fresh)
          (configure_each-HasWindows lib doc (select d.handlers d.slave_handles)
            (length (select d.handlers (take i d.slave_handles))) p
            (record d { wg05_slave_handles = map some (select d.handlers d.slave_handles) })
            (select-AllWg05 d.handlers d.slave_handles)
            (select-Distinct d.handlers d.slave_handles apart)
            (omega (arith, length-select d.handlers d.slave_handles))
            (get_elem?-select d.handlers d.slave_handles i p at w))

    -- With a library that behaves as documented, no WG05 slave found before, distinct handles and
    -- addresses below `2 ^ 32`: the windows of a WG05 slave with the index `i` are at the offset
    -- `52 * i` of the process data, where `packCommand` writes its command, exactly if all slaves
    -- before it are WG05 slaves.
    pub window_at_slot_iff :
        d.wg05_slave_handles ≡ []
        → Distinct (pointers d.slave_handles)
        → d.start_address + slot_size * length d.slave_handles < 2 ^ 32
        → get_elem? d.slave_handles i ≡ some (some p)
        → is_wg05 d.handlers p ≡ true
        → HasWindows (d.start_address + slot_size * i) ((found_and_configured d).handlers p)
          ↔ All (IsWg05Handle d.handlers) (take i d.slave_handles)
    window_at_slot_iff fresh apart h at w = (
      λ there. (length-select_iff d.handlers (take i d.slave_handles)).0 (
          let same : d.start_address + slot_size * i
              ≡ d.start_address + slot_size * length (select d.handlers (take i d.slave_handles)) =
            HasWindows-start _ _ ((found_and_configured d).handlers p) there
              (slave_window fresh apart h at w) in
          omega (arith, length-take_at d.slave_handles i (some p) at)),
      λ all.
          subst
            (λ (n : ℕ).
              HasWindows (d.start_address + slot_size * n) ((found_and_configured d).handlers p))
            ((length-select_iff d.handlers (take i d.slave_handles)).1 all
              ∙ length-take_at d.slave_handles i (some p) at)
            (slave_window fresh apart h at w),
    )
