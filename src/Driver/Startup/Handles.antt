-- ===== src/Driver/Startup/Handles.antt =====
-- What `getSlaveHandles` collects.
use mathlib.Core.List.{append-nil, append_assoc}
use pr2_ether_cat_no_ros.Base.{
  ℕ, zero, suc, ◌+◌, ◌≤◌, ◌<◌, ◌≡◌, ◌≢◌, refl, sym, ap, ◌∙◌, ◌⊎◌, inl, inr, Option, none, some,
  List, [], ◌∷◌, ◌++◌, map, arith, length, Option-cases,
}
use pr2_ether_cat_no_ros.Base.Int.{ℤ, pos, negsuc}
use pr2_ether_cat_no_ros.Eml.SlaveMemory.{new_fixed_station_address}
use pr2_ether_cat_no_ros.Eml.Library.{Library}
use pr2_ether_cat_no_ros.Driver.State.{Driver}
use pr2_ether_cat_no_ros.Driver.Startup.{get_handles_from, get_slave_handles}

module _ {Net : Type 0} (lib : Library Net) where
  -- `ps` are the handlers of the stations from `i + 1` on.
  abbrev pub Stations : ℕ → Net → List ℕ → Type 0
  Stations i net [] = Unit
  Stations i net (p ∷ ps) =
      (lib.get_slave_handler net (new_fixed_station_address (i + 1)) ≡ some p)
      × Stations (i + 1) net ps

  -- The code is 0 and `ps` has a handler for each station, or it is -1 and the next one has none.
  pub record Collected (left i : ℕ) (net : Net) (ps : List ℕ) (code : ℤ) : Type 0 where
    pub stations : Stations i net ps
    pub ended :
        ((code ≡ pos 0) × (length ps ≡ left))
        ⊎ ((code ≡ negsuc 0)
            × (length ps < left)
            × (lib.get_slave_handler net (new_fixed_station_address (i + length ps + 1)) ≡ none))

  Collected-cons :
      (left i : ℕ) (net : Net) (p : ℕ) (ps : List ℕ) (code : ℤ)
      → lib.get_slave_handler net (new_fixed_station_address (i + 1)) ≡ some p
      → Collected left (i + 1) net ps code
      → Collected (suc left) i net (p ∷ ps) code
  Collected-cons left i net p ps code here c = record {
    stations = (here, c.stations);
    ended = elim (c.ended) [
      | inl (good, all) ↦ inl (good, ap suc all)
      | inr (bad, few, missing) ↦
          let shift : i + suc (length ps) + 1 ≡ i + 1 + length ps + 1 = omega arith in
          inr (bad, omega (arith, few), rw shift missing)
    ];
  }

  get_handles_from_lem :
      (left i : ℕ) (d : Driver Net)
      → (ps : List ℕ) × ((get_handles_from lib left i d).0
          ≡ record d { slave_handles = d.slave_handles ++ map some ps })
        × Collected left i d.net ps (get_handles_from lib left i d).1
  unfolding get_handles_from
  get_handles_from_lem zero i d = (
    [],
    λ j. record d { slave_handles = sym (append-nil d.slave_handles) j },
    record { stations = tt; ended = inl (refl, refl) },
  )
  get_handles_from_lem (suc left) i d =
      elim (Option-cases (lib.get_slave_handler d.net (new_fixed_station_address (i + 1)))) [
        | inl missing ↦
            rw (missing, get_handles_from)
              (
                [],
                λ j. record d { slave_handles = sym (append-nil d.slave_handles) j },
                record {
                  stations = tt;
                  ended = inr (
                    refl,
                    omega arith,
                    (let same : i + 0 + 1 ≡ i + 1 = omega arith in rw (same, missing) refl),
                  );
                },
              )
        | inr (p, here) ↦
            rw (here, get_handles_from)
              (let (ps, e, c) =
                  get_handles_from_lem left (i + 1)
                    (record d { slave_handles = d.slave_handles ++ some p ∷ [] }) in
                (
                  p ∷ ps,
                  e ∙ λ j. record d {
                    slave_handles = append_assoc d.slave_handles (some p ∷ []) (map some ps) j;
                  },
                  Collected-cons left i d.net p ps _ here c,
                ))
      ]

  -- `getSlaveHandles` appends the handlers of the stations 1, 2, … in their order, and nothing else
  -- changes. It returns 0 if it has one for each of the `num_slaves`, and else stops at the first
  -- station that has none.
  pub get_slave_handles_lem :
      (d : Driver Net)
      → (ps : List ℕ) × ((get_slave_handles lib d).0
          ≡ record d { slave_handles = d.slave_handles ++ map some ps })
        × Collected d.num_slaves 0 d.net ps (get_slave_handles lib d).1
  unfolding get_slave_handles
  get_slave_handles_lem d = get_handles_from_lem d.num_slaves 0 d

  pub get_slave_handles_few :
      {n i : ℕ} {net : Net} {ps : List ℕ} {code : ℤ} → Collected n i net ps code → length ps ≤ n
  get_slave_handles_few c = elim (c.ended) [
    | inl (good, all) ↦ omega (arith, all)
    | inr (bad, few, missing) ↦ omega (arith, few)
  ]

  -- With a handler for the first station something is collected.
  pub Collected-first :
      {n p : ℕ} {net : Net} {ps : List ℕ} {code : ℤ}
      → Collected n 0 net ps code
      → n ≢ 0
      → lib.get_slave_handler net (new_fixed_station_address 1) ≡ some p
      → map {B = Option ℕ} some ps ≢ []
  Collected-first {ps = p ∷ ps} c some_slave station e = cc
  Collected-first {ps = []} c some_slave station e = elim (c.ended) [
    | inl (good, all) ↦ some_slave (sym all)
    | inr (bad, few, missing) ↦ cc
  ]
