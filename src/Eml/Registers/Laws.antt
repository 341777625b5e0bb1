-- ===== src/Eml/Registers/Laws.antt =====
-- The register table of a slave has no overlaps, and the channels are where their numbers say.
use pr2_ether_cat_no_ros.Base.{
  ℕ, zero, suc, ◌+◌, ◌*◌, ◌≤◌, ◌<◌, ◌≡◌, refl, Bool, true, ◌&&◌, leb, some, List, [], ◌∷◌, arith,
  get_elem?, drop, take, ap, ◌∙◌,
}
use pr2_ether_cat_no_ros.Base.Int.{ℤ, pos, negsuc}
use pr2_ether_cat_no_ros.Eml.Registers.{
  r, rw, RegisterData, register, slave_registers, switch, fmmu_x, sync_manager_x,
  watchdog_time_channel_x,
}

-- A run of registers from `a` on, each at or after the end of the one before.
ordered : ℕ → List RegisterData → Bool
ordered a [] = true
ordered a (x ∷ xs) = leb a (x.ado) && ordered (x.ado + x.size) xs

ordered-le :
    (a : ℕ) (l : List RegisterData) (j : ℕ) (x : RegisterData)
    → ordered a l ≡ true
    → get_elem? l j ≡ some x
    → a ≤ x.ado
unfolding ordered
ordered-le a [] j x o e = cc
ordered-le a (y ∷ l) zero x o e = ground arith
ordered-le a (y ∷ l) (suc j) x o e =
    let later = ordered-le (y.ado + y.size) l j x (ground arith) e in ground arith

disjoint_from :
    (a : ℕ) (l : List RegisterData) (i j : ℕ) (x y : RegisterData)
    → ordered a l ≡ true
    → get_elem? l i ≡ some x
    → get_elem? l j ≡ some y
    → i < j
    → x.ado + x.size ≤ y.ado
unfolding ordered
disjoint_from a [] i j x y o e f h = cc
disjoint_from a (z ∷ l) zero zero x y o e f h = absurd (omega arith)
disjoint_from a (z ∷ l) zero (suc j) x y o e f h =
    let later = ordered-le (z.ado + z.size) l j y (ground arith) f in ground arith
disjoint_from a (z ∷ l) (suc i) zero x y o e f h = absurd (omega arith)
disjoint_from a (z ∷ l) (suc i) (suc j) x y o e f h =
    disjoint_from (z.ado + z.size) l i j x y (ground arith) e f (omega arith)

-- No two registers of the table overlap: a row ends where a later one starts, or before.
pub registers_disjoint :
    (i j : ℕ) (x y : RegisterData)
    → get_elem? slave_registers i ≡ some x
    → get_elem? slave_registers j ≡ some y
    → i < j
    → x.ado + x.size ≤ y.ado
unfolding ordered
registers_disjoint i j x y e f h = disjoint_from 0 slave_registers i j x y refl e f h

-- `n` cases from `i` on, with the values from `v` on.
cases_from : ℕ → ℕ → ℕ → List (ℕ × ℕ)
cases_from zero i v = []
cases_from (suc n) i v = (i, v) ∷ cases_from n (suc i) (suc v)

switch-cases_from : (n i v k : ℕ) → k < n → switch (cases_from n i v) (i + k) ≡ pos (v + k)
unfolding cases_from
switch-cases_from zero i v k h = absurd (omega arith)
switch-cases_from (suc n) i v zero h = ground arith
switch-cases_from (suc n) i v (suc k) h =
    ground (arith, switch-cases_from n (suc i) (suc v) k (omega arith))

switch-cases : (n v k : ℕ) → k < n → switch (cases_from n 0 v) k ≡ pos (v + k)
switch-cases n v k h =
    let start : k ≡ 0 + k = omega arith in
    ap (λ j. switch (cases_from n 0 v) j) start ∙ switch-cases_from n 0 v k h

switch_beyond : (n i v k : ℕ) → i + n ≤ k → switch (cases_from n i v) k ≡ negsuc 0
unfolding cases_from
switch_beyond zero i v k h = refl
switch_beyond (suc n) i v k h = ground (arith, switch_beyond n (suc i) (suc v) k (omega arith))

-- `n` registers of one kind, one after the other from `a` on.
rows : ℕ → ℕ → ℕ → List RegisterData
rows zero a size = []
rows (suc n) a size = register a rw r size ∷ rows n (a + size) size

get_elem-rows :
    (n a size k : ℕ)
    → k < n
    → get_elem? (rows n a size) k ≡ some (register (a + size * k) rw r size)
unfolding rows
get_elem-rows zero a size k h = absurd (omega arith)
get_elem-rows (suc n) a size zero h = ap (λ t. some (register t rw r size)) (omega arith)
get_elem-rows (suc n) a size (suc k) h =
    get_elem-rows n (a + size) size k (omega arith)
    ∙ ap (λ t. some (register t rw r size)) (omega arith)

get_elem-take : (n k : ℕ) (l : List RegisterData) → k < n → get_elem? l k ≡ get_elem? (take n l) k
get_elem-take zero k l h = absurd (omega arith)
get_elem-take (suc n) k [] h = refl
get_elem-take (suc n) zero (x ∷ l) h = refl
get_elem-take (suc n) (suc k) (x ∷ l) h = get_elem-take n k l (omega arith)

get_elem-drop :
    (b n k : ℕ) (l : List RegisterData)
    → k < n
    → get_elem? l (b + k) ≡ get_elem? (take n (drop b l)) k
get_elem-drop zero n k l h =
    let start : 0 + k ≡ k = omega arith in ap (λ j. get_elem? l j) start ∙ get_elem-take n k l h
get_elem-drop (suc b) n k [] h = get_elem-take n k [] h
get_elem-drop (suc b) n k (x ∷ l) h =
    let next : suc b + k ≡ suc (b + k) = omega arith in
    ap (λ j. get_elem? (x ∷ l) j) next ∙ get_elem-drop b n k l h

-- The register of the channel `k` is the one of `size` bytes at `a + size * k`.
abbrev pub HasChannel : (ℤ → ℤ) → ℕ → ℕ → ℕ → Type 0
HasChannel f a size k =
    (i : ℕ) × (f (pos k) ≡ pos i)
    × (get_elem? slave_registers i ≡ some (register (a + size * k) rw r size))

-- For a channel `k` below 16 `FMMUx`, `Sync_Managerx` and `Watchdog_Time_Channelx` give a row of
-- the table: the one of 16 bytes at 0x600 + 16 k, of 8 bytes at 0x800 + 8 k, and of 2 bytes at
-- 0x420 + 2 k, which the master may write and the slave may not.
pub channel_registers :
    (k : ℕ)
    → k < 16
    → HasChannel fmmu_x 0x600 16 k
      × HasChannel sync_manager_x 0x800 8 k
      × HasChannel watchdog_time_channel_x 0x420 2 k
unfolding fmmu_x sync_manager_x watchdog_time_channel_x cases_from rows
channel_registers k h = (
  (
    39 + k,
    switch-cases 16 39 k h,
    get_elem-drop 39 16 k slave_registers h ∙ get_elem-rows 16 0x600 16 k h,
  ),
  (
    55 + k,
    switch-cases 16 55 k h,
    get_elem-drop 55 16 k slave_registers h ∙ get_elem-rows 16 0x800 8 k h,
  ),
  (
    18 + k,
    switch-cases 16 18 k h,
    get_elem-drop 18 16 k slave_registers h ∙ get_elem-rows 16 0x420 2 k h,
  ),
)

abbrev IsChannel : ℤ → Type 0
IsChannel (pos k) = k < 16
IsChannel (negsuc k) = ⊥

-- For any number that is not from 0 to 15, negative ones included, `FMMUx`, `Sync_Managerx` and
-- `Watchdog_Time_Channelx` return -1.
pub no_channel :
    (z : ℤ)
    → (IsChannel z → ⊥)
    → (fmmu_x z ≡ negsuc 0) × (sync_manager_x z ≡ negsuc 0) × (watchdog_time_channel_x z ≡ negsuc 0)
unfolding fmmu_x sync_manager_x watchdog_time_channel_x cases_from
no_channel (pos k) h = (
  switch_beyond 16 0 39 k (omega arith),
  switch_beyond 16 0 55 k (omega arith),
  switch_beyond 16 0 18 k (omega arith),
)
no_channel (negsuc k) h = (refl, refl, refl)
