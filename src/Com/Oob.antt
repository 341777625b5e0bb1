-- ===== src/Com/Oob.antt =====
-- `EthercatOobCom`: frames that other threads hand to the real-time loop, which sends them when it
-- has no process data to send. Here the object, its lock and the calls that do not wait.
pub mod Tx
pub mod Threads
pub mod Effect
pub mod Invariant
pub mod Owner
pub mod Safety
pub mod Alone
pub mod Channel
use pr2_ether_cat_no_ros.Base.{ℕ, Bool, true, false, Option, none, some, ◌==◌, if◌then◌else◌, ◌>>=◌}
use pr2_ether_cat_no_ros.Base.Int.{ℤ, pos, negsuc}
use pr2_ether_cat_no_ros.Eml.Library.{Library}

-- The values of `state_`
pub data OobState : Type 0 where
  idle ready_to_send waiting_to_recv : OobState

-- `owner` is the thread that holds `mutex_`. `frame_` is a pointer, `none` for `NULL`.
pub record Oob : Type 0 where
  pub owner : Option ℕ
  pub state : OobState
  pub frame : Option ℕ
  pub handle : ℤ
  pub line : ℕ

-- The members after the constructor; its `pthread` initialisations are taken to succeed.
unfoldable pub new_oob : Oob
new_oob = record { owner = none; state = idle; frame = none; handle = negsuc 0; line = 0 }

-- What `pthread_mutex_lock` of an error-checking mutex does: it waits (`none`) for another owner,
-- and refuses its own.
unfoldable pub lock : ℕ → ℕ → Oob → Option (Oob × Bool)
lock me at o = elim (o.owner) [
  | none ↦ some (record o { owner = some me; line = at }, true)
  | some other ↦ if other == me then some (o, false) else none
]

-- `pthread_mutex_trylock` does not wait: EBUSY for any owner.
unfoldable pub trylock : ℕ → ℕ → Oob → Oob × Bool
trylock me at o = elim (o.owner) [
  | none ↦ (record o { owner = some me; line = at }, true)
  | some other ↦ (o, false)
]

-- `pthread_mutex_unlock` refuses all but the owner.
unfoldable pub unlock : ℕ → Oob → Oob × Bool
unlock me o = elim (o.owner) [
  | none ↦ (o, false)
  | some other ↦ if other == me then (record o { owner = none; line = 0 }, true) else (o, false)
]

abbrev pub is_ready : OobState → Bool
is_ready ready_to_send = true
is_ready _ = false

-- `handle_ >= 0`
abbrev pub is_handle : ℤ → Bool
is_handle (pos n) = true
is_handle (negsuc n) = false

module _ {Net : Type 0} (lib : Library Net) where
  -- The body of `tx` between `trylock` and `unlock`. `none` is the failed `assert(frame_!=NULL)`.
  unfoldable pub send_pending : Net → Oob → Option (Net × Oob)
  send_pending net o = elim (is_ready o.state) [
    | true ↦ elim (o.frame) [
      | none ↦ none
      | some f ↦
          let (net', h) = lib.netif_tx net f in
          some (net', record o { handle = h; state = waiting_to_recv })
    ]
    | false ↦ some (net, o)
  ]

  -- `EthercatOobCom::tx`, called by the thread `me`. 196 is the line of its `trylock`.
  unfoldable pub tx : ℕ → Net → Oob → Option (Net × Oob)
  tx me net o =
      let (o', got) = trylock me 196 o in
      if got
      then (do sent ← send_pending net o'; some (sent.0, (unlock me sent.1).0))
      else some (net, o)

  -- `txandrx_once` from the receipt to `state_ = IDLE`; `none` is the failed
  -- `assert(frame_ == frame)`. A null `frame_` fails it too.
  unfoldable pub complete : ℕ → Net → Oob → Option (Net × Oob × Bool)
  complete f net o = elim (o.frame) [
    | none ↦ none
    | some g ↦
        let (net', success) =
          if is_handle (o.handle) then lib.netif_rx net g (o.handle) else (net, false) in
        if g == f then some (net', record o { handle = negsuc 0; state = idle }, success) else none
  ]
