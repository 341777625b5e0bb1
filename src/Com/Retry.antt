-- ===== src/Com/Retry.antt =====
-- The calls of ethercat_com.cpp that wait for an answer: `EthercatDirectCom`, which sends by
-- itself, and the retries of `EthercatOobCom::txandrx`.
pub mod Answers
use pr2_ether_cat_no_ros.Base.{ℕ, zero, suc, ◌≡◌, ◌≢◌, Bool, true, false, some, if◌then◌else◌}
use pr2_ether_cat_no_ros.Base.Int.{ℤ}
use pr2_ether_cat_no_ros.Eml.Library.{Library}
use pr2_ether_cat_no_ros.Com.Oob.{Oob, is_handle, lock, unlock}
use pr2_ether_cat_no_ros.Com.Oob.Threads.{out, entering, leaving, at, System}
use pr2_ether_cat_no_ros.Com.Oob.Threads

-- What the two classes use of `EtherCAT_DataLinkLayer`: its bodies are in the compiled library.
pub record DataLinkLayer (Net : Type 0) : Type 0 where
  pub dll_tx : Net → ℕ → Net × ℤ
  pub dll_rx : Net → ℕ → ℤ → Net × Bool
  pub dll_txandrx : Net → ℕ → Net × Bool

module _ {Net : Type 0} (dll : DataLinkLayer Net) where
  -- `EthercatDirectCom::txandrx_once`
  unfoldable pub direct_txandrx_once : ℕ → Net → Net × Bool
  direct_txandrx_once frame net =
      let (net', handle) = dll.dll_tx net frame in
      if is_handle handle then dll.dll_rx net' frame handle else (net', false)

  -- `EthercatDirectCom::txandrx`
  unfoldable pub direct_txandrx : ℕ → Net → Net × Bool
  direct_txandrx frame net = dll.dll_txandrx net frame

-- `MAX_TRIES`
abbrev pub max_tries : ℕ
max_tries = 10

module _ {Net : Type 0} (lib : Library Net) where
  -- Steps of all threads in which the thread `i` does not come out of its call.
  pub data During (i : ℕ) (s : System Net) : System Net → Type 0 where
    stays : During i s s
    goes : {t u : System Net} → During i s t → Threads.Step lib t u → u.pc i ≢ out → During i s u

  -- Steps of the others, between two calls of the thread.
  pub data Away (i : ℕ) (s : System Net) : System Net → Type 0 where
    here : Away i s s
    next : {t u : System Net} → Away i s t → Threads.Step lib t u → u.pc i ≡ out → Away i s u

  abbrev pub entered : ℕ → ℕ → System Net → System Net
  entered i f s = record s { pc = at s.pc i (entering f) }

  -- A call `txandrx_once(frame)` of the thread `i` that comes back, with its result: after the last
  -- `unlock`, or because it did not get the lock. 150 is the line of the `lock`.
  pub data Once (i f : ℕ) (s : System Net) : System Net → Bool → Type 0 where
    returns :
        (u : System Net) (success : Bool)
        → s.pc i ≡ out
        → During i (entered i f s) u
        → u.pc i ≡ leaving success
        → Once i f s (record u { oob = (unlock i u.oob).0; pc = at u.pc i out }) success
    no_lock :
        (u : System Net) (o : Oob)
        → s.pc i ≡ out
        → During i (entered i f s) u
        → u.pc i ≡ entering f
        → lock i 150 u.oob ≡ some (o, false)
        → Once i f s (record u { oob = o; pc = at u.pc i out }) false

  -- The loop of `EthercatOobCom::txandrx` with so many rounds left, while the other threads go on. A
  -- call of `txandrx_once` that does not come back has no run here.
  pub data Tries (i f : ℕ) : System Net → ℕ → System Net → Bool → Type 0 where
    give_up : {s : System Net} → Tries i f s zero s false
    answered : {s t : System Net} {left : ℕ} → Once i f s t true → Tries i f s (suc left) t true
    again :
        {s t u v : System Net} {left : ℕ} {success : Bool}
        → Once i f s t false
        → Away i t u
        → Tries i f u left v success
        → Tries i f s (suc left) v success

  -- `EthercatOobCom::txandrx`
  abbrev pub OobTxandrx : ℕ → ℕ → System Net → System Net → Bool → Type 0
  OobTxandrx i f s t success = Tries i f s max_tries t success

  -- How many calls of `txandrx_once` a run has made.
  abbrev pub calls :
      {i f left : ℕ} {s t : System Net} {success : Bool} → Tries i f s left t success → ℕ
  calls give_up = 0
  calls (answered o) = 1
  calls (again o a r) = suc (calls r)
