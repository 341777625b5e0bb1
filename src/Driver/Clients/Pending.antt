-- ===== src/Driver/Clients/Pending.antt =====
-- The turn that a cycle gives to a waiting out-of-band frame.
use mathlib.Core.Option
use pr2_ether_cat_no_ros.Base.{
  ℕ, ◌<◌, ◌≡◌, refl, sym, ap, ◌∙◌, subst, not, Option, none, some, arith, List, ◌>>=◌, ◌⊎◌, inl,
  inr,
}
use pr2_ether_cat_no_ros.Eml.Library.{Library, IsDocumented}
use pr2_ether_cat_no_ros.Com.Oob.{
  Oob, ready_to_send, waiting_to_recv, trylock, unlock, send_pending, tx,
}
use pr2_ether_cat_no_ros.Driver.State.{Driver}
use pr2_ether_cat_no_ros.Driver.ProcessData.{rt_thread, max_pd_retries, update}
use pr2_ether_cat_no_ros.Driver.ProcessData.Ready.{IsReady}
use pr2_ether_cat_no_ros.Driver.ProcessData.Replies.{first_reply}
use pr2_ether_cat_no_ros.Driver.ProcessData.View.{
  View, view, after_reply, with_command, cycle_view, update-view,
}

module _ {Net : Type 0} (lib : Library Net) where
  -- What comes of the tries of one cycle.
  abbrev pub tries_of : ℕ → Driver Net → Net × Option (List ℕ)
  tries_of demand d = first_reply lib max_pd_retries d.net (with_command lib demand (view d)).frame

  -- The object has handed the frame `f` to the network `net`.
  abbrev pub Handed : Net → ℕ → Oob → Net → Type 0
  Handed net f o net' =
      (o.state ≡ waiting_to_recv)
      × (o.handle ≡ (lib.netif_tx net f).1)
      × (o.frame ≡ some f)
      × (o.owner ≡ none)
      × (net' ≡ (lib.netif_tx net f).0)

  tx-Handed :
      (me : ℕ) (net net' : Net) (o o' : Oob) (f : ℕ)
      → o.owner ≡ none
      → o.state ≡ ready_to_send
      → o.frame ≡ some f
      → tx lib me net o ≡ some (net', o')
      → Handed net f o' net'
  unfolding tx trylock unlock send_pending
  tx-Handed me net net' o o' f free due framed e =
      (ground arith, ground arith, ground arith, ground arith, ground arith)

  reply_cases :
      (v v' : View Net) (reply : Net × Option (List ℕ)) (f : ℕ)
      → v.oob_com.owner ≡ none
      → v.oob_com.state ≡ ready_to_send
      → v.oob_com.frame ≡ some f
      → after_reply lib v reply ≡ some v'
      → ((got : List ℕ) × (reply.1 ≡ some got) × (v'.oob_com ≡ v.oob_com))
        ⊎ ((reply.1 ≡ none) × Handed reply.0 f v'.oob_com v'.net)
  reply_cases v v' (net, some got) f free due framed e = inl (got, refl, cc)
  reply_cases v v' (net, none) f free due framed e = go (tx lib rt_thread net v.oob_com) refl e
    where
      go :
          (o : Option (Net × Oob))
          → tx lib rt_thread net v.oob_com ≡ o
          → (o >>= λ t. some (record v { net = t.0; oob_com = t.1; lower = not v.lower })) ≡ some v'
          → ((got : List ℕ) × (◌≡◌ {A = Option (List ℕ)} none (some got))
              × (v'.oob_com ≡ v.oob_com))
            ⊎ ((◌≡◌ {A = Option (List ℕ)} none none) × Handed net f v'.oob_com v'.net)
      go none h e = cc
      go (some (net', o')) h e =
          let same : record v { net = net'; oob_com = o'; lower = not v.lower } ≡ v' = cc in
          inr (
            refl,
            subst (λ (w : View Net). Handed net f w.oob_com w.net) same
                (tx-Handed rt_thread net net' v.oob_com o' f free due framed h),
          )

  module _ (doc : IsDocumented lib) where
    -- With a documented library, ready buffers and at least one slave, and a frame that waits for
    -- its turn while the lock is free: if one of the twenty tries of an `update` is answered, the
    -- out-of-band object is after it what it was. If none is, the frame has been given to the
    -- network after the last try, and the object has the handle of that sending and waits for the
    -- receipt.
    pub update_turn :
        (demand f : ℕ) (d d' : Driver Net)
        → IsReady d
        → 0 < d.master_buffer_size
        → d.oob_com.owner ≡ none
        → d.oob_com.state ≡ ready_to_send
        → d.oob_com.frame ≡ some f
        → update lib demand d ≡ some d'
        → ((got : List ℕ) × ((tries_of demand d).1 ≡ some got) × (d'.oob_com ≡ d.oob_com))
          ⊎ (((tries_of demand d).1 ≡ none) × Handed (tries_of demand d).0 f d'.oob_com d'.net)
    unfolding cycle_view
    update_turn demand f d d' ready some_slot free due framed e =
        reply_cases (with_command lib demand (view d)) (view d') (tries_of demand d) f free due
          framed
          (sym (update-view lib doc demand d ready some_slot) ∙ ap (Option.map (λ x. view x)) e)
