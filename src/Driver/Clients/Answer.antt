-- ===== src/Driver/Clients/Answer.antt =====
-- How a frame that waits for its turn is answered.
use pr2_ether_cat_no_ros.Base.{ℕ, ◌<◌, ◌≡◌, refl, sym, ap, ◌∙◌, subst, none, some, arith, inl, inr}
use pr2_ether_cat_no_ros.Eml.Library.{Library, IsDocumented}
use pr2_ether_cat_no_ros.Com.Oob.{Oob, idle, ready_to_send, waiting_to_recv, new_oob}
use pr2_ether_cat_no_ros.Com.Oob.Threads.{Pc, out, pending, Move, at}
use pr2_ether_cat_no_ros.Com.Oob.Effect.{active}
use pr2_ether_cat_no_ros.Com.Oob.Invariant.{Reach-Inv}
use pr2_ether_cat_no_ros.Com.Oob.Alone.{Moves, still, move, sent-Returns}
use pr2_ether_cat_no_ros.Driver.State.{Driver}
use pr2_ether_cat_no_ros.Driver.ProcessData.{update}
use pr2_ether_cat_no_ros.Driver.ProcessData.Ready.{IsReady}
use pr2_ether_cat_no_ros.Driver.Clients.{
  Plant, between, at_rest, around, with_network, client, Reach, here, next,
}
use pr2_ether_cat_no_ros.Driver.Clients.Whole.{reaches, Reach-trans}
use pr2_ether_cat_no_ros.Driver.Clients.Turn.{update-Comes}
use pr2_ether_cat_no_ros.Driver.Clients.Pending.{tries_of, update_turn}

module _ {Net : Type 0} (lib : Library Net) where
  -- The thread `j` has returned, and the out-of-band object and its lock are free.
  abbrev pub Returned : Plant Net → ℕ → Type 0
  Returned s j =
      (u : Plant Net) × Reach lib s u
      × (u.pc j ≡ out)
      × (u.driver.oob_com.state ≡ idle)
      × (u.driver.oob_com.owner ≡ none)

  Moves-Reach :
      (s : Plant Net) (j : ℕ) (net : Net) (o : Oob) (p : Pc) (net' : Net) (o' : Oob) (p' : Pc)
      → s.driver.net ≡ net
      → s.driver.oob_com ≡ o
      → s.pc j ≡ p
      → Moves lib j net o p net' o' p'
      → (u : Plant Net) × Reach lib s u
        × (u.driver.net ≡ net')
        × (u.driver.oob_com ≡ o')
        × (u.pc j ≡ p')
  Moves-Reach s j net o p net' o' p' a b c still = (s, here, a, b, c)
  Moves-Reach s j net o p net' o' p' a b c (move {net1 = n1} {o1 = o1} {p1 = p1} before m) =
      let (u, to_u, a', b', c') = Moves-Reach s j net o p n1 o1 p1 a b c before in
      (
        record u { driver = with_network u.driver net' o'; pc = at u.pc j p' },
        next to_u (
            client j (
              subst (λ x. Move lib j x u.driver.oob_com (u.pc j) net' o' p') (sym a')
                (subst (λ x. Move lib j n1 x (u.pc j) net' o' p') (sym b')
                  (subst (λ x. Move lib j n1 o1 x net' o' p') (sym c') m)))),
        refl,
        refl,
        ground arith,
      )

  receives :
      (s t : Plant Net) (j f : ℕ)
      → Reach lib s t
      → t.pc j ≡ pending f
      → t.driver.oob_com.owner ≡ none
      → t.driver.oob_com.state ≡ waiting_to_recv
      → t.driver.oob_com.frame ≡ some f
      → Returned s j
  receives s t j f to_t e free w framed =
      let (net', o', moves, a, b) =
        sent-Returns lib j f t.driver.net t.driver.oob_com free w framed in
      let (u, to_u, n, same, back) =
        Moves-Reach t j _ _ (pending f) net' o' out refl refl e moves in
      (
        u,
        Reach-trans lib s t u to_t to_u,
        back,
        ap (λ (x : Oob). x.state) same ∙ a,
        ap (λ (x : Oob). x.owner) same ∙ b,
      )

  module _ (doc : IsDocumented lib) where
    -- With a documented library, ready buffers and at least one slave, from every state that is
    -- reached from a new out-of-band object with no thread in a call: if a thread waits for the
    -- answer of its frame, the lock is free, the real-time thread is between two cycles and no try
    -- of the next one is answered, then there are steps after which the thread has returned and the
    -- object and its lock are free.
    pub silence_answers :
        (d d' : Driver Net) (s : Plant Net) (demand j f : ℕ)
        → d.oob_com ≡ new_oob
        → Reach lib (at_rest d) s
        → IsReady s.driver
        → 0 < s.driver.master_buffer_size
        → s.cycle ≡ between
        → s.pc j ≡ pending f
        → s.driver.oob_com.owner ≡ none
        → update lib demand s.driver ≡ some d'
        → (tries_of lib demand s.driver).1 ≡ none
        → Returned s j
    silence_answers d d' s demand j f fresh r ready some_slot c e free runs silent =
        let inv = Reach-Inv lib d.net (around s) (reaches lib d s fresh r) in
        let (framed, busy) = inv.frame_is j f (ap active e) in
        elim (s.driver.oob_com.state) as (λ x. s.driver.oob_com.state ≡ x → Returned s j) [
          | idle ↦ λ h. absurd (busy h)
          | waiting_to_recv ↦ λ h. receives s s j f here e free h framed
          | ready_to_send ↦ λ h.
              let (t, to_t, at_t, c', same) = update-Comes lib s demand d' c runs in
              elim (update_turn lib doc demand f s.driver d' ready some_slot free h framed runs) [
                | inl (got, came, kept) ↦ cc
                | inr (none_came, handed) ↦
                    let (w, handle, framed', free', on_net) = handed in
                    receives s t j f to_t (same j ∙ e)
                      (ap (λ (x : Driver Net). x.oob_com.owner) at_t ∙ free')
                      (ap (λ (x : Driver Net). x.oob_com.state) at_t ∙ w)
                      (ap (λ (x : Driver Net). x.oob_com.frame) at_t ∙ framed')
              ]
        ]
          refl
