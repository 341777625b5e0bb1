-- ===== src/Driver/Clients/Turn.antt =====
-- `update` as a run of the steps of the real-time thread, and the turn that it gives to a frame.
use pr2_ether_cat_no_ros.Base.{
  ℕ, zero, suc, ◌≡◌, refl, sym, ap, ◌∙◌, Bool, true, false, some, arith, ◌>>=◌, if◌then◌else◌, inl,
  inr, Bool-cases, bind_some,
}
use pr2_ether_cat_no_ros.Eml.Library.{Library}
use pr2_ether_cat_no_ros.Com.Oob.{tx}
use pr2_ether_cat_no_ros.Driver.State.{Driver}
use pr2_ether_cat_no_ros.Driver.ProcessData.Ready.{pack_command_racing}
use pr2_ether_cat_no_ros.Driver.ProcessData.{
  rt_thread, max_pd_retries, pack_command, exchange, attempts, give_turn, txandrx_pd, swap_buffers,
  update,
}
use pr2_ether_cat_no_ros.Driver.Clients.{
  Plant, CyclePc, between, trying, swapping, Step, pack, try, swap, Reach, here, next, with_network,
}
use pr2_ether_cat_no_ros.Driver.Clients

module _ {Net : Type 0} (lib : Library Net) where
  -- A run of the real-time thread alone.
  abbrev Comes : Plant Net → Driver Net → CyclePc → Type 0
  Comes s d c =
      (t : Plant Net) × Reach lib s t × (t.driver ≡ d) × (t.cycle ≡ c) × ((j : ℕ) → t.pc j ≡ s.pc j)

  tries_run :
      (s t : Plant Net) (left : ℕ) (d : Driver Net) (success : Bool)
      → Reach lib s t
      → ((j : ℕ) → t.pc j ≡ s.pc j)
      → t.cycle ≡ trying left
      → attempts lib left t.driver ≡ some (d, success)
      → Comes s d (if success then swapping else trying zero)
  unfolding attempts
  tries_run s t zero d success r same c e = (t, r, ground arith, ground arith, same)
  tries_run s t (suc left) d success r same c e =
      let ((d1, success1), sent, rest) =
        bind_some (exchange lib t.driver) (λ r. if r.1 then some r else attempts lib left (r.0))
          (d, success) e in
      let u : Plant Net = record t {
        driver = d1;
        cycle = if success1 then swapping else trying left;
      } in
      let to_u : Reach lib s u = next r (try left d1 success1 c sent) in
      elim (Bool-cases success1) [
        | inl yes_sent ↦ (u, to_u, ground arith, ground arith, same)
        | inr failed ↦ tries_run s u left d success to_u same (ground arith) (ground arith)
      ]

  end_run :
      (s t : Plant Net) (r r' : Driver Net × Bool)
      → Reach lib s t
      → ((j : ℕ) → t.pc j ≡ s.pc j)
      → t.driver ≡ r.0
      → t.cycle ≡ (if r.1 then swapping else trying zero)
      → give_turn lib r ≡ some r'
      → Comes s r'.0 swapping
  unfolding give_turn
  end_run s t (d, true) r' to_t same at_d c e = (t, to_t, ground arith, c, same)
  end_run s t (d, false) r' to_t same at_d c e =
      let ((net', o'), sent, rest) =
        bind_some (tx lib rt_thread d.net d.oob_com) (λ n. some (with_network d n.0 n.1, false)) r'
          e in
      let sent' : tx lib rt_thread t.driver.net t.driver.oob_com ≡ some (net', o') =
        ap (λ (x : Driver Net). tx lib rt_thread x.net x.oob_com) at_d ∙ sent in
      (
        _,
        next to_t (Clients.give_turn net' o' c sent'),
        ap (λ (x : Driver Net). with_network x net' o') at_d ∙ ground arith,
        refl,
        same,
      )

  -- `update` is a run of the steps of the real-time thread, with no step of another thread between.
  pub update-Comes :
      (s : Plant Net) (demand : ℕ) (d : Driver Net)
      → s.cycle ≡ between
      → update lib demand s.driver ≡ some d
      → Comes s d between
  unfolding update txandrx_pd
  update-Comes s demand d c e =
      let (p, packed, e1) =
        bind_some (pack_command demand s.driver)
          (λ p. txandrx_pd lib p.master_buffer_size p.this_buffer max_pd_retries p >>= λ r.
            some (swap_buffers r.0))
          d e in
      let (r, sent, e2) =
        bind_some (txandrx_pd lib p.master_buffer_size p.this_buffer max_pd_retries p)
          (λ r. some (swap_buffers r.0)) d e1 in
      let (q, tried, turned) = bind_some (attempts lib max_pd_retries p) (give_turn lib) r sent in
      let s1 : Plant Net = record s { driver = p; cycle = trying max_pd_retries } in
      let (s2, to_s2, at2, c2, same2) =
        tries_run s s1 max_pd_retries q.0 q.1
          (next here (pack _ _ p c (sym (pack_command_racing demand s.driver) ∙ packed)))
          (λ j. refl) refl tried in
      let (s3, to_s3, at3, c3, same3) = end_run s s2 q r to_s2 same2 at2 c2 turned in
      (
        record s3 { driver = swap_buffers s3.driver; cycle = between },
        next to_s3 (swap c3),
        ap swap_buffers at3 ∙ ground arith,
        refl,
        same3,
      )
