-- ===== src/Driver/ProcessData/Replies.antt =====
-- The tries of `txandrx_PD`: what goes to the network, and the reply that comes back.
use mathlib.Core.Option
use pr2_ether_cat_no_ros.Base.{
  ℕ, zero, suc, ◌≤◌, ◌≡◌, refl, ◌∙◌, inl, inr, Option, none, some, List, if◌then◌else◌, ◌>>=◌,
  arith, length, Option-cases,
}
use pr2_ether_cat_no_ros.Base.Memory.{IsBytes, slice, read_bytes_within}
use pr2_ether_cat_no_ros.Eml.Library.{Library, IsDocumented}
use pr2_ether_cat_no_ros.Com.Oob.{Oob, tx}
use pr2_ether_cat_no_ros.Driver.State.{Driver}
use pr2_ether_cat_no_ros.Driver.ProcessData.{
  rt_thread, exchange, attempts, give_turn, txandrx_pd, with_reply,
}

module _ {Net : Type 0} where
  -- The bytes that the library is given.
  abbrev pub wire : Driver Net → List ℕ
  wire d = slice d.master_buffer 0 d.master_buffer_size

module _ {Net : Type 0} (lib : Library Net) where
  -- The reply of the first of `tries` exchanges of `sent` that has one.
  unfoldable pub first_reply : ℕ → Net → List ℕ → Net × Option (List ℕ)
  first_reply zero net sent = (net, none)
  first_reply (suc tries) net sent =
      let (net', reply) = lib.txandrx_pd net sent in
      let rest = first_reply tries net' sent in
      elim reply [ some got ↦ (net', some got) | none ↦ rest ]

  exchange_lem :
      (d : Driver Net)
      → d.master_buffer_size ≤ length d.master_buffer
      → exchange lib d ≡ some (with_reply d (lib.txandrx_pd d.net (wire d)))
  unfolding exchange
  exchange_lem d h =
      rw (read_bytes_within d.master_buffer 0 d.master_buffer_size (omega arith), ◌>>=◌)

  -- The loop of `txandrx_PD` sends the same bytes until a reply comes, `tries` times at most.
  pub attempts_lem :
      (tries : ℕ) (d : Driver Net)
      → d.master_buffer_size ≤ length d.master_buffer
      → attempts lib tries d ≡ some (with_reply d (first_reply tries d.net (wire d)))
  unfolding attempts first_reply
  attempts_lem zero d h = refl
  attempts_lem (suc tries) d h =
      rw (exchange_lem d h, ◌>>=◌)
        (go (lib.txandrx_pd d.net (wire d))
          (attempts_lem tries (record d { net = (lib.txandrx_pd d.net (wire d)).0 }) h))
    where
      go :
          (p : Net × Option (List ℕ))
          → attempts lib tries (record d { net = p.0 })
            ≡ some (with_reply d (first_reply tries p.0 (wire d)))
          → (if (with_reply d p).1
              then some (with_reply d p)
              else attempts lib tries (with_reply d p).0)
            ≡ some (
                with_reply d (elim (p.1) [
                  | some got ↦ (p.0, some got)
                  | none ↦ first_reply tries p.0 (wire d)
                ]))
      go (n, none) ih = ih
      go (n, some got) ih = refl

  -- The network after one `txandrx_PD` of the bytes `sent`.
  pub network_after : ℕ → Net → Oob → List ℕ → Option Net
  network_after tries net o sent = elim ((first_reply tries net sent).1) [
    | some got ↦ some (first_reply tries net sent).0
    | none ↦ (do t ← tx lib rt_thread (first_reply tries net sent).0 o; some (t.0))
  ]

  -- Nothing but the bytes on the wire decides what the network sees of a `txandrx_PD`.
  pub txandrx_pd_net :
      (size : ℕ) (buffer : Option ℕ) (tries : ℕ) (d : Driver Net)
      → d.master_buffer_size ≤ length d.master_buffer
      → Option.map (λ s. s.0.net) (txandrx_pd lib size buffer tries d)
        ≡ network_after tries d.net d.oob_com (wire d)
  unfolding txandrx_pd network_after give_turn
  txandrx_pd_net size buffer tries d h =
      rw (attempts_lem tries d h, ◌>>=◌) (go (first_reply tries d.net (wire d)))
    where
      go :
          (reply : Net × Option (List ℕ))
          → Option.map (λ s. s.0.net) (give_turn lib (with_reply d reply)) ≡ elim (reply.1) [
            | some got ↦ some (reply.0)
            | none ↦ (do t ← tx lib rt_thread (reply.0) (d.oob_com); some (t.0))
          ]
      go (net, some got) = refl
      go (net, none) = ground arith

  module _ (doc : IsDocumented lib) where
    pub first_reply_length :
        (tries : ℕ) (net : Net) (sent got : List ℕ)
        → (first_reply tries net sent).1 ≡ some got
        → length got ≡ length sent
    unfolding first_reply
    first_reply_length zero net sent got e = cc
    first_reply_length (suc tries) net sent got e = ground (
      arith,
      doc.received_length net sent got,
      first_reply_length tries (lib.txandrx_pd net sent).0 sent got,
    )

    pub first_reply-IsBytes :
        (tries : ℕ) (net : Net) (sent got : List ℕ)
        → (first_reply tries net sent).1 ≡ some got
        → IsBytes got
    unfolding first_reply
    first_reply-IsBytes zero net sent got e = cc
    first_reply-IsBytes (suc tries) net sent got e =
        elim (Option-cases (lib.txandrx_pd net sent).1) [
          | inl failed ↦
              first_reply-IsBytes tries (lib.txandrx_pd net sent).0 sent got
                (rw (failed, first_reply) at e)
          | inr (other, came) ↦
              doc.received_bytes net sent got (came ∙ (rw (came, first_reply) at e))
        ]
