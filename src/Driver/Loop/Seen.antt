-- ===== src/Driver/Loop/Seen.antt =====
-- What the network sees of the rounds of the real-time loop.
use mathlib.Core.Option
use pr2_ether_cat_no_ros.Base.{
  ℕ, ◌<◌, ◌≡◌, refl, sym, ap, ◌∙◌, subst, inl, inr, Bool, true, false, not, Option, none, some,
  List, [], ◌∷◌, ◌>>=◌, arith, Bool-cases,
}
use pr2_ether_cat_no_ros.Eml.Library.{Library, IsDocumented}
use pr2_ether_cat_no_ros.Driver.State.{Driver}
use pr2_ether_cat_no_ros.Driver.ProcessData.Ready.{IsReady}
use pr2_ether_cat_no_ros.Driver.ProcessData.Update.{update_total}
use pr2_ether_cat_no_ros.Driver.ProcessData.View.{
  View, is_lower, view, after_reply, with_command, cycle_view, update-view,
}
use pr2_ether_cat_no_ros.Driver.Loop.{run_cycles}

-- Two runs of as many commands that agree in every other round: in the first one if the flag says
-- so, else in the second.
abbrev pub Agree : Bool → List ℕ → List ℕ → Type 0
Agree b [] [] = Unit
Agree b [] (y ∷ ys) = ⊥
Agree b (x ∷ xs) [] = ⊥
Agree true (x ∷ xs) (y ∷ ys) = (x ≡ y) × Agree false xs ys
Agree false (x ∷ xs) (y ∷ ys) = Agree true xs ys

module _ (x y : ℕ) (xs ys : List ℕ) where
  Agree-first : (b : Bool) → b ≡ true → Agree b (x ∷ xs) (y ∷ ys) → x ≡ y
  Agree-first true e a = a.0
  Agree-first false e a = cc

  Agree-rest : (b : Bool) → Agree b (x ∷ xs) (y ∷ ys) → Agree (not b) xs ys
  Agree-rest true a = a.1
  Agree-rest false a = a

bind_same :
    {A B : Type 0} (o : Option A) (f g : A → Option B)
    → ((a : A) → o ≡ some a → f a ≡ g a)
    → (o >>= f) ≡ (o >>= g)
bind_same none f g h = refl
bind_same (some a) f g h = h a refl

module _ {Net : Type 0} (lib : Library Net) where
  -- The rounds of the single frame.
  unfoldable pub run_view : List ℕ → View Net → Option (View Net)
  run_view [] v = some v
  run_view (demand ∷ demands) v = cycle_view lib demand v >>= run_view demands

  after_reply-lower :
      (v v' : View Net) (reply : Net × Option (List ℕ))
      → after_reply lib v reply ≡ some v'
      → v'.lower ≡ not v.lower
  after_reply-lower v v' (net, some got) e = cc
  after_reply-lower v v' (net, none) e = ground arith

  cycle_view-lower :
      (demand : ℕ) (v v' : View Net) → cycle_view lib demand v ≡ some v' → v'.lower ≡ not v.lower
  unfolding cycle_view
  cycle_view-lower demand v v' e = after_reply-lower (with_command lib demand v) v' _ e

  -- A cycle in which the frame does not take the command.
  cycle_view-upper :
      (x y : ℕ) (v : View Net) → v.lower ≡ false → cycle_view lib x v ≡ cycle_view lib y v
  unfolding cycle_view
  cycle_view-upper x y v e = rw e refl

  run_view-Agree :
      (xs ys : List ℕ) (v : View Net) → Agree v.lower xs ys → run_view xs v ≡ run_view ys v
  unfolding run_view
  run_view-Agree [] [] v a = refl
  run_view-Agree [] (y ∷ ys) v a = absurd a
  run_view-Agree (x ∷ xs) [] v a = absurd a
  run_view-Agree (x ∷ xs) (y ∷ ys) v a =
      let same : cycle_view lib x v ≡ cycle_view lib y v = elim (Bool-cases (v.lower)) [
        | inl takes ↦ ap (λ z. cycle_view lib z v) (Agree-first x y xs ys v.lower takes a)
        | inr not_taken ↦ cycle_view-upper x y v not_taken
      ] in
      ap (λ o. o >>= run_view xs) same
      ∙ bind_same (cycle_view lib y v) (run_view xs) (run_view ys) (λ v' e.
        run_view-Agree xs ys v' (
          subst (λ b. Agree b xs ys) (sym (cycle_view-lower y v v' e))
            (Agree-rest x y xs ys v.lower a)))

  module _ (doc : IsDocumented lib) where
    -- With a documented library, ready buffers and at least one slave, the rounds of the real-time
    -- loop do to what the network sees of the driver what the rounds of a single frame do.
    pub run_cycles-view :
        (demands : List ℕ) (d : Driver Net)
        → IsReady d
        → 0 < d.master_buffer_size
        → Option.map (λ x. view x) (run_cycles lib demands d) ≡ run_view demands (view d)
    unfolding run_cycles run_view
    run_cycles-view [] d ready some_slot = refl
    run_cycles-view (demand ∷ demands) d ready some_slot =
        let (d1, e, ready1, this1, prev1, size1, same1) = update_total lib doc demand d ready in
        let one : some (view d1) ≡ cycle_view lib demand (view d) =
          ap (Option.map (λ x. view x)) (sym e) ∙ update-view lib doc demand d ready some_slot in
        ap (λ o. Option.map (λ x. view x) (o >>= run_cycles lib demands)) e
        ∙ run_cycles-view demands d1 ready1 (subst (λ n. 0 < n) (sym size1) some_slot)
        ∙ ap (λ o. o >>= run_view demands) one

    -- With a documented library, ready buffers and at least one slave: after two runs of the
    -- real-time loop over as many rounds, whose commands agree in every other round, beginning with
    -- the one in which `this_buffer_` is the lower half, the network is in the same state, and so
    -- are the lower half and the out-of-band object. The commands of the rounds between make no
    -- difference.
    pub commands_lost :
        (xs ys : List ℕ) (d : Driver Net)
        → IsReady d
        → 0 < d.master_buffer_size
        → Agree (is_lower d.this_buffer) xs ys
        → Option.map (λ x. view x) (run_cycles lib xs d)
          ≡ Option.map (λ x. view x) (run_cycles lib ys d)
    commands_lost xs ys d ready some_slot a =
        run_cycles-view xs d ready some_slot
        ∙ run_view-Agree xs ys (view d) a
        ∙ sym (run_cycles-view ys d ready some_slot)
