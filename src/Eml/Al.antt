-- ===== src/Eml/Al.antt =====
-- eml/include/al/ethercat_AL.h: the auto-increment addresses of the slaves in a ring, and the index
-- of the frames.
use pr2_ether_cat_no_ros.Base.{ℕ, zero, suc, ◌+◌, ◌-◌, ◌%◌, ◌^◌, ◌<◌, ◌≡◌, ◌≢◌, ◌∙◌, arith}

-- 0x0000 less a position, cut to an `EC_UINT`.
unfoldable pub ringpos2adp : ℕ → ℕ
ringpos2adp ringpos = (2 ^ 16 - ringpos % 2 ^ 16) % 2 ^ 16

unfoldable pub adp2ringpos : ℕ → ℕ
adp2ringpos adp = (2 ^ 16 - adp % 2 ^ 16) % 2 ^ 16

-- `EC_Logic`, less its singleton: the working counter and the index, which are an EC_UINT and an
-- EC_USINT.
pub record Logic : Type 0 where
  pub m_wkc : ℕ
  pub m_idx : ℕ

-- `get_idx`: the index before it moves on.
unfoldable pub get_idx : Logic → Logic × ℕ
get_idx l = (record l { m_idx = (l.m_idx + 1) % 2 ^ 8 }, l.m_idx)

unfoldable pub get_wkc : Logic → ℕ
get_wkc l = l.m_wkc

-- The state after `n` frames.
abbrev pub after_frames : ℕ → Logic → Logic
after_frames zero l = l
after_frames (suc n) l = after_frames n (get_idx l).0

-- For positions and addresses of 16 bits `ringpos2adp` and `adp2ringpos` undo each other.
pub ring_round_trip :
    (ringpos adp : ℕ)
    → ringpos < 2 ^ 16
    → adp < 2 ^ 16
    → (adp2ringpos (ringpos2adp ringpos) ≡ ringpos) × (ringpos2adp (adp2ringpos adp) ≡ adp)
unfolding ringpos2adp adp2ringpos
ring_round_trip ringpos adp h g = (omega arith, omega arith)

after_frames-idx :
    (n : ℕ) (l : Logic) → l.m_idx < 2 ^ 8 → (get_idx (after_frames n l)).1 ≡ (l.m_idx + n) % 2 ^ 8
unfolding get_idx
after_frames-idx zero l h = omega arith
after_frames-idx (suc n) l h = after_frames-idx n (get_idx l).0 (omega arith) ∙ omega arith

-- From an index of 8 bits on, two frames sent less than 256 apart have different indices.
pub indices_differ :
    (i j : ℕ) (l : Logic)
    → l.m_idx < 2 ^ 8
    → i < j
    → j < i + 256
    → (get_idx (after_frames i l)).1 ≢ (get_idx (after_frames j l)).1
indices_differ i j l h g near same =
    let a = after_frames-idx i l h in
    let b = after_frames-idx j l h in omega (arith, a, b, same, g, near)
