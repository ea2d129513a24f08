-- ===== src/Prelude/Window.antt =====
-- What a circular buffer holds: the `n` entries from an index on, going round at the capacity.
use Prim.Native.Nat.{ℕ, zero, suc, ◌+◌, ◌-◌, ◌%◌, ◌≤◌, ◌<◌}
use mathlib.Core.Path.{◌≡◌, refl, sym, ap, ap₂, ◌∙◌}
use mathlib.Core.Logic.{◌≢◌}
use mathlib.Core.List.{List, [], ◌∷◌, ◌++◌}
use native.Mathlib.Nat.{mod-add-mod, mod-eq_of_lt, mod-eq-sub-mod, add-zero, add-mod_right}
use native.Mathlib.Decide.{dec_lt}
use native.Mathlib.Omega.{arith}
use my_os.Prelude.Lists.{length, get_or, set, get_or-set_self, get_or-set_ne}

module _ {ℓ} {A : Type ℓ} (cap : ℕ) (d : A) where
  abbrev pub window : List A → ℕ → ℕ → List A
  window buf h zero = []
  window buf h (suc n) = get_or buf h d ∷ window buf ((h + 1) % cap) n

  pub length-window : (buf : List A) (h n : ℕ) → length (window buf h n) ≡ n
  length-window buf h zero = refl
  length-window buf h (suc n) = ap suc (length-window buf ((h + 1) % cap) n)

  -- The code tests a count against zero where `window` matches on it.
  pub window-pop :
      (buf : List A) (h n : ℕ)
      → n ≢ 0
      → window buf h n ≡ get_or buf h d ∷ window buf ((h + 1) % cap) (n - 1)
  window-pop buf h zero p = absurd (p refl)
  window-pop buf h (suc n) p = ap (λ k. window buf h (suc k)) (omega arith)

  shift_start : (h n : ℕ) → (h + suc n) % cap ≡ ((h + 1) % cap + n) % cap
  shift_start h n = rw mod-add-mod (ap (λ k. k % cap) (omega arith))

  -- Going round by fewer steps than the capacity never comes back to the start.
  pub index_ne : (h k : ℕ) → h < cap → suc k < cap → (h + suc k) % cap ≢ h
  index_ne h k hh hk = elim (dec_lt (h + suc k) cap) [
    | yes p ↦ omega (arith, mod-eq_of_lt p)
    | no p ↦
        let once = mod-eq-sub-mod {n = h + suc k} {m = cap} (omega arith) in
        let rest = mod-eq_of_lt {n = h + suc k - cap} {m = cap} (omega arith) in omega arith
  ]

  -- A write behind a window, short of a full turn, leaves it.
  pub window-set_ne :
      (buf : List A) (x : A) (h n k i : ℕ)
      → h < cap
      → n ≤ k
      → k < cap
      → i ≡ (h + k) % cap
      → window (set buf i x) h n ≡ window buf h n
  window-set_ne buf x h zero k i hh hn hk e = refl
  window-set_ne buf x h (suc n) zero i hh hn hk e = absurd (omega arith)
  window-set_ne buf x h (suc n) (suc k) i hh hn hk e =
      ap₂ ◌∷◌ (get_or-set_ne buf i h x d (rw e (index_ne h k hh hk))) (
        window-set_ne buf x ((h + 1) % cap) n k i (omega arith) (omega arith) (omega arith)
          (e ∙ shift_start h k))

  -- A write just behind a window extends it.
  pub window-push :
      (buf : List A) (x : A) (h n i : ℕ)
      → cap ≤ length buf
      → h < cap
      → n < cap
      → i ≡ (h + n) % cap
      → window (set buf i x) h (suc n) ≡ window buf h n ++ (x ∷ [])
  window-push buf x h zero i hs hh hn e =
      rw (e, add-zero, mod-eq_of_lt hh, get_or-set_self buf h x d (omega arith))
  window-push buf x h (suc n) i hs hh hn e =
      ap₂ ◌∷◌ (get_or-set_ne buf i h x d (rw e (index_ne h n hh hn)))
        (window-push buf x ((h + 1) % cap) n i hs (omega arith) (omega arith) (e ∙ shift_start h n))

  -- A write over the oldest entry of a full buffer drops that entry and adds the new one.
  pub window-rotate :
      (buf : List A) (x : A) (h n : ℕ)
      → cap ≤ length buf
      → h < cap
      → suc n ≡ cap
      → window (set buf h x) ((h + 1) % cap) (suc n) ≡ window buf ((h + 1) % cap) n ++ (x ∷ [])
  window-rotate buf x h n hs hh e =
      window-push buf x ((h + 1) % cap) n h hs (omega arith) (omega arith) turn
    where
      turn : h ≡ ((h + 1) % cap + n) % cap
      turn =
          let round : h + suc n ≡ h + cap = omega arith in
          let whole = add-mod_right h cap in
          sym (mod-eq_of_lt hh) ∙ sym whole ∙ ap (λ k. k % cap) (sym round) ∙ shift_start h n
