-- ===== src/Common/Loops.antt =====
-- Loops: a round is a function of the state that gives the next state, or nothing where the loop ends.
use Prim.Native.Nat.{ℕ, zero, suc, ◌≤◌, ◌<◌}
use mathlib.Core.Path.{◌≡◌, refl, sym, subst}
use mathlib.Core.Logic.{inl, inr}
use mathlib.Core.Option.{Option, none, some}
use native.Mathlib.Omega.{arith}
use marmot_cli.Common.Tests.{Option-cases}

-- What the loop does after a round.
unfoldable pub resume {ℓ} : {S : Type ℓ} → S → (S → S) → Option S → S
resume s loop none = s
resume s loop (some t) = loop t

module _ {ℓ} {S : Type ℓ} (round : S → Option S) where
  -- So many rounds at most.
  unfoldable pub repeat : ℕ → S → S
  unfolding resume
  repeat zero s = s
  repeat (suc fuel) s = resume s (repeat fuel) (round s)

  -- The loop, with no bound on its rounds, ends in the second state.
  pub data Ends : S → S → Type ℓ where
    exit : {s : S} → round s ≡ none → Ends s s
    again : {s t u : S} → round s ≡ some t → Ends t u → Ends s u

  -- With a measure that each round lowers, as many rounds as it counts are enough.
  pub repeat-Ends :
      (measure : S → ℕ)
      → ((s t : S) → round s ≡ some t → measure t < measure s)
      → (fuel : ℕ) (s : S) → measure s ≤ fuel
      → Ends s (repeat fuel s)
  unfolding repeat
  repeat-Ends measure lower zero s h = elim (Option-cases (round s)) [
    | inl e ↦ exit e
    | inr (t, e) ↦ absurd (omega (arith, lower s t e))
  ]
  repeat-Ends measure lower (suc fuel) s h = elim (Option-cases (round s)) [
    | inl e ↦ rw (e, resume) (exit e)
    | inr (t, e) ↦
        rw (e, resume) (again e (repeat-Ends measure lower fuel t (omega (arith, lower s t e))))
  ]

  -- The loop has one end.
  pub Ends-unique : {s t u : S} → Ends s t → Ends s u → t ≡ u
  Ends-unique (exit e) (exit d) = refl
  Ends-unique (exit e) (again d rest) = cc
  Ends-unique (again e rest) (exit d) = cc
  Ends-unique {s} {t} {u} (again {t = v} e rest) (again {t = w} d other) =
      let same : v ≡ w = cc in Ends-unique rest (subst (λ x. Ends x u) (sym same) other)

  -- What each round keeps holds at the end.
  pub repeat-keeps {κ} :
      (P : S → Type κ)
      → ((s t : S) → round s ≡ some t → P s → P t)
      → (fuel : ℕ) (s : S) → P s
      → P (repeat fuel s)
  unfolding repeat
  repeat-keeps P keep zero s p = p
  repeat-keeps P keep (suc fuel) s p = elim (Option-cases (round s)) [
    | inl e ↦ rw (e, resume) p
    | inr (t, e) ↦ rw (e, resume) (repeat-keeps P keep fuel t (keep s t e p))
  ]
