-- ===== src/Base/Loop.antt =====
-- Loops that may panic, with the rule that an invariant of one round holds at the end and the rule
-- that a loop with a falling measure ends.
use Prim.Native.Nat.{ℕ, zero, suc, ◌<◌, ◌≤◌}
use mathlib.Core.Path.{◌≡◌, refl}
use mathlib.Core.Logic.{◌⊎◌, ◌≢◌, inl, inr}
use native.Mathlib.Omega.{arith}

pub data Outcome (S : Type 0) : Type 0 where
  done : S → Outcome S
  panic out_of_fuel : Outcome S

-- What one round of a loop does.
pub data Round (S : Type 0) : Type 0 where
  stop : S → Round S
  again : S → Round S
  fault : Round S

module _ {S : Type 0} where
  pub Round-cases :
      (r : Round S) → ((s : S) × (r ≡ stop s)) ⊎ ((s : S) × (r ≡ again s)) ⊎ (r ≡ fault)
  Round-cases (stop s) = inl (s, refl)
  Round-cases (again s) = inr (inl (s, refl))
  Round-cases fault = inr (inr refl)

  unfoldable pub repeat : ℕ → (S → Round S) → S → Outcome S
  repeat zero round s = elim (round s) [ stop t ↦ done t | again _ ↦ out_of_fuel | fault ↦ panic ]
  repeat (suc fuel) round s = elim (round s) [
    | stop t ↦ done t
    | again t ↦ repeat fuel round t
    | fault ↦ panic
  ]

module _ {S : Type 0} (round : S → Round S) where
  -- one round of a loop
  pub repeat-stop : (fuel : ℕ) (s t : S) → round s ≡ stop t → repeat fuel round s ≡ done t
  unfolding repeat
  repeat-stop zero s t e = ground arith
  repeat-stop (suc fuel) s t e = ground arith

  pub repeat-again :
      (fuel : ℕ) (s t : S) → round s ≡ again t → repeat (suc fuel) round s ≡ repeat fuel round t
  unfolding repeat
  repeat-again fuel s t e = ground arith

module _ {S : Type 0} (round : S → Round S) (P : S → Type 0) where
  -- `P` before each round, and the last state is where the last round stopped.
  pub repeat_rule :
      ((s t : S) → P s → round s ≡ again t → P t)
      → (fuel : ℕ) (s t : S) → P s
      → repeat fuel round s ≡ done t
      → (last : S) × P last × (round last ≡ stop t)
  unfolding repeat
  repeat_rule keep zero s t p e = elim (Round-cases (round s)) [
    | inl (u, r) ↦ (s, p, ground arith)
    | inr (inl (u, r)) ↦ absurd (ground arith)
    | inr (inr r) ↦ absurd (ground arith)
  ]
  repeat_rule keep (suc fuel) s t p e = elim (Round-cases (round s)) [
    | inl (u, r) ↦ (s, p, ground arith)
    | inr (inl (u, r)) ↦ repeat_rule keep fuel u t (keep s u p r) (ground arith)
    | inr (inr r) ↦ absurd (ground arith)
  ]

  -- Rounds that never fault and lower a measure come to an end within that much fuel.
  pub repeat_ends :
      (measure : S → ℕ)
      → ((s : S) → P s → round s ≢ fault)
      → ((s t : S) → P s → round s ≡ again t → P t × (measure t < measure s))
      → (fuel : ℕ) (s : S) → P s
      → measure s ≤ fuel
      → (t : S) × (repeat fuel round s ≡ done t)
  unfolding repeat
  repeat_ends measure safe keep zero s p m = elim (Round-cases (round s)) [
    | inl (u, r) ↦ (u, ground arith)
    | inr (inl (u, r)) ↦ absurd (let k = keep s u p r in omega arith)
    | inr (inr r) ↦ absurd (safe s p r)
  ]
  repeat_ends measure safe keep (suc fuel) s p m = elim (Round-cases (round s)) [
    | inl (u, r) ↦ (u, ground arith)
    | inr (inl (u, r)) ↦
        let (pu, less) = keep s u p r in
        let (t, e) = repeat_ends measure safe keep fuel u pu (omega arith) in (t, ground arith)
    | inr (inr r) ↦ absurd (safe s p r)
  ]
