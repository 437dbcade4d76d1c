-- ===== src/Supervisor/Reaping/Cell.antt =====
-- The signal cell keeps the first signal of each interval between takes (src/supervisor.rs).
use liskov_runtime_cargo.Prelude.{
  ℕ, ◌<◌, ◌≡◌, refl, ap, false, Option, none, some, List, [], ◌∷◌, arith, ◌⊎◌, inl, inr, ◌==◌,
}
use liskov_runtime_cargo.Supervisor.Reaping.{
  capture_signal, take_signal, CellEvent, captured, taken, takes,
}

-- Each take gives the first signal captured since the take before it, if there is one.
abbrev pub first_captured : Option ℕ → List CellEvent → List (Option ℕ)
first_captured first [] = []
first_captured none (captured s ∷ es) = first_captured (some s) es
first_captured (some first) (captured s ∷ es) = first_captured (some first) es
first_captured first (taken ∷ es) = first ∷ first_captured none es

-- Signal numbers are positive.
abbrev pub ArePositive : List CellEvent → Type 0
ArePositive [] = Unit
ArePositive (captured s ∷ es) = (0 < s) × ArePositive es
ArePositive (taken ∷ es) = ArePositive es

abbrev in_cell : Option ℕ → ℕ
in_cell none = 0
in_cell (some s) = s

takes_from :
    (es : List CellEvent) (first : Option ℕ)
    → ArePositive es
    → (first ≡ none) ⊎ (0 < in_cell first)
    → takes (in_cell first) es ≡ first_captured first es
unfolding takes capture_signal take_signal
takes_from [] first p h = refl
takes_from (captured s ∷ es) none (p, ps) h = takes_from es (some s) ps (inr p)
takes_from (captured s ∷ es) (some first) (p, ps) (inl e) = absurd (ground arith)
takes_from (captured s ∷ es) (some first) (p, ps) (inr h) =
    let full : (first == 0) ≡ false = ground arith in
    rw full (takes_from es (some first) ps (inr h))
takes_from (taken ∷ es) none p h = ap (λ l. none ∷ l) (takes_from es none p (inl refl))
takes_from (taken ∷ es) (some first) p (inl e) = absurd (ground arith)
takes_from (taken ∷ es) (some first) p (inr h) =
    let full : (first == 0) ≡ false = ground arith in
    rw full (ap (λ l. some first ∷ l) (takes_from es none p (inl refl)))

-- Over any interleaving of captures, of positive signals, and takes, each take gives the first
-- signal captured since the take before it, or none if none was: later ones are dropped.
pub takes-eq-first_captured :
    (es : List CellEvent) → ArePositive es → takes 0 es ≡ first_captured none es
takes-eq-first_captured es p = takes_from es none p (inl refl)
