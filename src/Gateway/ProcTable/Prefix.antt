-- ===== src/Gateway/ProcTable/Prefix.antt =====
-- `prefix_len` of src/network_traversal/gateway.rs: the length of a network mask.
use liskov_runtime_cargo.Prelude.{
  ℕ, zero, suc, ◌-◌, ◌*◌, ◌%◌, ◌^◌, ◌≤◌, ◌<◌, ◌≡◌, refl, sym, ◌∙◌, ap, subst, ◌↔◌, inl, inr, Bool,
  true, ◌&&◌, some, ◌==◌, ==_iff, arith, if◌then◌else◌, Bool-cases, and-eq-true, u32_max,
}
use liskov_runtime_cargo.Gateway.Numerals.{leading_ones}
use liskov_runtime_cargo.Gateway.ProcTable.{prefix_len}

pub leading_ones_le : (width bits : ℕ) → leading_ones width bits ≤ width
unfolding leading_ones
leading_ones_le zero bits = omega arith
leading_ones_le (suc width) bits = ground (arith, leading_ones_le width (bits - 2 ^ width))

-- The mask of a prefix length: that many ones, from the top.
abbrev pub mask_of : ℕ → ℕ
mask_of p = 2 ^ 32 - 2 ^ (32 - p)

abbrev all_below : (ℕ → Bool) → ℕ → Bool
all_below p zero = true
all_below p (suc n) = p n && all_below p n

all_below-elim : (p : ℕ → Bool) (n i : ℕ) → all_below p n ≡ true → i < n → p i ≡ true
all_below-elim p zero i h k = absurd (omega arith)
all_below-elim p (suc n) i h k =
    let (here, below) = and-eq-true (p n) (all_below p n) h in
    elim (Bool-cases (i == n)) [
      | inl same ↦ subst (λ j. p j ≡ true) (sym ((==_iff i n).0 same)) here
      | inr other ↦ all_below-elim p n i below (ground arith)
    ]

abbrev expected : ℕ → ℕ
expected ones = if ones == 0 then 0 else u32_max * 2 ^ (32 - ones) % 2 ^ 32

abbrev agrees : ℕ → Bool
agrees p = leading_ones 32 (mask_of p) == p && expected p == mask_of p

-- The masks of the 33 lengths are the ones that the code compares with.
masks_agree : all_below agrees 33 ≡ true
unfolding leading_ones
masks_agree = refl

mask_lem : (p : ℕ) → p ≤ 32 → (leading_ones 32 (mask_of p) ≡ p) × (expected p ≡ mask_of p)
mask_lem p h =
    let (ones, mask) = and-eq-true _ _ (all_below-elim agrees 33 p masks_agree (omega arith)) in
    ((==_iff _ _).0 ones, (==_iff _ _).0 mask)

-- A mask has a prefix length exactly when it is that many ones from the top, of 32 bits, followed
-- by zeros; every other mask is refused.
pub prefix_len-eq-some_iff :
    (mask p : ℕ) → (prefix_len mask ≡ some p) ↔ ((p ≤ 32) × (mask ≡ mask_of p))
unfolding prefix_len
prefix_len-eq-some_iff mask p = (
  λ h.
      let ones : leading_ones 32 mask ≡ p = ground arith in
      let small : p ≤ 32 = subst (λ q. q ≤ 32) ones (leading_ones_le 32 mask) in
      let same : mask ≡ expected (leading_ones 32 mask) = ground arith in
      (small, same ∙ ap expected ones ∙ (mask_lem p small).1),
  λ (small, same).
      let (ones, is_mask) = mask_lem p small in
      let counted : leading_ones 32 mask ≡ p = ap (leading_ones 32) same ∙ ones in
      rw (counted, is_mask, (==_iff mask (mask_of p)).1 same) refl,
)
