-- ===== src/Traversal/Texts.antt =====
-- Refusals, limits and the tests on texts of src/network_traversal/mod.rs. A text is its bytes.
use liskov_runtime_cargo.Prelude.{
  ℕ, ◌*◌, Bool, true, false, not, ◌&&◌, ◌||◌, Option, none, some, [], ◌∷◌, Bytes, codes, all, ◌==◌,
  leb, if◌then◌else◌, length,
}

abbrev pub traversal_block_max_bytes : ℕ
traversal_block_max_bytes = 8 * 1024

abbrev pub traversal_capability_max_ms : ℕ
traversal_capability_max_ms = 120_000

abbrev pub traversal_experiment_max_ms : ℕ
traversal_experiment_max_ms = 30_000

abbrev pub traversal_cleanup_reserve_ms : ℕ
traversal_cleanup_reserve_ms = 5_000

abbrev pub safe_integer : ℕ
safe_integer = 9_007_199_254_740_991

pub data TraversalRefusal : Type 0 where
  malformed unknown_version wrong_domain invalid_binding invalid_scope invalid_budget
        invalid_deadline invalid_consent invalid_pair invalid_proof oversize not_yet_valid expired
        insufficient_time invalid_mac non_canonical :
      TraversalRefusal

abbrev no_bytes : Bytes → Bool
no_bytes [] = true
no_bytes (b ∷ bs) = false

-- `is_ascii_graphic` of every byte.
unfoldable pub text : Bytes → Bool
text s = not (no_bytes s) && leb (length s) 128 && all (λ b. leb 33 b && leb b 126) s

unfoldable pub lower_hex : Bytes → ℕ → Bool
lower_hex s bytes =
    length s == bytes * 2 && all (λ b. (leb b'0' b && leb b b'9') || (leb b'a' b && leb b b'f')) s

unfoldable pub strip_prefix : Bytes → Bytes → Option Bytes
strip_prefix [] s = some s
strip_prefix (p ∷ ps) [] = none
strip_prefix (p ∷ ps) (b ∷ bs) = let rest = strip_prefix ps bs in if p == b then rest else none

unfoldable pub digest : Bytes → Bool
digest s = elim (strip_prefix (codes "sha256:") s) [ none ↦ false | some hex ↦ lower_hex hex 32 ]
