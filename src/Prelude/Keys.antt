-- ===== src/Prelude/Keys.antt =====
-- The order on the keys of a `BTreeMap`: an interface, with its instances for numbers and texts.
use Prim.Native.Nat.{ℕ, compare, Ordering}
use Prim.Native.String.{String, compare as compare_text}
use mathlib.Core.Path.{◌≡◌, refl}
use mathlib.Core.Logic.{◌↔◌}
use mathlib.Core.Bool.{Bool, true, false}
use native.Mathlib.Omega.{arith}
use text.Mathlib.TextEquality.{path_by_compare}
use text.Mathlib.TextPositions.{compare_refl}

-- Rust's `Ord`, with the laws that the lookup of a key needs.
pub record Key {ℓ} (K : Type ℓ) : Type ℓ where
  pub cmp : K → K → Ordering
  pub eq_of_cmp : (a b : K) → cmp a b ≡ Ordering.eq → a ≡ b
  pub cmp_refl : (a : K) → cmp a a ≡ Ordering.eq

pub compare_eq : (a b : ℕ) → compare a b ≡ Ordering.eq → a ≡ b
compare_eq a b h = ground arith

pub compare_self : (a : ℕ) → compare a a ≡ Ordering.eq
compare_self a = ground arith

instance abbrev pub nat_key : Key ℕ
nat_key = record { cmp = compare; eq_of_cmp = compare_eq; cmp_refl = compare_self }

instance abbrev pub text_key : Key String
text_key = record { cmp = compare_text; eq_of_cmp = path_by_compare; cmp_refl = compare_refl }

abbrev pub is_same : Ordering → Bool
is_same Ordering.lt = false
is_same Ordering.eq = true
is_same Ordering.gt = false

-- `a == b` on keys
infix 50 ◌≟◌
abbrev pub ◌≟◌ {ℓ} : {K : Type ℓ} ⦃o : Key K⦄ → K → K → Bool
◌≟◌ ⦃o⦄ a b = is_same (o.cmp a b)

is_same-eq : (o : Ordering) → is_same o ≡ true → o ≡ Ordering.eq
is_same-eq Ordering.lt h = cc
is_same-eq Ordering.eq h = refl
is_same-eq Ordering.gt h = cc

module _ {ℓ} {K : Type ℓ} ⦃o : Key K⦄ where
  pub ≟_iff : (a b : K) → ((a ≟ b) ≡ true) ↔ (a ≡ b)
  ≟_iff a b = (λ h. o.eq_of_cmp a b (is_same-eq (o.cmp a b) h), λ e. rw e (rw (o.cmp_refl b)))

  pub ≟_refl : (a : K) → (a ≟ a) ≡ true
  ≟_refl a = (≟_iff a a).1 refl
