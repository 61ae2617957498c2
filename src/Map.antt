-- ===== src/Map.antt =====
-- `std::collections::BTreeMap`: the entries in the order of the keys, as an iteration yields them.
use Prim.Native.Nat.{Ordering}
use mathlib.Core.Path.{subst}
use aomori.Prelude.{
  ◌≡◌, refl, Bool, Option, none, some, List, [], ◌∷◌, arith, Key, ◌≟◌, ≟_iff, ≟_refl, is_some, All,
  Bool-cases, inl, inr, if◌then◌else◌,
}

abbrev pub BTreeMap {ℓ κ} : Type ℓ → Type κ → Type (ℓ ⊔ κ)
BTreeMap K V = List (K × V)

module _ {ℓ κ} {K : Type ℓ} {V : Type κ} ⦃o : Key K⦄ where
  -- `map.get(k)`
  unfoldable pub get : K → BTreeMap K V → Option V
  get k [] = none
  get k ((j, v) ∷ m) = if j ≟ k then some v else get k m

  -- `map.contains_key(k)`
  abbrev pub contains_key : K → BTreeMap K V → Bool
  contains_key k m = is_some (get k m)

  -- `map.insert(k, v)`: the entry goes to its place in the order, in place of one with its key.
  unfoldable pub insert : K → V → BTreeMap K V → BTreeMap K V
  insert k v [] = (k, v) ∷ []
  insert k v ((j, w) ∷ m) =
      let rest = insert k v m in
      elim (o.cmp k j) [
        | Ordering.lt ↦ (k, v) ∷ (j, w) ∷ m
        | Ordering.eq ↦ (k, v) ∷ m
        | Ordering.gt ↦ (j, w) ∷ rest
      ]

  -- `*map.get_mut(k).unwrap() = v`, for a key that is there: the entry is written in place.
  unfoldable pub replace : K → V → BTreeMap K V → BTreeMap K V
  replace k v [] = []
  replace k v ((j, w) ∷ m) = if j ≟ k then (j, v) ∷ m else (j, w) ∷ replace k v m

  -- `map.remove(k)`
  unfoldable pub remove : K → BTreeMap K V → BTreeMap K V
  remove k [] = []
  remove k ((j, w) ∷ m) = let rest = remove k m in if j ≟ k then rest else (j, w) ∷ rest

  pub get-insert :
      (k j : K) (v : V) (m : BTreeMap K V)
      → get j (insert k v m) ≡ (if k ≟ j then some v else get j m)
  unfolding get insert
  get-insert k j v [] = refl
  get-insert k j v ((i, w) ∷ m) =
      ground (arith, get-insert k j v m, o.eq_of_cmp k i, ≟_iff k j, ≟_iff i j)

  pub get-remove :
      (k j : K) (m : BTreeMap K V) → get j (remove k m) ≡ (if k ≟ j then none else get j m)
  unfolding get remove
  get-remove k j [] = ground arith
  get-remove k j ((i, w) ∷ m) = ground (arith, get-remove k j m, ≟_iff k j, ≟_iff i j, ≟_iff i k)

  pub get-insert_self : (k : K) (v : V) (m : BTreeMap K V) → get k (insert k v m) ≡ some v
  get-insert_self k v m = simp (get-insert, ≟_refl)

  -- An entry that a lookup finds is one of the entries.
  pub All-get {μ} :
      (P : K × V → Type μ) (k : K) {v : V} (m : BTreeMap K V)
      → All P m
      → get k m ≡ some v
      → P (k, v)
  unfolding get
  All-get P k [] h e = cc
  All-get P k ((j, w) ∷ m) h e = elim (Bool-cases (j ≟ k)) [
    | inl same ↦ subst P (ground (arith, (≟_iff j k).0 same)) h.0
    | inr other ↦ All-get P k m h.1 (rw other at e)
  ]

  -- A replaced entry is found under its key.
  pub get-replace_self :
      (k : K) (v w : V) (m : BTreeMap K V) → get k m ≡ some w → get k (replace k v m) ≡ some v
  unfolding get replace
  get-replace_self k v w [] h = cc
  get-replace_self k v w ((j, u) ∷ m) h = ground (arith, get-replace_self k v w m, ≟_iff j k)
