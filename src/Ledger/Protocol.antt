-- ===== src/Ledger/Protocol.antt =====
-- src/ledger.rs: which values `canonical_json` lets through.
use aomori.Prelude.{
  ℕ, suc, ◌+◌, ◌≤◌, ◌≡◌, ◌↔◌, refl, Bool, true, false, ◌&&◌, leb, arith, if◌then◌else◌,
}
use aomori.Json.{
  pos, negsuc, Number, integer, float, Value, Fields, Items, null, bool, number, text, array,
  object, end, field, nil, cons,
}
use aomori.Result.{ok, ◌>>=◌, >>-eq-ok, >>=-eq-ok, require, json_depth_exceeded}
use aomori.Ledger.Canonical.{
  max_depth, normalize_number, normalize, normalize_items, normalize_fields,
}

abbrev larger : ℕ → ℕ → ℕ
larger a b = if leb a b then b else a

-- How deep the arrays and objects are nested.
unfoldable mutual
  pub height : Value → ℕ
  height (array vs) = height_items vs
  height (object fs) = height_fields fs
  height null = 0
  height (bool b) = 0
  height (number n) = 0
  height (text s) = 0

  pub height_items : Items → ℕ
  height_items nil = 0
  height_items (cons v vs) = larger (suc (height v)) (height_items vs)

  pub height_fields : Fields → ℕ
  height_fields end = 0
  height_fields (field k v fs) = larger (suc (height v)) (height_fields fs)

-- Every number is an integer from -(2^53 - 1) to 2^53 - 1.
abbrev number_is_safe : Number → Bool
number_is_safe (integer (pos n)) = leb n 9007199254740991
number_is_safe (integer (negsuc n)) = leb n 9007199254740990
number_is_safe (float bits) = false

unfoldable mutual
  pub all_safe : Value → Bool
  all_safe (array vs) = all_safe_items vs
  all_safe (object fs) = all_safe_fields fs
  all_safe (number n) = number_is_safe n
  all_safe null = true
  all_safe (bool b) = true
  all_safe (text s) = true

  pub all_safe_items : Items → Bool
  all_safe_items nil = true
  all_safe_items (cons v vs) = all_safe v && all_safe_items vs

  pub all_safe_fields : Fields → Bool
  all_safe_fields end = true
  all_safe_fields (field k v fs) = all_safe v && all_safe_fields fs

normalize_number_sound :
    (n m : Number) → normalize_number n ≡ ok m → (m ≡ n) × (number_is_safe n ≡ true)
unfolding normalize_number
normalize_number_sound (integer (pos n)) m h = (ground arith, ground arith)
normalize_number_sound (integer (negsuc n)) m h = (ground arith, ground arith)
normalize_number_sound (float bits) m h = cc

normalize_number_complete : (n : Number) → number_is_safe n ≡ true → normalize_number n ≡ ok n
unfolding normalize_number
normalize_number_complete (integer (pos n)) h = ground arith
normalize_number_complete (integer (negsuc n)) h = ground arith
normalize_number_complete (float bits) h = cc

-- What a value that passes at a depth is, and how deep it may go on.
mutual
  unfolding normalize height all_safe

  normalize_sound :
      (v : Value) (d : ℕ) (w : Value)
      → normalize v d ≡ ok w
      → (w ≡ v) × (height v + d ≤ max_depth) × (all_safe v ≡ true)
  normalize_sound null d w h = (ground arith, ground arith, refl)
  normalize_sound (bool b) d w h = (ground arith, ground arith, refl)
  normalize_sound (text s) d w h = (ground arith, ground arith, refl)
  normalize_sound (number n) d w h =
      let (within, h1) =
        >>-eq-ok (require (leb d max_depth) json_depth_exceeded)
          (normalize_number n >>= λ m. ok (number m)) h in
      let (m, is_m, h2) = >>=-eq-ok (normalize_number n) (λ m. ok (number m)) h1 in
      let (same, safe) = normalize_number_sound n m is_m in (ground arith, ground arith, safe)
  normalize_sound (array vs) d w h =
      let (within, h1) =
        >>-eq-ok (require (leb d max_depth) json_depth_exceeded)
          (normalize_items vs (d + 1) >>= λ ws. ok (array ws)) h in
      let (ws, is_ws, h2) = >>=-eq-ok (normalize_items vs (d + 1)) (λ ws. ok (array ws)) h1 in
      let (same, low, safe) = normalize_items_sound vs d ws (ground arith) is_ws in
      (ground arith, low, safe)
  normalize_sound (object fs) d w h =
      let (within, h1) =
        >>-eq-ok (require (leb d max_depth) json_depth_exceeded)
          (normalize_fields fs (d + 1) >>= λ gs. ok (object gs)) h in
      let (gs, is_gs, h2) = >>=-eq-ok (normalize_fields fs (d + 1)) (λ gs. ok (object gs)) h1 in
      let (same, low, safe) = normalize_fields_sound fs d gs (ground arith) is_gs in
      (ground arith, low, safe)

  normalize_items_sound :
      (vs : Items) (d : ℕ) (ws : Items)
      → d ≤ max_depth
      → normalize_items vs (d + 1) ≡ ok ws
      → (ws ≡ vs) × (height_items vs + d ≤ max_depth) × (all_safe_items vs ≡ true)
  normalize_items_sound nil d ws within h = (ground arith, omega arith, refl)
  normalize_items_sound (cons v vs) d ws within h =
      let (w, is_w, h1) =
        >>=-eq-ok (normalize v (d + 1)) (λ w. normalize_items vs (d + 1) >>= λ ws. ok (cons w ws))
          h in
      let (rest, is_rest, h2) = >>=-eq-ok (normalize_items vs (d + 1)) (λ ws. ok (cons w ws)) h1 in
      let (same_v, low_v, safe_v) = normalize_sound v (d + 1) w is_w in
      let (same, low, safe) = normalize_items_sound vs d rest within is_rest in
      (ground arith, ground arith, ground arith)

  normalize_fields_sound :
      (fs : Fields) (d : ℕ) (gs : Fields)
      → d ≤ max_depth
      → normalize_fields fs (d + 1) ≡ ok gs
      → (gs ≡ fs) × (height_fields fs + d ≤ max_depth) × (all_safe_fields fs ≡ true)
  normalize_fields_sound end d gs within h = (ground arith, omega arith, refl)
  normalize_fields_sound (field k v fs) d gs within h =
      let (w, is_w, h1) =
        >>=-eq-ok (normalize v (d + 1))
          (λ w. normalize_fields fs (d + 1) >>= λ gs. ok (field k w gs)) h in
      let (rest, is_rest, h2) =
        >>=-eq-ok (normalize_fields fs (d + 1)) (λ gs. ok (field k w gs)) h1 in
      let (same_v, low_v, safe_v) = normalize_sound v (d + 1) w is_w in
      let (same, low, safe) = normalize_fields_sound fs d rest within is_rest in
      (ground arith, ground arith, ground arith)

mutual
  unfolding normalize height all_safe

  normalize_complete :
      (v : Value) (d : ℕ) → height v + d ≤ max_depth → all_safe v ≡ true → normalize v d ≡ ok v
  normalize_complete null d low safe = ground arith
  normalize_complete (bool b) d low safe = ground arith
  normalize_complete (text s) d low safe = ground arith
  normalize_complete (number n) d low safe = ground (arith, normalize_number_complete n safe)
  normalize_complete (array vs) d low safe = ground (arith, normalize_items_complete vs d low safe)
  normalize_complete (object fs) d low safe =
      ground (arith, normalize_fields_complete fs d low safe)

  normalize_items_complete :
      (vs : Items) (d : ℕ)
      → height_items vs + d ≤ max_depth
      → all_safe_items vs ≡ true
      → normalize_items vs (d + 1) ≡ ok vs
  normalize_items_complete nil d low safe = refl
  normalize_items_complete (cons v vs) d low safe = ground (
    arith,
    normalize_complete v (d + 1) (ground arith) (ground arith),
    normalize_items_complete vs d (ground arith) (ground arith),
  )

  normalize_fields_complete :
      (fs : Fields) (d : ℕ)
      → height_fields fs + d ≤ max_depth
      → all_safe_fields fs ≡ true
      → normalize_fields fs (d + 1) ≡ ok fs
  normalize_fields_complete end d low safe = refl
  normalize_fields_complete (field k v fs) d low safe = ground (
    arith,
    normalize_complete v (d + 1) (ground arith) (ground arith),
    normalize_fields_complete fs d (ground arith) (ground arith),
  )

-- `normalize` lets through exactly the values that are nested at most 32 deep and whose numbers are
-- all integers between -(2^53 - 1) and 2^53 - 1, and returns them as they are.
pub normalize_iff :
    (v w : Value)
    → (normalize v 0 ≡ ok w) ↔ ((w ≡ v) × (height v ≤ max_depth) × (all_safe v ≡ true))
normalize_iff v w = (
  λ h. (let (same, low, safe) = normalize_sound v 0 w h in (same, omega arith, safe)),
  λ (same, low, safe). rw same (normalize_complete v 0 (omega arith) safe),
)
