-- ===== src/Model/Sound/Quests.antt =====
-- src/model.rs: the loop of `validate_quests`.
use aomori.Prelude.{
  ℕ, zero, suc, ◌+◌, ◌≡◌, ◌≤◌, refl, String, Option, none, some, List, [], ◌∷◌, ◌++◌, arith,
  text_key, length, length-append, ◌==◌, if◌then◌else◌, inl, inr, sym, ap, ◌∙◌, ◌⊎◌, ◌≢◌,
}
use aomori.Map.{BTreeMap, get, insert, replace}
use aomori.Result.{
  Error, Result-cases, err_injective, Result, ok, err, ◌>>=◌, for_each, require, prerequisite_cycle,
  out_of_fuel, panicked,
}
use aomori.Model.{WorldState, QuestDefinition}
use aomori.Model.Quests.{
  Degrees, Dependents, or_default, indegrees, ready_ids, relax, drain, check_prerequisites,
  check_quest, validate_quests, dependents_from,
}

-- The quests that still wait for a prerequisite.
waiting : Degrees → ℕ
waiting [] = 0
waiting ((id, zero) ∷ m) = waiting m
waiting ((id, suc d) ∷ m) = suc (waiting m)

waiting-replace :
    (c : String) (d : ℕ) (m : Degrees)
    → get c m ≡ some (suc d)
    → waiting (replace c d m) + (if d == 0 then 1 else 0) ≡ waiting m
unfolding waiting get replace
waiting-replace c d [] h = cc
waiting-replace c zero ((j, zero) ∷ m) h = ground (arith, waiting-replace c zero m)
waiting-replace c (suc d) ((j, zero) ∷ m) h = ground (arith, waiting-replace c (suc d) m)
waiting-replace c zero ((j, suc w) ∷ m) h = ground (arith, waiting-replace c zero m)
waiting-replace c (suc d) ((j, suc w) ∷ m) h = ground (arith, waiting-replace c (suc d) m)

abbrev pushed : ℕ → String → List String → List String
pushed d c ready = if d == 0 then ready ++ c ∷ [] else ready

-- One child: a degree that cannot fall, or one that falls by one.
relax-cases :
    (degrees : Degrees) (ready : List String) (c : String) (children : List String)
    → (relax degrees ready (c ∷ children) ≡ err panicked)
      ⊎ ((d : ℕ) × (get c degrees ≡ some (suc d))
          × (relax degrees ready (c ∷ children)
              ≡ relax (replace c d degrees) (pushed d c ready) children))
unfolding relax
relax-cases degrees ready c children = go (get c degrees) refl
  where
    go :
        (o : Option ℕ)
        → get c degrees ≡ o
        → (relax degrees ready (c ∷ children) ≡ err panicked)
          ⊎ ((d : ℕ) × (get c degrees ≡ some (suc d))
              × (relax degrees ready (c ∷ children)
                  ≡ relax (replace c d degrees) (pushed d c ready) children))
    go none e = inl (rw (e, relax))
    go (some zero) e = inl (rw (e, relax))
    go (some (suc d)) e = inr (d, e, rw (e, relax))

length-pushed :
    (d : ℕ) (c : String) (ready : List String)
    → length (pushed d c ready) ≡ length ready + (if d == 0 then 1 else 0)
length-pushed zero c ready = omega (arith, length-append ready (c ∷ []))
length-pushed (suc d) c ready = ground arith

-- The waiting quests and the queue, before and after the children of one quest.
relax-measure :
    (degrees : Degrees) (ready children : List String) {degrees' : Degrees} {ready' : List String}
    → relax degrees ready children ≡ ok (degrees', ready')
    → waiting degrees' + length ready' ≡ waiting degrees + length ready
relax-measure degrees ready [] h = unfold relax in ground arith
relax-measure degrees ready (c ∷ children) h = elim (relax-cases degrees ready c children) [
  | inl stop ↦ cc
  | inr (d, e, step) ↦ omega (
    arith,
    relax-measure (replace c d degrees) (pushed d c ready) children (sym step ∙ h),
    waiting-replace c d degrees e,
    length-pushed d c ready,
  )
]

relax-ends :
    (degrees : Degrees) (ready children : List String)
    → relax degrees ready children ≡ err out_of_fuel
    → ⊥
relax-ends degrees ready [] h = unfold relax in cc
relax-ends degrees ready (c ∷ children) h = elim (relax-cases degrees ready c children) [
  | inl stop ↦ cc
  | inr (d, e, step) ↦ relax-ends (replace c d degrees) (pushed d c ready) children (sym step ∙ h)
]

drain-ends :
    (fuel : ℕ) (deps : Dependents) (degrees : Degrees) (ready : List String) (processed : ℕ)
    → waiting degrees + length ready ≤ fuel
    → drain fuel deps degrees ready processed ≡ err out_of_fuel
    → ⊥
unfolding drain
drain-ends zero deps degrees [] processed enough h = cc
drain-ends (suc fuel) deps degrees [] processed enough h = cc
drain-ends zero deps degrees (id ∷ ready) processed enough h = absurd (omega arith)
drain-ends (suc fuel) deps degrees (id ∷ ready) processed enough h =
    elim (Result-cases (relax degrees ready (or_default (get id deps)))) [
      | inl ((degrees', ready'), e) ↦
          drain-ends fuel deps degrees' ready' (processed + 1)
            (omega (arith, relax-measure degrees ready (or_default (get id deps)) e)) (rw e at h)
      | inr (er, e) ↦ relax-ends degrees ready (or_default (get id deps)) (cc)
    ]

length-insert : (id : String) (n : ℕ) (m : Degrees) → length (insert id n m) ≤ suc (length m)
unfolding insert
length-insert id n [] = omega arith
length-insert id n ((j, w) ∷ m) = ground (arith, length-insert id n m)

length-indegrees :
    (quests : BTreeMap String QuestDefinition) → length (indegrees quests) ≤ length quests
unfolding indegrees
length-indegrees [] = omega arith
length-indegrees ((id, q) ∷ quests) = omega (
  arith,
  length-indegrees quests,
  length-insert id (length q.prerequisite_quest_ids) (indegrees quests),
)

waiting-ready : (m : Degrees) → waiting m + length (ready_ids m) ≡ length m
unfolding waiting ready_ids
waiting-ready [] = omega arith
waiting-ready ((id, zero) ∷ m) = ground (arith, waiting-ready m)
waiting-ready ((id, suc d) ∷ m) = ground (arith, waiting-ready m)

check_prerequisites-ends :
    (s : WorldState) (id : String) (seen ids : List String)
    → check_prerequisites s id seen ids ≡ err out_of_fuel
    → ⊥
unfolding check_prerequisites
check_prerequisites-ends s id seen [] h = cc
check_prerequisites-ends s id seen (q ∷ ids) h =
    ground (arith, check_prerequisites-ends s id (q ∷ seen) ids)

check_quest-ends :
    (s : WorldState) (q : String × QuestDefinition) → check_quest s q ≡ err out_of_fuel → ⊥
unfolding check_quest
check_quest-ends s (key, q) h =
    ground (arith, check_prerequisites-ends s q.id [] q.prerequisite_quest_ids)

for_each-ends {ℓ} :
    {A : Type ℓ} (xs : List A) (f : A → Result (Unit {0})) (e : Error)
    → ((x : A) → f x ≡ err e → ⊥)
    → for_each xs f ≡ err e
    → ⊥
unfolding for_each
for_each-ends [] f e never h = cc
for_each-ends (x ∷ xs) f e never h = elim (Result-cases (f x)) [
  | inl (_, passed) ↦ for_each-ends xs f e never (rw passed at h)
  | inr (g, failed) ↦ never x (failed ∙ (rw failed at h))
]

-- The loop with the number of quests as its fuel, and the test behind it.
kahn-ends :
    (quests : BTreeMap String QuestDefinition) (deps : Dependents)
    → (drain (length quests) deps (indegrees quests) (ready_ids (indegrees quests)) 0 >>= λ p.
        require (p == length quests) prerequisite_cycle)
      ≡ err out_of_fuel
    → ⊥
kahn-ends quests deps h =
    let degrees = indegrees quests in
    elim (Result-cases (drain (length quests) deps degrees (ready_ids degrees) 0)) [
      | inl (p, e) ↦
          let left : require (p == length quests) prerequisite_cycle ≡ err out_of_fuel =
            rw e at h in
          ground arith
      | inr (g, e) ↦
          drain-ends (length quests) deps degrees (ready_ids degrees) 0
            (omega (arith, waiting-ready degrees, length-indegrees quests))
            (e ∙ ap err (err_injective (rw e at h)))
    ]

-- The number of quests is fuel enough for the loop over them: the validation always comes to an end.
pub validate_quests-ends : (s : WorldState) → validate_quests s ≢ err out_of_fuel
unfolding validate_quests
validate_quests-ends s h = elim (Result-cases (for_each s.quests (check_quest s))) [
  | inl (_, passed) ↦ kahn-ends s.quests (dependents_from s.quests []) (rw passed at h)
  | inr (g, failed) ↦
      for_each-ends s.quests (check_quest s) out_of_fuel (check_quest-ends s)
        (failed ∙ (rw failed at h))
]
