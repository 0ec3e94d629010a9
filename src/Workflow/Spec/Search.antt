-- ===== src/Workflow/Spec/Search.antt =====
-- The loop of `GraphSpec.reaches` (src/infrastructure/orchestration/langgraph/spec.py): a depth
-- first search over a successor function. The `frontier`, a Python list that is popped and
-- extended at its end, is kept with its end first.
use topo_forge_ai.Prelude.{
  ℕ, zero, suc, ◌+◌, Bool, true, false, List, [], ◌∷◌, Eq, ◌==◌, contains, length, if◌then◌else◌,
}

pub data Outcome : Type 0 where
  answer : Bool → Outcome
  out_of_fuel : Outcome

-- `frontier.extend(xs)`
abbrev pub push_all {ℓ} : {A : Type ℓ} → List A → List A → List A
push_all [] frontier = frontier
push_all (x ∷ xs) frontier = push_all xs (x ∷ frontier)

module _ {A : Type 0} ⦃e : Eq A⦄ (next : A → List A) where
  -- One round for each unit of fuel: `current` is popped; `seen` is the set of expanded nodes.
  unfoldable pub search : A → ℕ → List A → List A → Outcome
  search target fuel seen [] = answer false
  search target zero seen (current ∷ rest) = out_of_fuel
  search target (suc fuel) seen (current ∷ rest) =
      let skip = search target fuel seen rest in
      let expand = search target fuel (current ∷ seen) (push_all (next current) rest) in
      if current == target then answer true else if contains seen current then skip else expand

  -- How many nodes the search can still push.
  unfoldable pub potential : List A → List A → ℕ
  potential seen [] = 0
  potential seen (u ∷ us) = (if contains seen u then 0 else length (next u)) + potential seen us
