-- ===== src/Topology/Components/Flood.antt =====
-- One breadth first search of `connected_components` (src/domain/topology/models.py).
use topo_forge_ai.Workflow.Spec.Reachability.{Reach, step}
use topo_forge_ai.Topology.Components.{visit, add, flood}
use topo_forge_ai.Prelude.{
  [], true, false, inl, inr, ◌∷◌, List, String, contains, ℕ, ◌≤◌, length, ◌≡◌, ◌||◌, filter, ◌<◌,
  ◌+◌, arith, ◌&&◌, not, eq_iff, Bool-cases, ◌++◌, String-Eq, contains-append, length-append, refl,
  some, zero, suc, ◌==◌, In,
}

-- What is seen behind a round over neighbours: what was seen before, and the neighbours.
visit-seen :
    (ns seen queue : List String) (x : String)
    → contains (visit ns seen queue).0 x ≡ (contains seen x || contains ns x)
visit-seen [] seen queue x = ground arith
visit-seen (n ∷ ns) seen queue x =
    ground
      (arith, visit-seen ns seen queue x, visit-seen ns (n ∷ seen) (queue ++ n ∷ []) x, eq_iff n x)

-- The queue behind it: what was queued before, and the neighbours that were not seen.
visit-queue :
    (ns seen queue : List String) (x : String)
    → contains (visit ns seen queue).1 x
      ≡ (contains queue x || (contains ns x && not (contains seen x)))
visit-queue [] seen queue x = ground arith
visit-queue (n ∷ ns) seen queue x = ground (
  arith,
  visit-queue ns seen queue x,
  visit-queue ns (n ∷ seen) (queue ++ n ∷ []) x,
  contains-append queue (n ∷ []) x,
  eq_iff n x,
)

-- How many of the ids are not seen.
abbrev pub unseen : List String → List String → ℕ
unseen seen ids = length (filter (λ i. not (contains seen i)) ids)

pub unseen-cons :
    (n : String) (seen ids : List String)
    → unseen (n ∷ seen) ids ≤ unseen seen ids
      × (contains ids n ≡ true → contains seen n ≡ false → unseen (n ∷ seen) ids < unseen seen ids)
unseen-cons n seen [] = (omega arith, λ h. absurd (cc))
unseen-cons n seen (i ∷ ids) = ground (arith, unseen-cons n seen ids, eq_iff n i, eq_iff i n)

-- What is queued was not seen before, so a round does not add to the work.
visit_work :
    (ids ns seen queue : List String)
    → ((x : String) → contains ns x ≡ true → contains ids x ≡ true)
    → length (visit ns seen queue).1 + unseen (visit ns seen queue).0 ids
      ≤ length queue + unseen seen ids
visit_work ids [] seen queue h = omega arith
visit_work ids (n ∷ ns) seen queue h = elim (Bool-cases (contains seen n)) [
  | inl known ↦ rw known (visit_work ids ns seen queue (λ x m. h x (ground arith)))
  | inr fresh ↦ rw fresh (
      omega (
        arith,
        visit_work ids ns (n ∷ seen) (queue ++ n ∷ []) (λ x m. h x (ground arith)),
        length-append queue (n ∷ []),
        (unseen-cons n seen ids).1 (h n (ground (arith, eq_iff n n))) fresh,
      ))
]

contains-add :
    (c : String) (xs : List String) (x : String) → contains (add c xs) x ≡ (contains xs x || c == x)
contains-add c xs x = ground (arith, eq_iff c x)

module _ (next : String → List String) (ids : List String)
    (next_in : (a x : String) → contains (next a) x ≡ true → contains ids x ≡ true)
    (base : List String) (start : String) where
  -- Between two rounds of the search that began at `start` when `base` was seen.
  pub record IsSearching (seen component queue : List String) : Type 0 where
    pub seen_is :
        (x : String)
        → contains seen x ≡ (contains base x || (contains component x || contains queue x))
    pub begun : (contains component start || contains queue start) ≡ true
    pub apart :
        (x : String) → contains base x ≡ true → (contains component x || contains queue x) ≡ false
    pub closed :
        (a x : String)
        → contains component a ≡ true
        → contains (next a) x ≡ true
        → contains seen x ≡ true
    pub sound :
        (x : String) → (contains component x || contains queue x) ≡ true → Reach next start x

  round-IsSearching :
      (seen component : List String) (current : String) (queue : List String)
      → IsSearching seen component (current ∷ queue)
      → IsSearching
          (visit (next current) seen queue).0
          (add current component)
          (visit (next current) seen queue).1
  round-IsSearching seen component current queue h = record {
    seen_is = λ x. ground (
      arith,
      visit-seen (next current) seen queue x,
      visit-queue (next current) seen queue x,
      contains-add current component x,
      h.seen_is x,
    );
    begun = ground (
      arith,
      visit-queue (next current) seen queue start,
      contains-add current component start,
      h.begun,
    );
    apart = λ x m. ground (
      arith,
      visit-queue (next current) seen queue x,
      contains-add current component x,
      h.seen_is x,
      h.apart x m,
    );
    closed = λ a x m n. elim (Bool-cases (current == a)) [
      | inl same ↦
          let edge : contains (next current) x ≡ true = rw ((eq_iff current a).0 same) n in
          ground (arith, visit-seen (next current) seen queue x)
      | inr other ↦ ground (
        arith,
        visit-seen (next current) seen queue x,
        contains-add current component a,
        h.closed a x,
      )
    ];
    sound = λ x m. elim (Bool-cases (contains component x || contains (current ∷ queue) x)) [
      | inl before ↦ h.sound x before
      | inr fresh ↦
          let edge : In x (next current) =
            ground
              (arith, visit-queue (next current) seen queue x, contains-add current component x) in
          step (h.sound current (ground (arith, eq_iff current current))) edge
    ];
  }

  -- With enough fuel the search ends, and its invariant holds at its end.
  pub flood-IsSearching :
      (fuel : ℕ) (seen component queue : List String)
      → length queue + unseen seen ids ≤ fuel
      → IsSearching seen component queue
      → (s : List String) × (c : List String) × (flood next fuel seen component queue ≡ some (s, c))
        × IsSearching s c []
  unfolding flood
  flood-IsSearching fuel seen component [] enough h = (seen, component, refl, h)
  flood-IsSearching zero seen component (current ∷ queue) enough h = absurd (omega arith)
  flood-IsSearching (suc fuel) seen component (current ∷ queue) enough h =
      flood-IsSearching fuel (visit (next current) seen queue).0 (add current component)
        (visit (next current) seen queue).1
        (omega (arith, visit_work ids (next current) seen queue (next_in current)))
        (round-IsSearching seen component current queue h)
