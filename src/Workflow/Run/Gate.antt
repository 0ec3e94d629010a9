-- ===== src/Workflow/Run/Gate.antt =====
-- A gate of a workflow graph: a branch through which every run into a region must go.
use topo_forge_ai.Prelude.{
  eq_iff, ◌≡◌, subst, ◌⊎◌, inl, inr, Bool, true, false, not, ◌&&◌, ◌||◌, String, some, List, [],
  ◌∷◌, ◌==◌, String-Eq, contains, In, lookup, ok, arith, Bool-cases,
}
use topo_forge_ai.Workflow.State.{State}
use topo_forge_ai.Workflow.Spec.{GraphSpec, Branches, branches_of, targets_from}
use topo_forge_ai.Workflow.Run.{Router, Run, begin, follow, branch, Passed}

-- Every edge into the region starts in it.
abbrev edges_guarded : List String → List (String × String) → Bool
edges_guarded region [] = true
edges_guarded region ((source, target) ∷ es) =
    (not (contains region target) || contains region source) && edges_guarded region es

module _ (region : List String) (gate label : String) where
  -- Every branch into the region starts in it, or is the gate's.
  abbrev branch_guarded : String → Branches → Bool
  branch_guarded source [] = true
  branch_guarded source ((taken, target) ∷ bs) =
      (not (contains region target)
        || (contains region source || (source == gate && taken == label)))
      && branch_guarded source bs

  abbrev table_guarded : List (String × Branches) → Bool
  table_guarded [] = true
  table_guarded ((source, bs) ∷ table) = branch_guarded source bs && table_guarded table

-- No run begins in the region, and it is entered by the gate alone.
abbrev pub guarded : GraphSpec → List String → String → String → Bool
guarded g region gate label =
    not (contains region g.entry_point)
    && (edges_guarded region g.edges && table_guarded region gate label g.conditional_edges)

edges_guarded_sound :
    (region : List String) (n m : String) (es : List (String × String))
    → edges_guarded region es ≡ true
    → In m (targets_from n es)
    → In m region
    → In n region
edges_guarded_sound region n m [] h i j = cc
edges_guarded_sound region n m ((source, target) ∷ es) h i j =
    ground (arith, eq_iff source n, eq_iff target m, edges_guarded_sound region n m es)

module _ (region : List String) (gate label : String) where
  branch_guarded_sound :
      (source taken m : String) (bs : Branches)
      → branch_guarded region gate label source bs ≡ true
      → lookup taken bs ≡ some m
      → In m region
      → (In source region) ⊎ ((source ≡ gate) × (taken ≡ label))
  branch_guarded_sound source taken m [] h i j = cc
  branch_guarded_sound source taken m ((other, target) ∷ bs) h i j = ground (
    arith,
    eq_iff other taken,
    eq_iff source gate,
    eq_iff other label,
    branch_guarded_sound source taken m bs,
  )

  table_guarded_sound :
      (n taken m : String) (table : List (String × Branches))
      → table_guarded region gate label table ≡ true
      → lookup taken (branches_of n table) ≡ some m
      → In m region
      → (In n region) ⊎ ((n ≡ gate) × (taken ≡ label))
  table_guarded_sound n taken m [] h i j = cc
  table_guarded_sound n taken m ((source, bs) ∷ table) h i j = elim (Bool-cases (source == n)) [
    | inl same ↦
        ground (arith, (eq_iff source n).0 same, same, branch_guarded_sound source taken m bs)
    | inr other ↦ ground (arith, other, table_guarded_sound n taken m table)
  ]

  guarded_parts :
      (g : GraphSpec)
      → guarded g region gate label ≡ true
      → (contains region g.entry_point ≡ false)
        × (edges_guarded region g.edges ≡ true)
        × (table_guarded region gate label g.conditional_edges ≡ true)
  guarded_parts g h = ground arith

-- A run that has come into a guarded region has passed its gate, in a state that the gate lets
-- through.
module _ (region : List String) (gate label : String) (P : State → Type 0) where
  pub guarded-Passed :
      (g : GraphSpec) (route : Router)
      → guarded g region gate label ≡ true
      → ((s : State) → route gate s ≡ ok label → P s)
      → {n : String} (r : Run g route n) → In n region
      → Passed gate label P r
  guarded-Passed g route h p (begin {n} e) i =
      let j = subst (λ m. In m region) e i in cc (j, (guarded_parts region gate label g h).0)
  guarded-Passed g route h p (follow {n} {m} r e) i =
      guarded-Passed g route h p r
        (edges_guarded_sound region n m g.edges (guarded_parts region gate label g h).1 e i)
  guarded-Passed g route h p (branch {n} {m} r s taken routed target) i =
      let table = (guarded_parts region gate label g h).2 in
      let cases =
        table_guarded_sound region gate label n taken m g.conditional_edges table target i in
      elim cases [
        | inl inside ↦ inr (guarded-Passed g route h p r inside)
        | inr (at_gate, by_label) ↦ inl (at_gate, by_label, p s (cc))
      ]
