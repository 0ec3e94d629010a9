-- ===== src/Assembler/Supernet/Covering.antt =====
-- What `_covering_supernet` answers for a list of subnets.
use topo_forge_ai.Assembler.Supernet.Least.{widen-IsWidened}
use topo_forge_ai.Assembler.Supernet.Wider.{
  IsNetwork, is_subnet_of_refl, is_subnet_of-version, is_subnet_of_trans,
}
use topo_forge_ai.Network.{SubnetSpec, is_subnet_of, same_version_iff, v4}
use topo_forge_ai.Assembler.Supernet.{widen_all, covering_supernet, is_v4, widen, cover}
use topo_forge_ai.Prelude.{
  refl, some, none, [], true, inl, inr, ◌∷◌, List, All, filter, ◌≡◌, Bool-cases, ◌⊎◌, arith,
}

-- The least network that holds the networks of the list.
pub record IsCovering (networks : List SubnetSpec) (answer : SubnetSpec) : Type 0 where
  pub network : IsNetwork answer
  pub holds : All (λ s. is_subnet_of s answer ≡ true) networks
  pub least :
      (t : SubnetSpec)
      → IsNetwork t
      → All (λ s. is_subnet_of s t ≡ true) networks
      → is_subnet_of answer t ≡ true

-- The loop over the networks, from the one that is held to the one that holds them all.
widen_all-IsCovering :
    (current : SubnetSpec) (rest : List SubnetSpec)
    → IsNetwork current
    → is_v4 current ≡ true
    → All (λ s. IsNetwork s × (is_v4 s ≡ true)) rest
    → IsCovering (current ∷ rest) (widen_all current rest)
unfolding widen_all
widen_all-IsCovering current [] hc four h = record {
  network = hc;
  holds = (is_subnet_of_refl current, tt);
  least = λ t ht within. within.0;
}
widen_all-IsCovering current (network ∷ rest) hc four h =
    let same : network.version ≡ current.version =
      ground (
        arith,
        h,
        four,
        same_version_iff network.version v4,
        same_version_iff current.version v4,
      ) in
    let step = widen-IsWidened network h.0.0 current.prefix_length current hc same refl in
    let wider = widen network current.prefix_length current in
    let still_four : is_v4 wider ≡ true = ground (
      arith,
      four,
      is_subnet_of-version current wider step.holds_current,
      same_version_iff current.version v4,
      same_version_iff wider.version v4,
    ) in
    let after = widen_all-IsCovering wider rest step.network_answer still_four h.1 in
    record {
      network = after.network;
      holds = (
        is_subnet_of_trans current wider (widen_all wider rest) step.holds_current after.holds.0,
        (
          is_subnet_of_trans network wider (widen_all wider rest) step.holds_network after.holds.0,
          after.holds.1,
        ),
      );
      least = λ t ht within. after.least t ht (step.least t ht within.1.0 within.0, within.1.1);
    }

v4_networks :
    (subnets : List SubnetSpec)
    → All IsNetwork subnets
    → All (λ s. IsNetwork s × (is_v4 s ≡ true)) (filter is_v4 subnets)
v4_networks [] h = tt
v4_networks (s ∷ rest) h =
    let later = v4_networks rest h.1 in
    elim (Bool-cases (is_v4 s)) [
      | inl four ↦ rw four ((h.0, four), later)
      | inr other ↦ rw other later
    ]

cover-IsCovering :
    (held : List SubnetSpec)
    → All (λ s. IsNetwork s × (is_v4 s ≡ true)) held
    → ((held ≡ []) × (cover held ≡ none))
      ⊎ ((answer : SubnetSpec) × (cover held ≡ some answer) × IsCovering held answer)
cover-IsCovering [] h = inl (refl, refl)
cover-IsCovering (first ∷ rest) h =
    inr (widen_all first rest, refl, widen_all-IsCovering first rest h.0.0 h.0.1 h.1)

-- For networks, covering_supernet answers the least network that holds those of IPv4, and nothing
-- where there is none.
pub covering_supernet-IsCovering :
    (subnets : List SubnetSpec)
    → All IsNetwork subnets
    → ((filter is_v4 subnets ≡ []) × (covering_supernet subnets ≡ none))
      ⊎ ((answer : SubnetSpec) × (covering_supernet subnets ≡ some answer)
          × IsCovering (filter is_v4 subnets) answer)
unfolding covering_supernet
covering_supernet-IsCovering subnets h =
    cover-IsCovering (filter is_v4 subnets) (v4_networks subnets h)
