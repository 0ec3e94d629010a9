-- ===== src/Assembler/Supernet/Least.antt =====
-- What the loop of `_covering_supernet` for one network answers.
use topo_forge_ai.Assembler.Supernet.{widen, supernet}
use topo_forge_ai.Assembler.Supernet.Wider.{
  IsNetwork, is_subnet_of_refl, nested, is_subnet_of_trans, contains_address-first, supernet-covers,
  supernet-IsNetwork, supernet-least, contains_address-all, wider_prefix, supernet-version,
  supernet-prefix,
}
use topo_forge_ai.Network.{
  SubnetSpec, is_subnet_of, same_cidr, contains_address, same_cidr_iff, width,
}
use topo_forge_ai.Prelude.{
  refl, true, false, inl, inr, zero, suc, ◌<◌, ◌≡◌, ℕ, arith, subst, Bool-cases, sym, ◌∙◌, ◌^◌,
}

module _ (network : SubnetSpec) (hn : IsNetwork network) where
  -- After the loop for a network: it lies in the answer, as what was held before does, and the answer
  -- is in every network that holds both.
  pub record IsWidened (current answer : SubnetSpec) : Type 0 where
    pub network_answer : IsNetwork answer
    pub holds_network : is_subnet_of network answer ≡ true
    pub holds_current : is_subnet_of current answer ≡ true
    pub least :
        (t : SubnetSpec)
        → IsNetwork t
        → is_subnet_of network t ≡ true
        → is_subnet_of current t ≡ true
        → is_subnet_of answer t ≡ true

  widen-inside :
      (fuel : ℕ) (current : SubnetSpec)
      → is_subnet_of network current ≡ true
      → widen network fuel current ≡ current
  unfolding widen
  widen-inside zero current inside = refl
  widen-inside (suc fuel) current inside = ground arith

  widen-outside :
      (fuel : ℕ) (current : SubnetSpec)
      → is_subnet_of network current ≡ false
      → widen network (suc fuel) current ≡ widen network fuel (supernet current)
  unfolding widen
  widen-outside fuel current outside = elim (Bool-cases (same_cidr network current)) [
    | inl same ↦
        let e = (same_cidr_iff network current).0 same in
        let inside : is_subnet_of network current ≡ true =
          subst (λ s. is_subnet_of network s ≡ true) e (is_subnet_of_refl network) in
        absurd (cc)
    | inr other ↦ ground arith
  ]

  -- Nothing is to be done where the network lies in the current one.
  stays :
      (current : SubnetSpec)
      → IsNetwork current
      → is_subnet_of network current ≡ true
      → IsWidened current current
  stays current hc inside = record {
    network_answer = hc;
    holds_network = inside;
    holds_current = is_subnet_of_refl current;
    least = λ t ht in_t c_in_t. c_in_t;
  }

  -- One round, with what the rounds after it do.
  widened :
      (current answer : SubnetSpec)
      → IsNetwork current
      → 0 < current.prefix_length
      → is_subnet_of network current ≡ false
      → IsWidened (supernet current) answer
      → IsWidened current answer
  widened current answer hc wide outside rest = record {
    network_answer = rest.network_answer;
    holds_network = rest.holds_network;
    holds_current =
        is_subnet_of_trans current (supernet current) answer (supernet-covers current hc wide)
          rest.holds_current;
    least = λ t ht in_t c_in_t. rest.least t ht in_t (
        supernet-least current hc wide t ht c_in_t
          (wider_prefix network current t hc ht in_t c_in_t outside));
  }

  everything :
      (current : SubnetSpec)
      → IsNetwork current
      → network.version ≡ current.version
      → current.prefix_length ≡ 0
      → is_subnet_of network current ≡ true
  everything current hc same whole =
      nested network current network.version network.network_address hn hc same
        (omega (arith, whole)) (contains_address-first network)
        (subst (λ v. contains_address current v network.network_address ≡ true) (sym same)
          (contains_address-all current network.network_address hc whole
            (subst (λ v. network.network_address < 2 ^ width v) same hn.start)))

  pub widen-IsWidened :
      (fuel : ℕ) (current : SubnetSpec)
      → IsNetwork current
      → network.version ≡ current.version
      → current.prefix_length ≡ fuel
      → IsWidened current (widen network fuel current)
  widen-IsWidened zero current hc same at_end =
      let inside = everything current hc same at_end in
      subst (IsWidened current) (sym (widen-inside zero current inside)) (stays current hc inside)
  widen-IsWidened (suc fuel) current hc same at = elim (Bool-cases (is_subnet_of network current)) [
    | inl inside ↦
        subst (IsWidened current) (sym (widen-inside (suc fuel) current inside))
          (stays current hc inside)
    | inr outside ↦
        let wide : 0 < current.prefix_length = omega (arith, at) in
        let rest =
          widen-IsWidened fuel (supernet current) (supernet-IsNetwork current hc wide)
            (same ∙ sym (supernet-version current hc wide))
            (supernet-prefix current hc wide ∙ omega (arith, at)) in
        subst (IsWidened current) (sym (widen-outside fuel current outside))
          (widened current (widen network fuel (supernet current)) hc wide outside rest)
  ]
