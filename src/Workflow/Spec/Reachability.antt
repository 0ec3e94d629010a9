-- ===== src/Workflow/Spec/Reachability.antt =====
-- The search of Workflow/Spec/Search.antt ends and decides reachability.
use topo_forge_ai.Prelude.{
  ℕ, zero, suc, ◌+◌, ◌≤◌, ◌≡◌, ◌↔◌, refl, ap, ◌⊎◌, inl, inr, Bool, true, false, ◌||◌, List, [], ◌∷◌,
  Eq, ◌==◌, contains, In, length, arith, Bool-cases, same_refl,
}
use topo_forge_ai.Workflow.Spec.Search.{answer, push_all, search, potential}

-- The walks from `source`.
pub data Reach {A : Type 0} ⦃e : Eq A⦄ (next : A → List A) (source : A) : A → Type 0 where
  here : Reach next source source
  step : {u v : A} → Reach next source u → In v (next u) → Reach next source v

module _ {A : Type 0} where
  length-push_all :
      (xs frontier : List A) → length (push_all xs frontier) ≡ length xs + length frontier
  length-push_all [] frontier = omega arith
  length-push_all (x ∷ xs) frontier = omega (arith, length-push_all xs (x ∷ frontier))

module _ {A : Type 0} ⦃e : Eq A⦄ where
  contains-push_all :
      (xs frontier : List A) (a : A)
      → contains (push_all xs frontier) a ≡ (contains xs a || contains frontier a)
  contains-push_all [] frontier a = refl
  contains-push_all (x ∷ xs) frontier a = ground (arith, contains-push_all xs (x ∷ frontier) a)

module _ {A : Type 0} ⦃e : Eq A⦄ (next : A → List A) where
  potential-cons-le :
      (c : A) (seen us : List A) → potential next (c ∷ seen) us ≤ potential next seen us
  unfolding potential
  potential-cons-le c seen [] = omega arith
  potential-cons-le c seen (u ∷ us) = ground (arith, potential-cons-le c seen us)

  -- To expand a new node uses up what it pushes.
  potential-expand :
      (c : A) (seen us : List A)
      → contains seen c ≡ false
      → In c us
      → length (next c) + potential next (c ∷ seen) us ≤ potential next seen us
  unfolding potential
  potential-expand c seen [] new m = cc
  potential-expand c seen (u ∷ us) new m = ground (
    arith,
    e.agrees u c,
    e.agrees c u,
    potential-cons-le c seen us,
    potential-expand c seen us new,
  )

  module _ (origins : List A) (covered : (a : A) → (In a origins) ⊎ (next a ≡ [])) where
    potential-round :
        (c : A) (seen : List A)
        → contains seen c ≡ false
        → length (next c) + potential next (c ∷ seen) origins ≤ potential next seen origins
    potential-round c seen new = elim (covered c) [
      | inl m ↦ potential-expand c seen origins new m
      | inr none_after ↦ omega (arith, ap length none_after, potential-cons-le c seen origins)
    ]

    search_ends :
        (target : A) (fuel : ℕ) (seen frontier : List A)
        → length frontier + potential next seen origins ≤ fuel
        → (b : Bool) × (search next target fuel seen frontier ≡ answer b)
    unfolding search
    search_ends target fuel seen [] h = (false, refl)
    search_ends target zero seen (c ∷ rest) h = absurd (omega arith)
    search_ends target (suc fuel) seen (c ∷ rest) h = elim (Bool-cases (c == target)) [
      | inl found ↦ (true, rw found)
      | inr other ↦ rw other (elim (Bool-cases (contains seen c)) [
        | inl old ↦ rw old (search_ends target fuel seen rest (omega arith))
        | inr new ↦ rw new (
            search_ends target fuel (c ∷ seen) (push_all (next c) rest)
              (omega (arith, length-push_all (next c) rest, potential-round c seen new)))
      ])
    ]

  module _ (source target : A) where
    -- What the loop keeps: it has met only reachable nodes, and all that it expanded leads to nodes
    -- that it has expanded or will.
    record Inv (seen frontier : List A) : Type 0 where
      sound : (a : A) → In a frontier → Reach next source a
      started : (contains seen source || contains frontier source) ≡ true
      closed :
          (a b : A) → In a seen → In b (next a) → (contains seen b || contains frontier b) ≡ true
      missed : contains seen target ≡ false

    Reach-seen : (seen : List A) → Inv seen [] → {a : A} → Reach next source a → In a seen
    Reach-seen seen inv here = ground (arith, inv.started)
    Reach-seen seen inv (step {u} {v} r m) =
        ground (arith, inv.closed u v (Reach-seen seen inv r) m)

    Inv-skip : (seen rest : List A) (c : A) → In c seen → Inv seen (c ∷ rest) → Inv seen rest
    Inv-skip seen rest c old inv = record {
      sound = λ a m. inv.sound a (ground arith);
      started = ground (arith, inv.started, e.agrees c source);
      closed = λ a b m n. ground (arith, inv.closed a b m n, e.agrees c b);
      missed = inv.missed;
    }

    Inv-expand :
        (seen rest : List A) (c : A)
        → (c == target) ≡ false
        → Inv seen (c ∷ rest)
        → Inv (c ∷ seen) (push_all (next c) rest)
    Inv-expand seen rest c other inv = record {
      sound = λ a m. elim (Bool-cases (contains (next c) a)) [
        | inl after ↦ step (inv.sound c (ground (arith, same_refl c))) after
        | inr before ↦ inv.sound a (ground (arith, contains-push_all (next c) rest a))
      ];
      started = ground (arith, inv.started, contains-push_all (next c) rest source);
      closed = λ a b m n. elim (Bool-cases (c == a)) [
        | inl same ↦ ground (arith, contains-push_all (next c) rest b, (e.agrees c a).0 same)
        | inr differs ↦
            ground (arith, contains-push_all (next c) rest b, inv.closed a b (ground arith) n)
      ];
      missed = ground (arith, inv.missed);
    }

    search_correct :
        (fuel : ℕ) (seen frontier : List A) (b : Bool)
        → Inv seen frontier
        → search next target fuel seen frontier ≡ answer b
        → ((b ≡ true) → Reach next source target) × (Reach next source target → b ≡ true)
    unfolding search
    search_correct fuel seen [] b inv h = (λ t. cc, λ r. cc (Reach-seen seen inv r, inv.missed))
    search_correct zero seen (c ∷ rest) b inv h = cc
    search_correct (suc fuel) seen (c ∷ rest) b inv h = elim (Bool-cases (c == target)) [
      | inl found ↦
          let r = inv.sound c (ground (arith, same_refl c)) in
          (λ _. rw (← (e.agrees c target).0 found) r, λ _. ground (arith, h))
      | inr other ↦ elim (Bool-cases (contains seen c)) [
        | inl old ↦
            search_correct fuel seen rest b (Inv-skip seen rest c old inv) (ground (arith, h))
        | inr new ↦
            search_correct fuel (c ∷ seen) (push_all (next c) rest) b
              (Inv-expand seen rest c other inv) (ground (arith, h))
      ]
    ]

    Inv-start : Inv [] (source ∷ [])
    Inv-start = record {
      sound = λ a m. rw (← (e.agrees source a).0 (ground arith)) here;
      started = ground (arith, same_refl source);
      closed = λ a b m n. cc;
      missed = refl;
    }

  -- With the fuel of the potential the search returns, and answers whether the target is reachable.
  pub search_decides :
      (origins : List A) (covered : (a : A) → (In a origins) ⊎ (next a ≡ [])) (source target : A)
      → (b : Bool) × (search next target (suc (potential next [] origins)) [] (source ∷ [])
          ≡ answer b)
        × ((b ≡ true) ↔ Reach next source target)
  search_decides origins covered source target =
      let fuel = suc (potential next [] origins) in
      let (b, returned) = search_ends origins covered target fuel [] (source ∷ []) (omega arith) in
      (
        b,
        returned,
        search_correct source target fuel [] (source ∷ []) b (Inv-start source target) returned,
      )
