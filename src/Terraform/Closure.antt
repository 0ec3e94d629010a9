-- ===== src/Terraform/Closure.antt =====
-- src/infrastructure/generators/terraform: the expressions that generated blocks hold, and which of
-- them name what the generated code declares.
pub mod Emissions
pub mod Network
pub mod Gateways
pub mod Compute
pub mod Data
pub mod Declared
pub mod Known
pub mod Index
pub mod Whole
pub mod Complete
use topo_forge_ai.Identifiers.{is_empty_text}
use topo_forge_ai.Prelude.{
  refl, some, none, [], inl, inr, ◌∷◌, String, List, All, lookup, ◌≡◌, ◌++◌, Bool-cases, ◌⊎◌, ◌∙◌,
  ◌==◌, Option, Option-cases, String-Eq, arith, subst,
}
use topo_forge_ai.Terraform.Hcl.{
  HclValue, Block, assign, set, set_if, set_all, Blocks, add, new_block, quoted, mapping, raw,
  add_all, block, append_block, listed, text_entries, nested, HclItems, is_meaningful, items_of,
  item, HclEntries, entry, no_items, no_entries, no_blocks,
}
use topo_forge_ai.Terraform.Mapping.{
  MappingContext, Emission, address, reference, references, reference_if, reference_to, own,
  keep_reference,
}

module _ (K : String → Type 0) where
  abbrev mutual
    -- The predicate holds of every expression in the value.
    pub ValueHas : HclValue → Type 0
    ValueHas (raw e) = K e
    ValueHas (listed vs) = ItemsHave vs
    ValueHas (mapping es) = EntriesHave es
    ValueHas _ = Unit

    pub ItemsHave : HclItems → Type 0
    ItemsHave no_items = Unit
    ItemsHave (item v vs) = ValueHas v × ItemsHave vs

    pub EntriesHave : HclEntries → Type 0
    EntriesHave no_entries = Unit
    EntriesHave (entry k v es) = ValueHas v × EntriesHave es

  abbrev pub AttributesHave : List (String × HclValue) → Type 0
  AttributesHave = All (λ a. ValueHas a.1)

  abbrev mutual
    pub BlockHas : Block → Type 0
    BlockHas (block type labels comments attributes inner) =
        AttributesHave attributes × BlocksHave inner

    pub BlocksHave : Blocks → Type 0
    BlocksHave no_blocks = Unit
    BlocksHave (nested b bs) = BlockHas b × BlocksHave bs

  assign-AttributesHave :
      (k : String) (v : HclValue) (d : List (String × HclValue))
      → ValueHas v
      → AttributesHave d
      → AttributesHave (assign k v d)
  assign-AttributesHave k v [] h g = (h, tt)
  assign-AttributesHave k v ((j, w) ∷ d) h g = elim (Bool-cases (j == k)) [
    | inl same ↦ rw same (h, g.1)
    | inr other ↦ rw other (g.0, assign-AttributesHave k v d h g.1)
  ]

  pub set-BlockHas :
      (k : String) (v : HclValue) (b : Block) → ValueHas v → BlockHas b → BlockHas (set k v b)
  unfolding set
  set-BlockHas k v (block type labels comments attributes inner) h g =
      (assign-AttributesHave k v attributes h g.0, g.1)

  pub set_if-BlockHas :
      (k : String) (v : HclValue) (b : Block) → ValueHas v → BlockHas b → BlockHas (set_if k v b)
  unfolding set_if
  set_if-BlockHas k v b h g = elim (Bool-cases (is_meaningful v)) [
    | inl yes' ↦ rw yes' (set-BlockHas k v b h g)
    | inr no' ↦ rw no' g
  ]

  pub set_all-BlockHas :
      (attributes : List (String × HclValue)) (b : Block)
      → AttributesHave attributes
      → BlockHas b
      → BlockHas (set_all attributes b)
  unfolding set_all
  set_all-BlockHas [] b h g = g
  set_all-BlockHas ((k, v) ∷ rest) b h g =
      set_all-BlockHas rest (set k v b) h.1 (set-BlockHas k v b h.0 g)

  append_block-BlocksHave :
      (bs : Blocks) (b : Block) → BlocksHave bs → BlockHas b → BlocksHave (append_block bs b)
  append_block-BlocksHave no_blocks b h g = (g, tt)
  append_block-BlocksHave (nested c cs) b h g = (h.0, append_block-BlocksHave cs b h.1 g)

  pub add-BlockHas : (c b : Block) → BlockHas c → BlockHas b → BlockHas (add c b)
  unfolding add
  add-BlockHas c (block type labels comments attributes inner) h g =
      (g.0, append_block-BlocksHave inner c g.1 h)

  pub add_all-BlockHas :
      (cs : List Block) (b : Block) → All BlockHas cs → BlockHas b → BlockHas (add_all cs b)
  unfolding add_all
  add_all-BlockHas [] b h g = g
  add_all-BlockHas (c ∷ cs) b h g = add_all-BlockHas cs (add c b) h.1 (add-BlockHas c b h.0 g)

  pub items_of-ItemsHave : (vs : List HclValue) → All ValueHas vs → ValueHas (listed (items_of vs))
  items_of-ItemsHave [] h = tt
  items_of-ItemsHave (v ∷ vs) h = (h.0, items_of-ItemsHave vs h.1)

  pub quoted-ValueHas : (s : String) → ValueHas (quoted s)
  quoted-ValueHas s = tt

  pub tags-ValueHas : (tags : List (String × String)) → ValueHas (mapping (text_entries tags))
  tags-ValueHas [] = tt
  tags-ValueHas ((k, v) ∷ tags) = (tt, tags-ValueHas tags)

  pub raw-ValueHas : (e : String) → K e → ValueHas (raw e)
  raw-ValueHas e h = h

  -- What the context's references need.
  module _ (ctx : MappingContext)
      (known : (id t n : String)
        → lookup id ctx.addresses ≡ some (t, n)
        → K (address t n "id")) where
    reference_to-ValueHas :
        (o : Option (String × String)) (v : HclValue)
        → ((t n : String) → o ≡ some (t, n) → K (address t n "id"))
        → reference_to o ≡ some v
        → ValueHas v
    reference_to-ValueHas none v all_known h = absurd (cc)
    reference_to-ValueHas (some (t, n)) v all_known h =
        let same : own t n "id" ≡ v = cc in subst ValueHas same (all_known t n refl)

    pub reference-ValueHas : (id : String) (v : HclValue) → reference ctx id ≡ some v → ValueHas v
    unfolding reference
    reference-ValueHas id v h =
        reference_to-ValueHas (lookup id ctx.addresses) v (λ t n. known id t n) h

    keep_reference-ValueHas :
        (o : Option HclValue) (rest : List HclValue)
        → ((v : HclValue) → o ≡ some v → ValueHas v)
        → All ValueHas rest
        → All ValueHas (keep_reference o rest)
    keep_reference-ValueHas none rest h g = g
    keep_reference-ValueHas (some v) rest h g = (h v refl, g)

    pub references-ValueHas : (ids : List String) → All ValueHas (references ctx ids)
    references-ValueHas [] = tt
    references-ValueHas (x ∷ xs) =
        keep_reference-ValueHas (reference ctx x) (references ctx xs) (reference-ValueHas x)
          (references-ValueHas xs)

    pub reference_if-ValueHas :
        (id : Option String) (v : HclValue) → reference_if ctx id ≡ some v → ValueHas v
    reference_if-ValueHas none v h = absurd (cc)
    reference_if-ValueHas (some x) v h = elim (Bool-cases (is_empty_text x)) [
      | inl gone ↦ absurd (ground arith)
      | inr there ↦ reference-ValueHas x v (ground arith)
    ]

-- The resource that a block declares.
abbrev pub header_of : Block → String × List String
header_of (block type labels comments attributes inner) = (type, labels)

-- Whether one of the blocks declares the resource.
abbrev pub Declared : String → String → List Block → Type 0
Declared type name [] = ⊥
Declared type name (b ∷ bs) = (header_of b ≡ ("resource", type ∷ name ∷ [])) ⊎ Declared type name bs

pub header_of-set : (k : String) (v : HclValue) (b : Block) → header_of (set k v b) ≡ header_of b
unfolding set
header_of-set k v (block type labels comments attributes inner) = refl

pub header_of-set_if :
    (k : String) (v : HclValue) (b : Block) → header_of (set_if k v b) ≡ header_of b
unfolding set_if
header_of-set_if k v b = elim (Bool-cases (is_meaningful v)) [
  | inl there ↦ rw there (header_of-set k v b)
  | inr gone ↦ rw gone refl
]

pub header_of-set_all :
    (attributes : List (String × HclValue)) (b : Block)
    → header_of (set_all attributes b) ≡ header_of b
unfolding set_all
header_of-set_all [] b = refl
header_of-set_all ((k, v) ∷ rest) b = header_of-set_all rest (set k v b) ∙ header_of-set k v b

pub header_of-add : (c b : Block) → header_of (add c b) ≡ header_of b
unfolding add
header_of-add c (block type labels comments attributes inner) = refl

pub header_of-add_all : (cs : List Block) (b : Block) → header_of (add_all cs b) ≡ header_of b
unfolding add_all
header_of-add_all [] b = refl
header_of-add_all (c ∷ cs) b = header_of-add_all cs (add c b) ∙ header_of-add c b

pub Declared-append_left :
    (t n : String) (bs cs : List Block) → Declared t n bs → Declared t n (bs ++ cs)
Declared-append_left t n [] cs h = elim h [ ]
Declared-append_left t n (b ∷ bs) cs (inl h) = inl h
Declared-append_left t n (b ∷ bs) cs (inr h) = inr (Declared-append_left t n bs cs h)

pub Declared-append_right :
    (t n : String) (bs cs : List Block) → Declared t n cs → Declared t n (bs ++ cs)
Declared-append_right t n [] cs h = h
Declared-append_right t n (b ∷ bs) cs h = inr (Declared-append_right t n bs cs h)
