-- ===== src/Terraform/Hcl.antt =====
-- src/infrastructure/generators/terraform/hcl.py: what a Terraform file is written from: the values
-- of attributes, blocks and documents. A dictionary is an association list in insertion order;
-- floating-point values are left out.
pub mod Escape
pub mod Render
use topo_forge_ai.Value.{ℤ}
use topo_forge_ai.Prelude.{[], true, false, ◌∷◌, String, Bool, List, if◌then◌else◌, ◌==◌, String-Eq}

mutual
  pub data HclValue : Type 0 where
    raw : String → HclValue
    quoted : String → HclValue
    flag : Bool → HclValue
    int : ℤ → HclValue
    nothing : HclValue
    listed : HclItems → HclValue
    mapping : HclEntries → HclValue

  pub data HclItems : Type 0 where
    item : HclValue → HclItems → HclItems
    no_items : HclItems

  pub data HclEntries : Type 0 where
    entry : String → HclValue → HclEntries → HclEntries
    no_entries : HclEntries

-- `d[key] = value`: an old key keeps its place.
abbrev pub assign {ℓ} : {V : Type ℓ} → String → V → List (String × V) → List (String × V)
assign k v [] = (k, v) ∷ []
assign k v ((j, w) ∷ d) = let rest = assign k v d in if j == k then (j, v) ∷ d else (j, w) ∷ rest

mutual
  -- The type, the labels, the comments, the attributes and the nested blocks.
  pub data Block : Type 0 where
    block : String → List String → List String → List (String × HclValue) → Blocks → Block

  pub data Blocks : Type 0 where
    nested : Block → Blocks → Blocks
    no_blocks : Blocks

-- `Block(type, labels, comments=comments)`
abbrev pub new_block : String → List String → List String → Block
new_block type labels comments = block type labels comments [] no_blocks

unfoldable pub set : String → HclValue → Block → Block
set k v (block type labels comments attributes inner) =
    block type labels comments (assign k v attributes) inner

-- Whether `value is not None and value != () and value != []`.
abbrev pub is_meaningful : HclValue → Bool
is_meaningful nothing = false
is_meaningful (listed no_items) = false
is_meaningful _ = true

unfoldable pub set_if : String → HclValue → Block → Block
set_if k v b = if is_meaningful v then set k v b else b

abbrev pub append_block : Blocks → Block → Blocks
append_block no_blocks b = nested b no_blocks
append_block (nested c cs) b = nested c (append_block cs b)

unfoldable pub add : Block → Block → Block
add b (block type labels comments attributes inner) =
    block type labels comments attributes (append_block inner b)

-- Calls of `set`, in order.
unfoldable pub set_all : List (String × HclValue) → Block → Block
set_all [] b = b
set_all ((k, v) ∷ rest) b = set_all rest (set k v b)

-- Calls of `add`, in order.
unfoldable pub add_all : List Block → Block → Block
add_all [] b = b
add_all (c ∷ rest) b = add_all rest (add c b)

abbrev pub items_of : List HclValue → HclItems
items_of [] = no_items
items_of (v ∷ vs) = item v (items_of vs)

abbrev pub text_entries : List (String × String) → HclEntries
text_entries [] = no_entries
text_entries ((k, v) ∷ d) = entry k (quoted v) (text_entries d)

pub record HclDocument : Type 0 where
  pub header : List String
  pub blocks : List Block
