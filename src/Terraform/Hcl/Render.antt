-- ===== src/Terraform/Hcl/Render.antt =====
-- src/infrastructure/generators/terraform/hcl.py: the text of values, blocks and documents, as a list
-- of code points. Which characters are letters or digits (`str.isalpha`, `str.isalnum`) is a
-- parameter.
pub mod Keys
use topo_forge_ai.Terraform.Hcl.{
  HclEntries, HclDocument, HclValue, entry, no_entries, Block, raw, quoted, Blocks, int, item,
  mapping, HclItems, flag, block, listed, nested, nothing, no_items, no_blocks,
}
use topo_forge_ai.Terraform.Hcl.Escape.{escape}
use topo_forge_ai.Value.{ℤ, pos, negsuc}
use topo_forge_ai.Prelude.{
  [], true, false, zero, suc, ◌∷◌, ℕ, List, ◌/◌, ◌++◌, max, Bool, if◌then◌else◌, ◌-◌, length, ◌||◌,
  String, ltb, ◌&&◌, codes, nonempty, ◌==◌, ◌+◌, all, map, not, ℕ-Eq, ◌%◌, contains,
}

abbrev pub digits : ℕ → ℕ → List ℕ
digits zero n = []
digits (suc fuel) n =
    let higher = digits fuel (n / 10) in (if ltb n 10 then [] else higher) ++ (b'0' + n % 10) ∷ []

-- `str(n)`: a number has at most as many digits as its successor says.
abbrev decimal : ℕ → List ℕ
decimal n = digits (suc n) n

abbrev pub decimal_int : ℤ → List ℕ
decimal_int (pos n) = decimal n
decimal_int (negsuc n) = b'-' ∷ decimal (suc n)

-- `separator.join(parts)`
abbrev pub join_codes : List ℕ → List (List ℕ) → List ℕ
join_codes separator [] = []
join_codes separator (p ∷ []) = p
join_codes separator (p ∷ q ∷ ps) = p ++ (separator ++ join_codes separator (q ∷ ps))

-- `_INDENT * indent`
abbrev pub pad : ℕ → List ℕ
pad zero = []
pad (suc n) = 32 ∷ 32 ∷ pad n

abbrev spaces : ℕ → List ℕ
spaces zero = []
spaces (suc n) = 32 ∷ spaces n

-- `f"{key:<{width}}"`
abbrev aligned : ℕ → List ℕ → List ℕ
aligned width key = key ++ spaces (width - length key)

abbrev widest : List (List ℕ) → ℕ
widest [] = 0
widest (k ∷ ks) = max (length k) (widest ks)

-- `f'"{...}"'`
abbrev pub in_quotes : List ℕ → List ℕ
in_quotes body = b'"' ∷ body ++ b'"' ∷ []

-- `text.rstrip("\n")`
abbrev pub strip_breaks : List ℕ → List ℕ
strip_breaks [] = []
strip_breaks (c ∷ cs) =
    let rest = strip_breaks cs in if c == 10 && not (nonempty rest) then [] else c ∷ rest

module _ (is_alpha is_alnum : ℕ → Bool) where
  abbrev pub is_key_start : List ℕ → Bool
  is_key_start [] = false
  is_key_start (c ∷ cs) = is_alpha c || c == b'_'

  abbrev pub is_key_code : ℕ → Bool
  is_key_code c = is_alnum c || (c == b'_' || c == b'-')

  unfoldable pub render_key : List ℕ → List ℕ
  unfolding escape
  render_key key =
      if is_key_start key && all is_key_code key
      then (if not (contains key b'-') then key else in_quotes key)
      else in_quotes (escape key)

  abbrev key_widths : HclEntries → List (List ℕ)
  key_widths no_entries = []
  key_widths (entry k v es) = render_key (codes k) ∷ key_widths es

  unfoldable mutual
    unfolding escape render_key

    pub render_value : ℕ → HclValue → List ℕ
    render_value indent (raw e) = codes e
    render_value indent (quoted s) = in_quotes (escape (codes s))
    render_value indent (flag true) = codes "true"
    render_value indent (flag false) = codes "false"
    render_value indent (int n) = decimal_int n
    render_value indent nothing = codes "null"
    render_value indent (listed no_items) = codes "[]"
    render_value indent (listed (item v vs)) =
        codes "["
        ++ 10 ∷ join_codes (44 ∷ 10 ∷ []) (render_items indent (item v vs))
        ++ 44 ∷ 10 ∷ pad indent
        ++ codes "]"
    render_value indent (mapping no_entries) = codes "{}"
    render_value indent (mapping (entry k v es)) =
        codes "{"
        ++ 10
          ∷ join_codes (10 ∷ [])
              (render_entries indent (widest (key_widths (entry k v es))) (entry k v es))
        ++ 10 ∷ pad indent
        ++ codes "}"

    render_items : ℕ → HclItems → List (List ℕ)
    render_items indent no_items = []
    render_items indent (item v vs) =
        (pad (suc indent) ++ render_value (suc indent) v) ∷ render_items indent vs

    render_entries : ℕ → ℕ → HclEntries → List (List ℕ)
    render_entries indent width no_entries = []
    render_entries indent width (entry k v es) =
        (pad (suc indent)
          ++ aligned width (render_key (codes k))
          ++ codes " = "
          ++ render_value (suc indent) v)
        ∷ render_entries indent width es

  abbrev attribute_lines : ℕ → List (String × HclValue) → List (List ℕ)
  attribute_lines indent attributes =
      map
        (λ (k, v).
          pad (suc indent)
          ++ aligned (widest (map (λ kv. codes kv.0) attributes)) (codes k)
          ++ codes " = "
          ++ render_value (suc indent) v)
        attributes

  abbrev header_line : String → List String → List ℕ
  header_line type labels =
      join_codes (32 ∷ []) (codes type ∷ map (λ l. in_quotes (codes l)) labels)

  unfoldable mutual
    unfolding render_value

    pub render_block : ℕ → Block → List ℕ
    render_block indent (block type labels comments attributes inner) = join_codes (10 ∷ []) (
        map (λ c. pad indent ++ codes "# " ++ codes c) comments
        ++ (pad indent ++ header_line type labels ++ codes " {") ∷ attribute_lines indent attributes
        ++ render_nested indent (nonempty attributes) inner
        ++ (pad indent ++ codes "}") ∷ [])

    -- A blank line stands before each nested block but a first one with no attribute above it.
    render_nested : ℕ → Bool → Blocks → List (List ℕ)
    render_nested indent gap no_blocks = []
    render_nested indent gap (nested b bs) =
        (if gap then [] ∷ [] else []) ++ render_block (suc indent) b ∷ render_nested indent true bs

  unfoldable pub render_document : HclDocument → List ℕ
  unfolding render_block
  render_document d =
      strip_breaks (
        join_codes (10 ∷ 10 ∷ []) (
          (if nonempty d.header
            then join_codes (10 ∷ []) (map (λ line. codes "# " ++ codes line) d.header) ∷ []
            else [])
          ++ map (render_block 0) d.blocks))
      ++ 10 ∷ []
