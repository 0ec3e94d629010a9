-- ===== src/Value.antt =====
-- The dynamic values that the workflow state carries (`dict[str, Any]` in
-- src/infrastructure/orchestration/langgraph/state.py): JSON documents, and what Python does with
-- them: truth, equality, `d.get(key)`, iteration and membership in a set. Numbers are integers.
use topo_forge_ai.Prelude.{
  ℕ, zero, String, Bool, true, false, ◌||◌, Option, none, some, List, [], ◌∷◌, ◌==◌, ℕ-Eq,
  String-Eq, if◌then◌else◌, Result, ok, raise,
}

-- A Python integer: `negsuc n` is -(n + 1).
pub data ℤ : Type 0 where
  pos : ℕ → ℤ
  negsuc : ℕ → ℤ

mutual
  pub data Value : Type 0 where
    null : Value
    text : String → Value
    bool : Bool → Value
    num : ℤ → Value
    dict : Fields → Value
    list : Items → Value

  -- The keys of a dictionary with their values.
  pub data Fields : Type 0 where
    field : String → Value → Fields → Fields
    end : Fields

  pub data Items : Type 0 where
    cons : Value → Items → Items
    nil : Items

-- What a lookup or a loop raises on a value of another shape.
pub data PyError : Type 0 where
  attribute_error type_error : PyError

abbrev is_zero : ℤ → Bool
is_zero (pos zero) = true
is_zero _ = false

-- `bool(v)`
abbrev pub truthy : Value → Bool
truthy null = false
truthy (bool b) = b
truthy (num (pos zero)) = false
truthy (num _) = true
truthy (text String.[]) = false
truthy (text _) = true
truthy (list nil) = false
truthy (list (cons _ _)) = true
truthy (dict end) = false
truthy (dict (field _ _ _)) = true

abbrev pub is_dict : Value → Bool
is_dict (dict _) = true
is_dict _ = false

abbrev pub lookup_field : String → Fields → Option Value
lookup_field k end = none
lookup_field k (field j v fs) = if j == k then some v else lookup_field k fs

-- `v.get(key, default)`, where only a dictionary has the method.
abbrev pub get_or : Value → String → Value → Result PyError Value
get_or (dict fs) k d = ok (elim (lookup_field k fs) [ none ↦ d | some v ↦ v ])
get_or _ k d = raise attribute_error

abbrev pub get : Value → String → Result PyError Value
get v k = get_or v k null

-- `v or {}`
abbrev pub or_empty : Value → Value
or_empty v = if truthy v then v else dict end

abbrev pub to_list : Items → List Value
to_list nil = []
to_list (cons v vs) = v ∷ to_list vs

abbrev keys : Fields → List Value
keys end = []
keys (field k v fs) = text k ∷ keys fs

abbrev characters : String → List Value
characters String.[] = []
characters (String.◌∷◌ c s) = text (String.◌∷◌ c String.[]) ∷ characters s

-- `for x in v`
abbrev pub iterate : Value → Result PyError (List Value)
iterate (list vs) = ok (to_list vs)
iterate (dict fs) = ok (keys fs)
iterate (text s) = ok (characters s)
iterate _ = raise type_error

-- The truth values are the integers 0 and 1.
abbrev from_bool : Bool → ℤ
from_bool true = pos 1
from_bool false = pos 0

abbrev int_eq : ℤ → ℤ → Bool
int_eq (pos a) (pos b) = a == b
int_eq (negsuc a) (negsuc b) = a == b
int_eq _ _ = false

-- `a == b` where `a` can stand in a set.
abbrev pub scalar_eq : Value → Value → Bool
scalar_eq null null = true
scalar_eq (bool a) (bool b) = int_eq (from_bool a) (from_bool b)
scalar_eq (bool a) (num n) = int_eq (from_bool a) n
scalar_eq (num n) (bool b) = int_eq n (from_bool b)
scalar_eq (num m) (num n) = int_eq m n
scalar_eq (text s) (text t) = s == t
scalar_eq _ _ = false

-- Lists and dictionaries cannot stand in a set, nor be looked for in one.
abbrev pub hashable : Value → Bool
hashable (list _) = false
hashable (dict _) = false
hashable _ = true

abbrev pub among : Value → List Value → Bool
among v [] = false
among v (x ∷ xs) = scalar_eq x v || among v xs

-- `v in s` for a set `s`.
abbrev pub in_set : Value → List Value → Result PyError Bool
in_set v s = if hashable v then ok (among v s) else raise type_error
