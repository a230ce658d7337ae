-- ===== src/Config/Expand.antt =====
-- References to the environment in the values of gateway/internal/config/config.go. A result is
-- the expanded value and the names that are not set, in the order in which they are found.
pub mod Sets
use openussd.Prelude.{
  ℕ, zero, suc, ◌+◌, Bool, ◌&&◌, ◌||◌, Option, none, some, List, [], ◌∷◌, ◌++◌, ◌==◌, leb,
  if◌then◌else◌, length,
}
use openussd.Strings.{Text}

-- `[A-Za-z_]` and `[A-Za-z0-9_]`
abbrev pub starts_name : ℕ → Bool
starts_name c = (leb b'A' c && leb c b'Z') || (leb b'a' c && leb c b'z') || c == b'_'

abbrev pub in_name : ℕ → Bool
in_name c = starts_name c || (leb b'0' c && leb c b'9')

abbrev pub longer_name : ℕ → Option Text → Option Text
longer_name c none = none
longer_name c (some name) = some (c ∷ name)

-- The rest of a name and the brace after it.
unfoldable pub name_end : Text → Option Text
name_end [] = none
name_end (c ∷ s) =
    let rest = name_end s in
    if c == b'}' then some [] else if in_name c then longer_name c rest else none

-- A match of `envRef` at the start of a text: the name in the braces.
unfoldable pub match_ref : Text → Option Text
match_ref (d ∷ o ∷ c ∷ s) =
    if d == b'$' && o == b'{' && starts_name c then longer_name c (name_end s) else none
match_ref _ = none

module _ (lookup_env : Text → Option Text) where
  abbrev pub replace_ref : Text → Text × List Text → Text × List Text
  replace_ref name (value, missing) = elim (lookup_env name) [
    | none ↦ (value, name ∷ missing)
    | some val ↦ (val ++ value, missing)
  ]

  -- The first argument counts the runes of the last match that are still to be passed over.
  unfoldable pub expand_from : ℕ → Text → Text × List Text
  unfolding match_ref name_end
  expand_from skip [] = ([], [])
  expand_from zero (c ∷ s) = elim (match_ref (c ∷ s)) [
    | none ↦ let rest = expand_from 0 s in (c ∷ rest.0, rest.1)
    | some name ↦ replace_ref name (expand_from (length name + 2) s)
  ]
  expand_from (suc skip) (c ∷ s) = expand_from skip s

-- What the code uses of `yaml.Node`: a scalar's value, or the kind and the content.
mutual
  pub data Node : Type 0 where
    scalar : Text → Node
    branch : ℕ → Nodes → Node

  pub data Nodes : Type 0 where
    no_nodes : Nodes
    add_node : Node → Nodes → Nodes

unfoldable mutual
  pub expand_node : (Text → Option Text) → Node → Node × List Text
  expand_node env (scalar value) =
      let expanded = expand_from env 0 value in (scalar (expanded.0), expanded.1)
  expand_node env (branch kind content) =
      let expanded = expand_nodes env content in (branch kind (expanded.0), expanded.1)

  pub expand_nodes : (Text → Option Text) → Nodes → Nodes × List Text
  expand_nodes env no_nodes = (no_nodes, [])
  expand_nodes env (add_node child content) =
      let first = expand_node env child in
      let rest = expand_nodes env content in (add_node (first.0) (rest.0), first.1 ++ rest.1)
