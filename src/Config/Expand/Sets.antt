-- ===== src/Config/Expand/Sets.antt =====
-- config.go: what an expansion with no missing variable is, and that `expandNode` makes it.
use openussd.Prelude.{
  ℕ, zero, suc, ◌+◌, ◌≡◌, ◌≢◌, refl, sym, ◌∙◌, ap, subst, inl, inr, true, false, Option, some, List,
  [], ◌∷◌, ◌++◌, ◌==◌, ==→eq, ◌&&◌, length, drop, All, arith, Bool-cases, Option-cases,
  append_assoc, some-injective, length-append,
}
use openussd.Strings.{Text}
use openussd.Config.Expand.{
  starts_name, in_name, name_end, match_ref, replace_ref, expand_from, Node, scalar, branch, Nodes,
  no_nodes, add_node, expand_node, expand_nodes,
}

-- `[A-Za-z_][A-Za-z0-9_]*`
abbrev pub IsName : Text → Type 0
IsName [] = ⊥
IsName (c ∷ s) = (starts_name c ≡ true) × All (λ d. in_name d ≡ true) s

-- A name in its braces, before the rest of a text.
abbrev pub reference : Text → Text → Text
reference name rest = b'$' ∷ b'{' ∷ (name ++ b'}' ∷ rest)

-- A text with each reference replaced by the variable of that name, which is set. A rune at which no
-- reference starts stays.
pub data Expands (env : Text → Option Text) : Text → Text → Type 0 where
  done : Expands env [] []
  kept :
      (c : ℕ) (s out : Text)
      → ((name rest : Text) → IsName name → c ∷ s ≢ reference name rest)
      → Expands env s out
      → Expands env (c ∷ s) (c ∷ out)
  replaced :
      (name value rest out : Text)
      → IsName name
      → env name ≡ some value
      → Expands env rest out
      → Expands env (reference name rest) (value ++ out)

-- A document with every scalar expanded.
mutual
  pub data ExpandsNode (env : Text → Option Text) : Node → Node → Type 0 where
    one_value : (s out : Text) → Expands env s out → ExpandsNode env (scalar s) (scalar out)
    under :
        (kind : ℕ) (content out : Nodes)
        → ExpandsNodes env content out
        → ExpandsNode env (branch kind content) (branch kind out)

  pub data ExpandsNodes (env : Text → Option Text) : Nodes → Nodes → Type 0 where
    no_more : ExpandsNodes env no_nodes no_nodes
    one_more :
        (child out : Node) (content rest : Nodes)
        → ExpandsNode env child out
        → ExpandsNodes env content rest
        → ExpandsNodes env (add_node child content) (add_node out rest)

in_name-brace : (c : ℕ) → in_name c ≡ true → (c == b'}') ≡ false
in_name-brace c h = ground arith

name_end_sound :
    (s name : Text)
    → name_end s ≡ some name
    → All (λ d. in_name d ≡ true) name × (rest : Text) × (s ≡ name ++ b'}' ∷ rest)
unfolding name_end
name_end_sound [] name h = absurd (ground arith)
name_end_sound (c ∷ s) name h = elim (Bool-cases (c == b'}')) [
  | inl brace ↦
      let e : [] ≡ name = some-injective (rw (brace, name_end) at h) in
      rw (← e) (tt, s, ap (λ d. d ∷ s) (==→eq c b'}' brace))
  | inr other ↦ elim (Bool-cases (in_name c)) [
    | inr bad ↦ absurd (ground (arith, rw (other, bad, name_end) at h))
    | inl good ↦ elim (Option-cases (name_end s)) [
      | inl nothing ↦ absurd (ground (arith, rw (other, good, nothing, name_end) at h))
      | inr (n, found) ↦
          let e : c ∷ n ≡ name = some-injective (rw (other, good, found, name_end) at h) in
          let (all, rest, whole) = name_end_sound s n found in
          rw (← e) ((good, all), rest, ap (λ t. c ∷ t) whole)
    ]
  ]
]

name_end_complete :
    (name rest : Text)
    → All (λ d. in_name d ≡ true) name
    → name_end (name ++ b'}' ∷ rest) ≡ some name
unfolding name_end
name_end_complete [] rest h = refl
name_end_complete (c ∷ name) rest h =
    rw (in_name-brace c h.0, h.0, name_end_complete name rest h.1) refl

match_ref_sound :
    (s name : Text)
    → match_ref s ≡ some name
    → IsName name × (rest : Text) × (s ≡ reference name rest)
unfolding match_ref
match_ref_sound [] name h = absurd (ground arith)
match_ref_sound (d ∷ []) name h = absurd (ground arith)
match_ref_sound (d ∷ o ∷ []) name h = absurd (ground arith)
match_ref_sound (d ∷ o ∷ c ∷ s) name h =
    elim (Bool-cases (d == b'$' && o == b'{' && starts_name c)) [
      | inr bad ↦ absurd (ground (arith, rw (bad, match_ref) at h))
      | inl good ↦ elim (Option-cases (name_end s)) [
        | inl nothing ↦ absurd (ground (arith, rw (good, nothing, match_ref) at h))
        | inr (n, found) ↦
            let e : c ∷ n ≡ name = some-injective (rw (good, found, match_ref) at h) in
            let (all, rest, whole) = name_end_sound s n found in
            let dollar : d ≡ b'$' = ground (arith, good) in
            let opens : o ≡ b'{' = ground (arith, good) in
            let starts : starts_name c ≡ true = ground (arith, good) in
            rw (← e) (
              (starts, all),
              rest,
              ap (λ x. x ∷ o ∷ c ∷ s) dollar
                  ∙ ap (λ x. b'$' ∷ x ∷ c ∷ s) opens
                  ∙ ap (λ t. b'$' ∷ b'{' ∷ c ∷ t) whole,
            )
      ]
    ]

match_ref_complete : (name rest : Text) → IsName name → match_ref (reference name rest) ≡ some name
unfolding match_ref
match_ref_complete [] rest h = elim h [ ]
match_ref_complete (c ∷ name) rest h = rw (h.0, name_end_complete name rest h.1) refl

drop-append : (t rest : Text) → drop (length t) (t ++ rest) ≡ rest
drop-append [] rest = refl
drop-append (c ∷ t) rest = drop-append t rest

-- What follows a reference, past its first rune.
drop-reference :
    (c : ℕ) (s name rest : Text) → c ∷ s ≡ reference name rest → drop (length name + 2) s ≡ rest
drop-reference c s name rest e =
    let opened : Text = b'{' ∷ (name ++ b'}' ∷ []) in
    let inside : s ≡ b'{' ∷ (name ++ b'}' ∷ rest) = ground (arith, e) in
    let size : length name + 2 ≡ length opened = omega (arith, length-append name (b'}' ∷ [])) in
    ap (drop (length name + 2)) inside
    ∙ ap (λ t. drop (length name + 2) (b'{' ∷ t)) (sym (append_assoc name (b'}' ∷ []) rest))
    ∙ ap (λ n. drop n (opened ++ rest)) size
    ∙ drop-append opened rest

module _ (env : Text → Option Text) where
  replace_ref-set :
      (name : Text) (p : Text × List Text)
      → (replace_ref env name p).1 ≡ []
      → (value : Text) × (env name ≡ some value)
        × ◌≡◌ {A = Text × List Text} (replace_ref env name p) (value ++ p.0, p.1)
  replace_ref-set name p h = elim (Option-cases (env name)) [
    | inl unset ↦ absurd (ground (arith, rw (replace_ref, unset) at h))
    | inr (value, set) ↦ (value, set, rw (replace_ref, set) refl)
  ]

  expand_from-Expands :
      (skip : ℕ) (s : Text)
      → (expand_from env skip s).1 ≡ []
      → Expands env (drop skip s) (expand_from env skip s).0
  unfolding expand_from
  expand_from-Expands zero [] h = done
  expand_from-Expands (suc skip) [] h = done
  expand_from-Expands (suc skip) (c ∷ s) h = expand_from-Expands skip s h
  expand_from-Expands zero (c ∷ s) h = elim (Option-cases (match_ref (c ∷ s))) [
    | inl nothing ↦
        rw (nothing, expand_from)
          (kept c s (expand_from env 0 s).0
            (λ name rest named e.
              absurd (ground (arith, nothing, ap match_ref e, match_ref_complete name rest named)))
            (expand_from-Expands zero s (rw (nothing, expand_from) at h)))
    | inr (name, found) ↦
        let after = expand_from env (length name + 2) s in
        let (value, set, same) = replace_ref-set name after (rw (found, expand_from) at h) in
        let (named, rest, whole) = match_ref_sound (c ∷ s) name found in
        let complete : after.1 ≡ [] =
          sym (ap (λ (p : Text × List Text). p.1) same) ∙ rw (found, expand_from) at h in
        let more =
          subst (λ t. Expands env t after.0) (drop-reference c s name rest whole)
            (expand_from-Expands (length name + 2) s complete) in
        rw (found, expand_from)
          (subst (λ t. Expands env (c ∷ s) t) (sym (ap (λ (p : Text × List Text). p.0) same))
            (subst (λ t. Expands env t (value ++ after.0)) (sym whole)
              (replaced name value rest after.0 named set more)))
  ]

append-nothing : (a b : List Text) → a ++ b ≡ [] → (a ≡ []) × (b ≡ [])
append-nothing [] b h = (refl, h)
append-nothing (x ∷ a) b h = absurd (ground arith)

mutual
  unfolding expand_node

  pub expand_node-ExpandsNode :
      (env : Text → Option Text) (n : Node)
      → (expand_node env n).1 ≡ []
      → ExpandsNode env n (expand_node env n).0
  expand_node-ExpandsNode env (scalar s) h = one_value s _ (expand_from-Expands env 0 s h)
  expand_node-ExpandsNode env (branch kind content) h =
      under kind content _ (expand_nodes-ExpandsNodes env content h)

  expand_nodes-ExpandsNodes :
      (env : Text → Option Text) (ns : Nodes)
      → (expand_nodes env ns).1 ≡ []
      → ExpandsNodes env ns (expand_nodes env ns).0
  expand_nodes-ExpandsNodes env no_nodes h = no_more
  expand_nodes-ExpandsNodes env (add_node child content) h =
      let (first, rest) = append-nothing (expand_node env child).1 (expand_nodes env content).1 h in
      one_more child _ content _ (expand_node-ExpandsNode env child first)
        (expand_nodes-ExpandsNodes env content rest)
