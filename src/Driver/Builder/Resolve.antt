-- ===== src/Driver/Builder/Resolve.antt =====
-- The operators that the agents of a pipeline ask for.
use metal_fs.Base.{
  ◌≡◌, refl, ap, subst, ◌⊎◌, inl, inr, Bool, true, false, ◌||◌, Option, none, some, List, [], ◌∷◌,
  arith, if◌then◌else◌,
}
use metal_fs.Fs.Directory.Listing.{eq_bytes}
use metal_fs.Pipeline.Card.{
  Failure, not_at_start, unknown_operator, used_twice, Outcome, done, throws, aborts,
}
use metal_fs.Pipeline.Operator.{Specification, find_key}
use metal_fs.Driver.Combined.{Text}
use metal_fs.Driver.Agent.{OperatorAgent}
use metal_fs.Driver.Options.{is_datagen_agent, is_metal_cat_agent}
use metal_fs.Driver.Builder.{is_used, with_agent, resolve_specifications}

abbrev pub Resolved : Type 0
Resolved = List (Option Specification × OperatorAgent)

abbrev pub is_pseudo : OperatorAgent → Bool
is_pseudo a = is_datagen_agent a || is_metal_cat_agent a

abbrev pub agents_of : Resolved → List OperatorAgent
agents_of [] = []
agents_of ((spec, a) ∷ xs) = a ∷ agents_of xs

-- The types of the agents that have a specification.
abbrev pub types_of : Resolved → List Text
types_of [] = []
types_of ((none, a) ∷ xs) = types_of xs
types_of ((some op, a) ∷ xs) = a.operator_type ∷ types_of xs

-- The pseudo operators have no specification, and the others that of their type.
abbrev pub AreMatched : List (Text × Specification) → Resolved → Type 0
AreMatched registry [] = Unit {0}
AreMatched registry ((none, a) ∷ xs) = (is_pseudo a ≡ true) × AreMatched registry xs
AreMatched registry ((some op, a) ∷ xs) =
    (is_pseudo a ≡ false) × (find_key a.operator_type registry ≡ some op) × AreMatched registry xs

abbrev pub AllSpecified : Resolved → Type 0
AllSpecified [] = Unit {0}
AllSpecified ((none, a) ∷ xs) = ⊥
AllSpecified ((some op, a) ∷ xs) = AllSpecified xs

abbrev pub AreDistinct : List Text → Type 0
AreDistinct [] = Unit {0}
AreDistinct (t ∷ ts) = (is_used t ts ≡ false) × AreDistinct ts

abbrev AreUnused : (used : List Text) → List Text → Type 0
AreUnused used [] = Unit {0}
AreUnused used (t ∷ ts) = (is_used t used ≡ false) × AreUnused used ts

abbrev pub Has : (OperatorAgent → Type 0) → List OperatorAgent → Type 0
Has P [] = ⊥
Has P (a ∷ others) = P a ⊎ Has P others

-- Two of the agents have the same type.
abbrev pub Repeats : List OperatorAgent → Type 0
Repeats [] = ⊥
Repeats (a ∷ others) =
    Has (λ b. eq_bytes a.operator_type b.operator_type ≡ true) others ⊎ Repeats others

-- Without the first, if it is the first of the pipeline.
abbrev pub behind : {A : Type 0} → (is_first : Bool) → List A → List A
behind is_first [] = []
behind true (a ∷ others) = others
behind false (a ∷ others) = a ∷ others

abbrev pub IsUnknown : List (Text × Specification) → OperatorAgent → Type 0
IsUnknown registry a = (is_pseudo a ≡ false) × (find_key a.operator_type registry ≡ none)

abbrev Reason :
    List (Text × Specification) → Bool → List Text → List OperatorAgent → Failure → Type 0
Reason registry is_first used agents not_at_start =
    Has (λ a. is_pseudo a ≡ true) (behind is_first agents)
Reason registry is_first used agents unknown_operator = Has (IsUnknown registry) agents
Reason registry is_first used agents used_twice =
    Has (λ a. is_used a.operator_type used ≡ true) agents ⊎ Repeats agents
Reason registry is_first used agents _ = ⊥

abbrev IsResolution :
    List (Text × Specification) → Bool → List Text → List OperatorAgent → Outcome Resolved → Type 0
IsResolution registry is_first used agents (done xs) =
    (agents_of xs ≡ agents)
    × AreMatched registry xs
    × AllSpecified (behind is_first xs)
    × AreUnused used (types_of xs)
    × AreDistinct (types_of xs)
IsResolution registry is_first used agents (throws e) = Reason registry is_first used agents e
IsResolution registry is_first used agents aborts = ⊥

pub eq_bytes_sym : (a b : Text) → eq_bytes a b ≡ eq_bytes b a
unfolding eq_bytes
eq_bytes_sym [] [] = refl
eq_bytes_sym [] (y ∷ ys) = refl
eq_bytes_sym (x ∷ xs) [] = refl
eq_bytes_sym (x ∷ xs) (y ∷ ys) = ground (arith, eq_bytes_sym xs ys)

behind-false : {A : Type 0} (xs : List A) → behind false xs ≡ xs
behind-false [] = refl
behind-false (x ∷ xs) = refl

behind_more :
    (is_first : Bool) (P : OperatorAgent → Type 0) (a : OperatorAgent) (others : List OperatorAgent)
    → Has P (behind false others)
    → Has P (behind is_first (a ∷ others))
behind_more true P a others h = subst (Has P) (behind-false others) h
behind_more false P a others h = inr (subst (Has P) (behind-false others) h)

behind_known :
    (is_first : Bool) (op : Specification) (a : OperatorAgent) (xs : Resolved)
    → AllSpecified (behind false xs)
    → AllSpecified (behind is_first ((some op, a) ∷ xs))
behind_known true op a xs h = subst AllSpecified (behind-false xs) h
behind_known false op a xs h = subst AllSpecified (behind-false xs) h

neither : (a b : Bool) → (a || b) ≡ false → (a ≡ false) × (b ≡ false)
neither true b h = cc
neither false b h = (refl, h)

either : (a b : Bool) → (a || b) ≡ true → (a ≡ true) ⊎ (b ≡ true)
either true b h = inl refl
either false b h = inr h

fewer_used :
    (t : Text) (used ts : List Text)
    → AreUnused (t ∷ used) ts
    → AreUnused used ts × (is_used t ts ≡ false)
fewer_used t used [] h = (tt, refl)
fewer_used t used (u ∷ ts) (h, more) =
    let (unused, other) = fewer_used t used ts more in
    let (differs, free) = neither (eq_bytes t u) (is_used u used) h in
    ((free, unused), rw (eq_bytes_sym u t, differs) other)

used_by :
    (a : OperatorAgent) (used : List Text) (agents : List OperatorAgent)
    → Has (λ b. is_used b.operator_type (a.operator_type ∷ used) ≡ true) agents
    → Has (λ b. is_used b.operator_type used ≡ true) agents
      ⊎ Has (λ b. eq_bytes a.operator_type b.operator_type ≡ true) agents
used_by a used [] h = absurd h
used_by a used (b ∷ agents) (inl h) =
    elim (either (eq_bytes a.operator_type b.operator_type) (is_used b.operator_type used) h) [
      | inl same ↦ inr (inl same)
      | inr old ↦ inl (inl old)
    ]
used_by a used (b ∷ agents) (inr h) = elim (used_by a used agents h) [
  | inl x ↦ inl (inr x)
  | inr x ↦ inr (inr x)
]

module _ (registry : List (Text × Specification)) (used : List Text) (a : OperatorAgent)
    (others : List OperatorAgent) where
  after_pseudo :
      (rest : Outcome Resolved)
      → is_pseudo a ≡ true
      → IsResolution registry false used others rest
      → IsResolution registry true used (a ∷ others) (with_agent none a rest)
  after_pseudo aborts pseudo h = h
  after_pseudo (done []) pseudo (all, m, s, u, d) = (ap (λ l. a ∷ l) all, (pseudo, m), s, u, d)
  after_pseudo (done (x ∷ xs)) pseudo (all, m, s, u, d) =
      (ap (λ l. a ∷ l) all, (pseudo, m), s, u, d)
  after_pseudo (throws not_at_start) pseudo h =
      behind_more true (λ b. is_pseudo b ≡ true) a others h
  after_pseudo (throws unknown_operator) pseudo h = inr h
  after_pseudo (throws used_twice) pseudo (inl h) = inl (inr h)
  after_pseudo (throws used_twice) pseudo (inr h) = inr (inr h)
  after_pseudo (throws _) pseudo h = absurd h

  after_operator :
      (is_first : Bool) (op : Specification) (rest : Outcome Resolved)
      → is_pseudo a ≡ false
      → find_key a.operator_type registry ≡ some op
      → is_used a.operator_type used ≡ false
      → IsResolution registry false (a.operator_type ∷ used) others rest
      → IsResolution registry is_first used (a ∷ others) (with_agent (some op) a rest)
  after_operator is_first op aborts other found fresh h = h
  after_operator is_first op (done xs) other found fresh (all, m, s, u, d) =
      let (unused, once) = fewer_used a.operator_type used (types_of xs) u in
      (
        ap (λ l. a ∷ l) all,
        (other, found, m),
        behind_known is_first op a xs s,
        (fresh, unused),
        (once, d),
      )
  after_operator is_first op (throws not_at_start) other found fresh h =
      behind_more is_first (λ b. is_pseudo b ≡ true) a others h
  after_operator is_first op (throws unknown_operator) other found fresh h = inr h
  after_operator is_first op (throws used_twice) other found fresh (inr h) = inr (inr h)
  after_operator is_first op (throws used_twice) other found fresh (inl h) =
      elim (used_by a used others h) [ inl x ↦ inl (inr x) | inr x ↦ inr (inl x) ]
  after_operator is_first op (throws _) other found fresh h = absurd h

  -- The tests of one agent, in their order.
  one_agent :
      (is_first pseudo twice : Bool) (spec : Option Specification) (same more : Outcome Resolved)
      → is_pseudo a ≡ pseudo
      → find_key a.operator_type registry ≡ spec
      → is_used a.operator_type used ≡ twice
      → IsResolution registry false used others same
      → IsResolution registry false (a.operator_type ∷ used) others more
      → IsResolution registry is_first used (a ∷ others) (
          if pseudo
          then (if is_first then with_agent none a same else throws not_at_start)
          else elim spec [
            | none ↦ throws unknown_operator
            | some op ↦ if twice then throws used_twice else with_agent (some op) a more
          ])
  one_agent true true twice spec same more p f u hs hm = after_pseudo same p hs
  one_agent false true twice spec same more p f u hs hm = inl p
  one_agent is_first false twice none same more p f u hs hm = inl (p, f)
  one_agent is_first false true (some op) same more p f u hs hm = inl (inl u)
  one_agent is_first false false (some op) same more p f u hs hm =
      after_operator is_first op more p f u hm

resolve_specifications-IsResolution :
    (registry : List (Text × Specification)) (is_first : Bool) (used : List Text)
    (agents : List OperatorAgent)
    → IsResolution registry is_first used agents
        (resolve_specifications registry is_first used agents)
unfolding resolve_specifications
resolve_specifications-IsResolution registry is_first used [] = (refl, tt, tt, tt, tt)
resolve_specifications-IsResolution registry is_first used (a ∷ others) =
    one_agent registry used a others is_first (is_pseudo a) (is_used a.operator_type used)
      (find_key a.operator_type registry) (resolve_specifications registry false used others)
      (resolve_specifications registry false (a.operator_type ∷ used) others) refl refl refl
      (resolve_specifications-IsResolution registry false used others)
      (resolve_specifications-IsResolution registry false (a.operator_type ∷ used) others)

-- The agents that a pipeline is built from, each with its operator's specification, or why there are
-- none.
abbrev pub AreOperators :
    List (Text × Specification) → List OperatorAgent → Outcome Resolved → Type 0
AreOperators registry agents (done xs) =
    (agents_of xs ≡ agents)
    × AreMatched registry xs
    × AllSpecified (behind true xs)
    × AreDistinct (types_of xs)
AreOperators registry agents (throws not_at_start) =
    Has (λ a. is_pseudo a ≡ true) (behind true agents)
AreOperators registry agents (throws unknown_operator) = Has (IsUnknown registry) agents
AreOperators registry agents (throws used_twice) = Repeats agents
AreOperators registry agents _ = ⊥

none_used : (agents : List OperatorAgent) → Has (λ a. false ≡ true) agents → ⊥
none_used [] h = h
none_used (a ∷ others) (inl h) = cc h
none_used (a ∷ others) (inr h) = none_used others h

at_start :
    (registry : List (Text × Specification)) (agents : List OperatorAgent) (o : Outcome Resolved)
    → IsResolution registry true [] agents o
    → AreOperators registry agents o
at_start registry agents aborts h = h
at_start registry agents (done xs) (all, m, s, u, d) = (all, m, s, d)
at_start registry agents (throws not_at_start) h = h
at_start registry agents (throws unknown_operator) h = h
at_start registry agents (throws used_twice) (inl h) = absurd (none_used agents h)
at_start registry agents (throws used_twice) (inr h) = h
at_start registry agents (throws _) h = absurd h

-- For any registry and agents, `resolveOperatorSpecifications` gives all agents in their order, a
-- pseudo operator, which can only be the first, without a specification and each other one with that
-- of its type, no type twice; or it throws, and then a pseudo operator is not the first, a type is
-- not in the registry, or two agents have the same type, as the exception says.
pub resolve_specifications-AreOperators :
    (registry : List (Text × Specification)) (agents : List OperatorAgent)
    → AreOperators registry agents (resolve_specifications registry true [] agents)
resolve_specifications-AreOperators registry agents =
    at_start registry agents (resolve_specifications registry true [] agents)
      (resolve_specifications-IsResolution registry true [] agents)
