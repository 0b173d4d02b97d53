-- ===== src/Hist/Retention.antt =====
-- done_mod/mod_hist/hist_srv/ManageHistory.go: the retention rules, by the name of the values.
use done_rest.Prelude.{
  ◌≡◌, ◌⊎◌, inl, inr, String, Bool, true, false, ◌&&◌, ◌||◌, Option, none, some, List, [], ◌∷◌,
  ◌++◌, arith, Dict, lookup, ◌==◌, if◌then◌else◌, Option-cases, Bool-cases, All, ℕ, map,
}
use done_rest.Hist.{ThingValue}

pub record RetentionRule : Type 0 where
  pub agent_id : String
  pub thing_id : String
  pub name : String
  pub retain : Bool
  pub max_age : ℕ

abbrev pub RetentionRuleSet : Type 0
RetentionRuleSet = Dict (List RetentionRule)

-- An empty ID of the rule stands for any.
unfoldable pub matches : ThingValue → RetentionRule → Bool
matches tv rule =
    (rule.agent_id == "" || rule.agent_id == tv.agent_id)
    && (rule.thing_id == "" || rule.thing_id == tv.thing_id)

-- The loop over the rules of one name.
unfoldable pub first_match : ThingValue → List RetentionRule → Option RetentionRule
first_match tv [] = none
first_match tv (rule ∷ rest) =
    let later = first_match tv rest in if matches tv rule then some rule else later

unfoldable pub rules_of : String → RetentionRuleSet → List RetentionRule
rules_of name rules = elim (lookup name rules) [ none ↦ [] | some found ↦ found ]

unfoldable pub find_first_rule : RetentionRuleSet → ThingValue → Option RetentionRule
find_first_rule rules tv = elim (first_match tv (rules_of tv.name rules)) [
  | some rule ↦ some rule
  | none ↦ first_match tv (rules_of "" rules)
]

unfoldable pub is_retained : RetentionRuleSet → ThingValue → Bool × Option RetentionRule
is_retained [] tv = (true, none)
is_retained (e ∷ rest) tv = elim (find_first_rule (e ∷ rest) tv) [
  | none ↦ (false, none)
  | some rule ↦ (rule.retain, some rule)
]

-- Each rule gets the name that it stands under.
unfoldable pub named_rules : RetentionRuleSet → RetentionRuleSet
named_rules [] = []
named_rules ((name, rules) ∷ rest) =
    (name, map (λ (r : RetentionRule). record r { name = name }) rules) ∷ named_rules rest

unfoldable pub set_retention_rules : RetentionRuleSet → RetentionRuleSet → RetentionRuleSet
set_retention_rules rules args = named_rules args

-- Whatever stands before the rule in the list does not apply.
pub record IsFirst (tv : ThingValue) (rule : RetentionRule) (rules : List RetentionRule)
    : Type 0 where
  pub before : List RetentionRule
  pub after : List RetentionRule
  pub splits : rules ≡ before ++ rule ∷ after
  pub applies : matches tv rule ≡ true
  pub skipped : All (λ (r : RetentionRule). matches tv r ≡ false) before

first_match-IsFirst :
    (tv : ThingValue) (rules : List RetentionRule) (rule : RetentionRule)
    → first_match tv rules ≡ some rule
    → IsFirst tv rule rules
unfolding first_match
first_match-IsFirst tv [] rule h = cc
first_match-IsFirst tv (r ∷ rest) rule h = elim (Bool-cases (matches tv r)) [
  | inl here ↦ record {
    before = [];
    after = rest;
    splits = ground arith;
    applies = ground arith;
    skipped = tt;
  }
  | inr passed ↦
      let later = first_match-IsFirst tv rest rule (ground arith) in
      record {
        before = r ∷ later.before;
        after = later.after;
        splits = cc later.splits;
        applies = later.applies;
        skipped = (passed, later.skipped);
      }
]

first_match-none :
    (tv : ThingValue) (rules : List RetentionRule)
    → first_match tv rules ≡ none
    → All (λ (r : RetentionRule). matches tv r ≡ false) rules
unfolding first_match
first_match-none tv [] h = tt
first_match-none tv (r ∷ rest) h = (ground arith, first_match-none tv rest (ground arith))

-- The rule that is found is the first one that applies of the rules under the value's name, or, if
-- none of these applies, the first one that applies of the rules under no name; if none is found,
-- no rule under either applies.
find_first_rule_lem :
    (rules : RetentionRuleSet) (tv : ThingValue)
    → ((rule : RetentionRule)
        → find_first_rule rules tv ≡ some rule
        → IsFirst tv rule (rules_of tv.name rules)
          ⊎ (All (λ (r : RetentionRule). matches tv r ≡ false) (rules_of tv.name rules)
              × IsFirst tv rule (rules_of "" rules)))
      × (find_first_rule rules tv ≡ none
          → All (λ (r : RetentionRule). matches tv r ≡ false) (rules_of tv.name rules)
            × All (λ (r : RetentionRule). matches tv r ≡ false) (rules_of "" rules))
unfolding find_first_rule
find_first_rule_lem rules tv = elim (Option-cases (first_match tv (rules_of tv.name rules))) [
  | inl silent ↦
      let none_named = first_match-none tv (rules_of tv.name rules) silent in
      (
        λ rule h. inr (
          none_named,
          first_match-IsFirst tv (rules_of "" rules) rule (rw (silent, find_first_rule) at h),
        ),
        λ h. (
          none_named,
          first_match-none tv (rules_of "" rules) (rw (silent, find_first_rule) at h),
        ),
      )
  | inr (named, found) ↦ (
    λ rule h. inl (first_match-IsFirst tv (rules_of tv.name rules) rule (ground arith)),
    λ h. absurd (ground arith),
  )
]
