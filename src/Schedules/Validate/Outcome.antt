-- ===== src/Schedules/Validate/Outcome.antt =====
-- How a result of `validate_rules` comes about.
use minisserver_compose.Prelude.{
  ◌≡◌, refl, ◌⊎◌, inl, inr, List, [], arith, All, All-sort, sort, Text, subst,
}
use minisserver_compose.Prelude.Json.{Json, Items, null, array, items, Fields}
use minisserver_compose.Schedules.Types.{
  Kind, unknown, Guardrails, Rule, pass, ok, Problem, Result-cases,
}
use minisserver_compose.Schedules.RuleLoop.{Progress, check_rule, visit_rules}
use minisserver_compose.Schedules.Validate.{
  validate_rules, validate_value, validate_list, check_across, rule_leb, too_many,
}
use minisserver_compose.Schedules.Validate.Sound.Loop.{visit_rules-All}

abbrev pub fresh_progress : List Json → Progress
fresh_progress vs = record { probs = too_many vs; seen_ids = []; good = [] }

-- A list of rules went through the loop, and the checks across the rules followed.
pub record Concluded (kind : Kind) (g : Guardrails) (v : Json) (out : List Rule)
    (probs : List Problem) : Type 0 where
  pub given : Items
  pub is_array : v ≡ array given
  pub progress : Progress
  pub looped : visit_rules kind g 0 (items given) (fresh_progress (items given)) ≡ ok progress
  pub out_sorted : out ≡ sort rule_leb progress.good
  pub all_probs : probs ≡ check_across kind g progress.good progress.probs

validate_list-Concluded :
    (kind : Kind) (g : Guardrails) (vs : Items) (out : List Rule) (probs : List Problem)
    → validate_list kind g (items vs) ≡ ok (out, probs)
    → Concluded kind g (array vs) out probs
unfolding validate_list
validate_list-Concluded kind g vs out probs h =
    elim (Result-cases (visit_rules kind g 0 (items vs) (fresh_progress (items vs)))) [
      | inl (q, e) ↦ record {
        given = vs;
        is_array = refl;
        progress = q;
        looped = e;
        out_sorted = ground (arith, e);
        all_probs = ground (arith, e);
      }
      | inr (x, e) ↦ ground (arith, e)
    ]

validate_value-Concluded :
    (kind : Kind) (g : Guardrails) (v : Json) (out : List Rule)
    → validate_value kind g v ≡ ok (out, [])
    → Concluded kind g v out []
unfolding validate_value
validate_value-Concluded kind g (array vs) out h = validate_list-Concluded kind g vs out [] h
validate_value-Concluded kind g null out h = absurd (cc)
validate_value-Concluded kind g _ out h = absurd (cc)

-- With no problem the value was a list, and the loop was run.
pub validate_rules-Concluded :
    (kind : Kind) (g : Guardrails) (v : Json) (out : List Rule)
    → validate_rules kind g v ≡ ok (out, [])
    → Concluded kind g v out []
unfolding validate_rules
validate_rules-Concluded (unknown k) g v out h = absurd (cc)
validate_rules-Concluded kind g v out h = validate_value-Concluded kind g v out h

validate_rules-cases :
    (kind : Kind) (g : Guardrails) (v : Json) (out : List Rule) (probs : List Problem)
    → validate_rules kind g v ≡ ok (out, probs)
    → ([] ≡ out) ⊎ (validate_value kind g v ≡ ok (out, probs))
unfolding validate_rules
validate_rules-cases (unknown k) g v out probs h = inl (ground arith)
validate_rules-cases kind g v out probs h = inr h

module _ (kind : Kind) (g : Guardrails) (P : Rule → Type 0)
    (sound : (rid : Text) (fs : Fields) (r : Rule) → check_rule kind g rid fs ≡ pass r → P r) where
  Concluded-All :
      (v : Json) (out : List Rule) (probs : List Problem) → Concluded kind g v out probs → All P out
  Concluded-All v out probs c = rw c.out_sorted (
      All-sort rule_leb P c.progress.good (
        visit_rules-All kind g P sound 0 (items c.given) (fresh_progress (items c.given)) c.progress
          c.looped tt))

  validate_value-All :
      (v : Json) (out : List Rule) (probs : List Problem)
      → validate_value kind g v ≡ ok (out, probs)
      → All P out
  unfolding validate_value
  validate_value-All (array vs) out probs h =
      Concluded-All (array vs) out probs (validate_list-Concluded kind g vs out probs h)
  validate_value-All null out probs h = let e : [] ≡ out = ground arith in subst (λ l. All P l) e tt
  validate_value-All _ out probs h = let e : [] ≡ out = ground arith in subst (λ l. All P l) e tt

  -- What the checks of one rule show holds of every rule that comes back.
  pub validate_rules-All :
      (v : Json) (out : List Rule) (probs : List Problem)
      → validate_rules kind g v ≡ ok (out, probs)
      → All P out
  validate_rules-All v out probs h = elim (validate_rules-cases kind g v out probs h) [
    | inl e ↦ subst (λ l. All P l) e tt
    | inr k ↦ validate_value-All v out probs k
  ]
