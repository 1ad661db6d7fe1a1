-- ===== src/Schedules/Validate/Sound/Loop.antt =====
-- The loop over the rules, and what it keeps.
use minisserver_compose.Prelude.{
  ℕ, suc, ◌+◌, ◌≡◌, refl, sym, ap, ◌∙◌, ◌⊎◌, true, false, List, [], ◌∷◌, ◌++◌, Text, codes, arith,
  Bool-cases, inl, inr, All, All-append, All-mono, text_eq_refl, member, length, length-append,
  subst, Pairwise, ◌≢◌,
}
use minisserver_compose.Prelude.Json.{Json, null, str, object, Fields, get_value}
use minisserver_compose.Schedules.Types.{
  Kind, Guardrails, Rule, Check, pass, stop, raise, ok, Problem, problem, Code, rule_at,
  Result-cases,
}
use minisserver_compose.Schedules.Rules.{is_rule_id}
use minisserver_compose.Schedules.RuleLoop.{
  Progress, check_rule, settle, visit_named, visit_id, visit_rule, visit_rules, report,
  unknown_keys,
}

append-eq-nil {ℓ} : {A : Type ℓ} (xs ys : List A) → (xs ++ ys) ≡ [] → (xs ≡ []) × (ys ≡ [])
append-eq-nil [] ys e = (refl, e)
append-eq-nil (x ∷ xs) ys e = absurd (cc)

snoc-ne-nil {ℓ} : {A : Type ℓ} (xs : List A) (x : A) → (xs ++ x ∷ []) ≡ [] → ⊥
snoc-ne-nil xs x e = cc (append-eq-nil xs (x ∷ []) e).1

Pairwise-snoc {ℓ κ} :
    {A : Type ℓ} (R : A → A → Type κ) (xs : List A) (x : A)
    → Pairwise R xs
    → All (λ y. R y x) xs
    → Pairwise R (xs ++ x ∷ [])
Pairwise-snoc R [] x h k = (tt, tt)
Pairwise-snoc R (y ∷ ys) x h k =
    (All-append (R y) ys (x ∷ []) h.0 (k.0, tt), Pairwise-snoc R ys x h.1 k.1)

abbrev pub IsSeen : List Text → Rule → Type 0
IsSeen seen r = member r.id seen ≡ true

abbrev pub HasOtherId : Rule → Rule → Type 0
HasOtherId a b = a.id ≢ b.id

-- The ids that were kept are among the ids that were seen, each once.
pub record HasIds (p : Progress) : Type 0 where
  pub seen : All (IsSeen p.seen_ids) p.good
  pub others : Pairwise HasOtherId p.good

abbrev bad_id : ℕ → Problem
bad_id i = problem Code.format (rule_at i (codes ".id"))

abbrev twice_id : ℕ → Problem
twice_id i = problem Code.duplicate (rule_at i (codes ".id"))

module _ (kind : Kind) (g : Guardrails) where
  -- One round that reports a problem.
  record Refused (p q : Progress) : Type 0 where
    same_good : q.good ≡ p.good
    reported : q.probs ≡ [] → ⊥
    still_seen : (s : Text) → member s p.seen_ids ≡ true → member s q.seen_ids ≡ true

  -- One round that accepts a rule.
  record Accepted (p q : Progress) : Type 0 where
    rid : Text
    fs : Fields
    rule : Rule
    checked : check_rule kind g rid fs ≡ pass rule
    good_ids : is_rule_id rid ≡ true
    appended : q.good ≡ p.good ++ rule ∷ []
    no_more : q.probs ≡ [] → p.probs ≡ []
    new_id : member rid p.seen_ids ≡ false
    now_seen : q.seen_ids ≡ rid ∷ p.seen_ids

  settle-cases :
      (rid : Text) (fs : Fields) (c : Check Rule) (p q : Progress)
      → check_rule kind g rid fs ≡ c
      → is_rule_id rid ≡ true
      → member rid p.seen_ids ≡ false
      → settle c (record p { seen_ids = rid ∷ p.seen_ids }) ≡ ok q
      → Refused p q ⊎ Accepted p q
  unfolding settle
  settle-cases rid fs (pass r) p q e i m k = inr (record {
    rid = rid;
    fs = fs;
    rule = r;
    checked = e;
    good_ids = i;
    appended = ground arith;
    no_more = λ n. ground arith;
    new_id = m;
    now_seen = ground arith;
  })
  settle-cases rid fs (stop b) p q e i m k =
      let probs : q.probs ≡ p.probs ++ b ∷ [] = ground arith in
      inl (record {
        same_good = ground arith;
        reported = λ n. snoc-ne-nil p.probs b (sym probs ∙ n);
        still_seen = λ s h. ground arith;
      })
  settle-cases rid fs (raise b) p q e i m k = absurd (cc)

  refuse :
      (b : Problem) (p q : Progress) → ok (report (b ∷ []) p) ≡ ok q → Refused p q ⊎ Accepted p q
  refuse b p q k =
      let probs : q.probs ≡ p.probs ++ b ∷ [] = ground arith in
      inl (record {
        same_good = ground arith;
        reported = λ n. snoc-ne-nil p.probs b (sym probs ∙ n);
        still_seen = λ s h. ground arith;
      })

  visit_named-cases :
      (i : ℕ) (rid : Text) (fs : Fields) (p q : Progress)
      → visit_named kind g i rid fs p ≡ ok q
      → Refused p q ⊎ Accepted p q
  visit_named-cases i rid fs p q k = elim (Bool-cases (is_rule_id rid)) [
    | inr bad ↦
        let e : visit_named kind g i rid fs p ≡ ok (report (bad_id i ∷ []) p) =
          (unfold visit_named in rw bad) in
        refuse (bad_id i) p q (sym e ∙ k)
    | inl fine ↦ elim (Bool-cases (member rid p.seen_ids)) [
      | inl twice ↦
          let e : visit_named kind g i rid fs p ≡ ok (report (twice_id i ∷ []) p) =
            (unfold visit_named in rw (fine, twice)) in
          refuse (twice_id i) p q (sym e ∙ k)
      | inr fresh ↦
          let e : visit_named kind g i rid fs p
              ≡ settle (check_rule kind g rid fs) (record p { seen_ids = rid ∷ p.seen_ids }) =
            (unfold visit_named in rw (fine, fresh)) in
          settle-cases rid fs (check_rule kind g rid fs) p q refl fine fresh (sym e ∙ k)
    ]
  ]

  visit_id-cases :
      (i : ℕ) (v : Json) (fs : Fields) (p q : Progress)
      → visit_id kind g i v fs p ≡ ok q
      → Refused p q ⊎ Accepted p q
  unfolding visit_id
  visit_id-cases i (str rid) fs p q k = visit_named-cases i rid fs p q k
  visit_id-cases i null fs p q k = refuse (bad_id i) p q k
  visit_id-cases i _ fs p q k = refuse (bad_id i) p q k

  -- Unknown keys are reported, and the checks go on.
  from_report :
      (bs : List Problem) (p q : Progress)
      → Refused (report bs p) q ⊎ Accepted (report bs p) q
      → Refused p q ⊎ Accepted p q
  from_report bs p q (inl r) =
      inl (record { same_good = r.same_good; reported = r.reported; still_seen = r.still_seen })
  from_report bs p q (inr a) = inr (record {
    rid = a.rid;
    fs = a.fs;
    rule = a.rule;
    checked = a.checked;
    good_ids = a.good_ids;
    appended = a.appended;
    no_more = λ n. (append-eq-nil p.probs bs (a.no_more n)).0;
    new_id = a.new_id;
    now_seen = a.now_seen;
  })

  -- A round of the loop refuses its rule with a problem, or appends the rule that was checked.
  visit_rule-cases :
      (i : ℕ) (v : Json) (p q : Progress)
      → visit_rule kind g i v p ≡ ok q
      → Refused p q ⊎ Accepted p q
  unfolding visit_rule
  visit_rule-cases i (object fs) p q k =
      from_report (unknown_keys i fs) p q
        (visit_id-cases i (get_value (codes "id") fs) fs (report (unknown_keys i fs) p) q k)
  visit_rule-cases i null p q k = refuse (problem Code.type (rule_at i [])) p q k
  visit_rule-cases i _ p q k = refuse (problem Code.type (rule_at i [])) p q k

  visit_rules-step :
      (i : ℕ) (v : Json) (vs : List Json) (p q : Progress)
      → visit_rules kind g i (v ∷ vs) p ≡ ok q
      → (m : Progress) × (visit_rule kind g i v p ≡ ok m) × (visit_rules kind g (suc i) vs m ≡ ok q)
  unfolding visit_rules
  visit_rules-step i v vs p q k = elim (Result-cases (visit_rule kind g i v p)) [
    | inl (m, e) ↦ (m, e, ground (arith, e))
    | inr (x, e) ↦ ground (arith, e)
  ]

  -- What every rule that passes the checks has, every rule that is kept has.
  module _ (P : Rule → Type 0)
      (sound : (rid : Text) (fs : Fields) (r : Rule)
        → check_rule kind g rid fs ≡ pass r
        → P r) where
    round-All : (p q : Progress) → Refused p q ⊎ Accepted p q → All P p.good → All P q.good
    round-All p q (inl r) h = rw r.same_good h
    round-All p q (inr a) h =
        rw a.appended (All-append P p.good (a.rule ∷ []) h (sound a.rid a.fs a.rule a.checked, tt))

    pub visit_rules-All :
        (i : ℕ) (vs : List Json) (p q : Progress)
        → visit_rules kind g i vs p ≡ ok q
        → All P p.good
        → All P q.good
    visit_rules-All i [] p q k h =
        let same : p ≡ q = (unfold visit_rules in ground arith) in
        subst (λ (r : Progress). All P r.good) same h
    visit_rules-All i (v ∷ vs) p q k h =
        let (m, e, k') = visit_rules-step i v vs p q k in
        visit_rules-All (suc i) vs m q k' (round-All p m (visit_rule-cases i v p m e) h)

  -- With no problem at the end there was none before, and no rule was dropped.
  round-length :
      (p q : Progress)
      → Refused p q ⊎ Accepted p q
      → q.probs ≡ []
      → (p.probs ≡ []) × (length q.good ≡ length p.good + 1)
  round-length p q (inl r) n = absurd (r.reported n)
  round-length p q (inr a) n = (a.no_more n, rw a.appended (length-append p.good (a.rule ∷ [])))

  pub visit_rules-length :
      (i : ℕ) (vs : List Json) (p q : Progress)
      → visit_rules kind g i vs p ≡ ok q
      → q.probs ≡ []
      → (p.probs ≡ []) × (length q.good ≡ length p.good + length vs)
  visit_rules-length i [] p q k n =
      let same : q ≡ p = (unfold visit_rules in ground arith) in rw same (rw same at n, omega arith)
  visit_rules-length i (v ∷ vs) p q k n =
      let (m, e, k') = visit_rules-step i v vs p q k in
      let (n', l') = visit_rules-length (suc i) vs m q k' n in
      let (n'', l) = round-length p m (visit_rule-cases i v p m e) n' in (n'', omega (arith, l, l'))

  round-HasIds :
      (p q : Progress)
      → ((rid : Text) (fs : Fields) (r : Rule) → check_rule kind g rid fs ≡ pass r → r.id ≡ rid)
      → Refused p q ⊎ Accepted p q
      → HasIds p
      → HasIds q
  round-HasIds p q named (inl r) h = record {
    seen = rw r.same_good (All-mono _ (IsSeen q.seen_ids) (λ x. r.still_seen x.id) p.good h.seen);
    others = rw r.same_good h.others;
  }
  round-HasIds p q named (inr a) h =
      let same = named a.rid a.fs a.rule a.checked in
      record {
        seen =
            rw (a.appended, a.now_seen)
              (All-append _ p.good (a.rule ∷ [])
                (All-mono _ (IsSeen (a.rid ∷ p.seen_ids)) (λ x m. ground (arith, m)) p.good h.seen)
                (rw same (ground (arith, text_eq_refl a.rid)), tt));
        others = rw a.appended (
            Pairwise-snoc HasOtherId p.good a.rule h.others (
              All-mono _ (λ x. HasOtherId x a.rule)
                (λ x m e. cc (m, a.new_id, ap (λ t. member t p.seen_ids) (e ∙ same))) p.good
                h.seen));
      }

  pub visit_rules-HasOtherId :
      ((rid : Text) (fs : Fields) (r : Rule) → check_rule kind g rid fs ≡ pass r → r.id ≡ rid)
      → (i : ℕ) (vs : List Json) (p q : Progress) → visit_rules kind g i vs p ≡ ok q
      → HasIds p
      → HasIds q
  visit_rules-HasOtherId named i [] p q k h =
      let same : p ≡ q = (unfold visit_rules in ground arith) in subst HasIds same h
  visit_rules-HasOtherId named i (v ∷ vs) p q k h =
      let (m, e, k') = visit_rules-step i v vs p q k in
      visit_rules-HasOtherId named (suc i) vs m q k'
        (round-HasIds p m named (visit_rule-cases i v p m e) h)
