-- ===== src/Runtime/Planner/Resolution.antt =====
-- What `resolve_runtime` may return: an explicit choice is kept, and it fits.
use astrum_weaver.Prelude.{
  String, ◌≡◌, refl, sym, ap, subst, true, not, Option, none, some, List, [], ◌∷◌, ◌++◌, ◌==◌,
  arith,
}
use astrum_weaver.Dict.{Dict, get, Entries}
use astrum_weaver.Dict.Laws.{Entries-get}
use astrum_weaver.Runtime.Demand.{
  RuntimeSelection, RuntimeSelectionMode, explicit, recommend, RuntimeCompatibilityContext,
  CompatibilityReason, RuntimeCompatibility, compatible, RuntimeProvider,
}
use astrum_weaver.Runtime.Planner.{
  RuntimeResolution, resolved, generic_reasons, evaluate_provider, evaluate_all, sort_entries,
  keeps_choice, runtime_resolution, choose, select_runtime, resolve_runtime,
}
use astrum_weaver.Runtime.Planner.Compatibility.{
  blocks, blocks-append, generic_reasons_iff, FitsDemand,
}
use astrum_weaver.Result.{Result, ok, err, >>=-eq-ok, if_cases}

-- A report starts with the generic reasons.
record Covers (c : RuntimeCompatibilityContext) (report : RuntimeCompatibility) : Type 0 where
  own : List CompatibilityReason
  joined : report.reasons ≡ generic_reasons c ++ own

evaluate_provider-Covers :
    (p : RuntimeProvider) (c : RuntimeCompatibilityContext) (report : RuntimeCompatibility)
    → evaluate_provider p c ≡ ok report
    → Covers c report
unfolding evaluate_provider
evaluate_provider-Covers p c report =
    if_cases (λ r. r ≡ ok report → Covers c report)
      (not ((p.compatibility c).provider_id == p.info.provider_id)) (λ _ h. absurd (cc h))
      λ _ h.
        let e : record {
          provider_id = p.info.provider_id;
          reasons = generic_reasons c ++ (p.compatibility c).reasons;
        }
            ≡ report =
          cc h in
        record {
          own = (p.compatibility c).reasons;
          joined = sym (ap (λ (x : RuntimeCompatibility). x.reasons) e);
        }

ok-parts : {V : Type 0} {a b : V} → Path (Result V) (ok a) (ok b) → a ≡ b
ok-parts h = cc h

evaluate_all-Covers :
    (ps : Dict RuntimeProvider) (c : RuntimeCompatibilityContext)
    (reports : Dict RuntimeCompatibility)
    → evaluate_all ps c ≡ ok reports
    → Entries (λ id report. Covers c report) reports
unfolding evaluate_all
evaluate_all-Covers [] c reports h = subst (Entries (λ id report. Covers c report)) (ok-parts h) tt
evaluate_all-Covers ((id, p) ∷ ps) c reports h =
    let (report, one, h₁) = >>=-eq-ok (evaluate_provider p c) _ h in
    let (more, others, h₂) = >>=-eq-ok (evaluate_all ps c) _ h₁ in
    subst (Entries (λ id r. Covers c r)) (ok-parts h₂)
      (evaluate_provider-Covers p c report one, evaluate_all-Covers ps c more others)

Covers-fits :
    (c : RuntimeCompatibilityContext) (report : RuntimeCompatibility)
    → Covers c report
    → compatible report ≡ true
    → FitsDemand c
unfolding compatible
Covers-fits c report covers h =
    (generic_reasons_iff c).0
      (ground (arith, blocks-append (generic_reasons c) covers.own, ap blocks covers.joined, h))

resolved-parts : {a b : RuntimeResolution} → resolved a ≡ resolved b → a ≡ b
resolved-parts h = cc h

runtime_resolution-kept :
    (selection : RuntimeSelection) (selected : Option String) (reports : Dict RuntimeCompatibility)
    (r : RuntimeResolution)
    → runtime_resolution selection selected reports ≡ resolved r
    → (r.selection ≡ selection) × (r.selected_provider_id ≡ selected)
unfolding runtime_resolution
runtime_resolution-kept selection selected reports r =
    if_cases (λ x. x ≡ resolved r → (r.selection ≡ selection) × (r.selected_provider_id ≡ selected))
      (keeps_choice selection.mode selected selection.provider_id)
      (λ _ h.
        let e : _ ≡ r = resolved-parts h in
        (
          sym (ap (λ (x : RuntimeResolution). x.selection) e),
          sym (ap (λ (x : RuntimeResolution). x.selected_provider_id) e),
        ))
      (λ _ h. absurd (cc h))

-- What a resolution may select: a recommendation nothing, an explicit choice only itself, installed and
-- fit for the demand.
abbrev pub Selected :
    Dict RuntimeProvider
    → RuntimeCompatibilityContext
    → RuntimeSelectionMode
    → Option String
    → Option String
    → Type 0
Selected catalog c recommend chosen selected = selected ≡ none
Selected catalog c explicit chosen selected =
    (id : String) × (chosen ≡ some id)
    × (selected ≡ some id)
    × ((p : RuntimeProvider) × (get id catalog ≡ some p))
    × FitsDemand c

module _ (catalog : Dict RuntimeProvider) (c : RuntimeCompatibilityContext)
    (selection : RuntimeSelection) (reports : Dict RuntimeCompatibility)
    (covered : Entries (λ id report. Covers c report) reports) (r : RuntimeResolution) where
  choose-Selected :
      (id : String) (found : Option RuntimeProvider) (report : Option RuntimeCompatibility)
      → get id catalog ≡ found
      → get id reports ≡ report
      → choose selection id reports found report ≡ resolved r
      → (r.selection ≡ selection) × Selected catalog c explicit (some id) r.selected_provider_id
  unfolding choose
  choose-Selected id none report e e' = λ h. absurd (cc h)
  choose-Selected id (some p) none e e' = λ h. absurd (cc h)
  choose-Selected id (some p) (some report) e e' =
      if_cases
        (λ x.
          x ≡ resolved r
          → (r.selection ≡ selection)
            × Selected catalog c explicit (some id) r.selected_provider_id)
        (not (compatible report)) (λ _ h. absurd (cc h))
        λ fit h.
          let (kept, same) = runtime_resolution-kept selection (some id) reports r h in
          let covers = Entries-get (λ id report. Covers c report) reports id report covered e' in
          (kept, (id, refl, same, (p, e), Covers-fits c report covers (ground (arith, fit))))

  select_runtime-Selected :
      (mode : RuntimeSelectionMode) (chosen : Option String)
      → select_runtime mode chosen catalog selection reports ≡ resolved r
      → (r.selection ≡ selection) × Selected catalog c mode chosen r.selected_provider_id
  unfolding select_runtime
  select_runtime-Selected recommend chosen h = runtime_resolution-kept selection none reports r h
  select_runtime-Selected explicit none h = absurd (cc h)
  select_runtime-Selected explicit (some id) h =
      choose-Selected id (get id catalog) (get id reports) refl refl h

resolve-cases :
    (catalog : Dict RuntimeProvider) (c : RuntimeCompatibilityContext)
    (selection : RuntimeSelection) (r : RuntimeResolution)
    (reports : Result (Dict RuntimeCompatibility))
    → evaluate_all (sort_entries catalog) c ≡ reports
    → resolve_runtime catalog c selection ≡ resolved r
    → (r.selection ≡ selection)
      × Selected catalog c selection.mode selection.provider_id r.selected_provider_id
unfolding resolve_runtime
resolve-cases catalog c selection r (err e) same h = absurd (cc (rw (same, resolve_runtime) at h))
resolve-cases catalog c selection r (ok reports) same h =
    select_runtime-Selected catalog c selection reports
      (evaluate_all-Covers (sort_entries catalog) c reports same) r selection.mode
      selection.provider_id (rw (same, resolve_runtime) at h)

-- A resolution answers the selection that was asked: a recommendation selects no provider, and an explicit
-- selection no other than the one it names, which is installed and whose worker and host fit the demand.
pub resolve_runtime-Selected :
    (catalog : Dict RuntimeProvider) (c : RuntimeCompatibilityContext)
    (selection : RuntimeSelection) (r : RuntimeResolution)
    → resolve_runtime catalog c selection ≡ resolved r
    → (r.selection ≡ selection)
      × Selected catalog c selection.mode selection.provider_id r.selected_provider_id
resolve_runtime-Selected catalog c selection r =
    resolve-cases catalog c selection r (evaluate_all (sort_entries catalog) c) refl
