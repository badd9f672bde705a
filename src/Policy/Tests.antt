-- ===== src/Policy/Tests.antt =====
-- Runs of the policies, and the theorems at these inputs.
use reprocut.Prelude.{◌⊎◌}
use reprocut.Prelude.{ℕ, ◌+◌, ◌-◌, ◌≤◌, ◌<◌, ◌≡◌, refl, ◌↔◌, List, [], ◌∷◌, length, take, arith}
use reprocut.Model.{CandidateVerdict, preserved, rejected, inconclusive}
use reprocut.Policy.{AggregateDecision, strict, flaky, default_flaky}
use reprocut.Policy.{validated_flaky, aggregate, consume, record_verdict, terminal_decision, finish}
use reprocut.Policy.{final_decision, ok, err, runs_must_be_odd, required_not_supermajority}
use reprocut.Policy.Counts.{count}
use reprocut.Policy.Decision.{IsValid, Refutes, validated_flaky_iff}
use reprocut.Policy.Decision.{
  aggregate-preserved_iff, aggregate-rejected_iff, aggregate-reads_prefix,
}

abbrev mixed : List CandidateVerdict
mixed = preserved ∷ inconclusive ∷ preserved ∷ preserved ∷ rejected ∷ preserved ∷ []

flaky_even : validated_flaky 6 5 ≡ err runs_must_be_odd
unfolding validated_flaky
flaky_even = refl

flaky_weak : validated_flaky 7 4 ≡ err required_not_supermajority
unfolding validated_flaky
flaky_weak = refl

flaky_starves : final_decision (aggregate (flaky 5 4) mixed) ≡ AggregateDecision.inconclusive
unfolding aggregate consume record_verdict terminal_decision finish final_decision
flaky_starves = refl

strict_stops : (aggregate strict (preserved ∷ rejected ∷ preserved ∷ [])).observed ≡ 2
unfolding aggregate consume record_verdict terminal_decision finish
strict_stops = refl

validated_flaky_iff_example :
    (validated_flaky 11 9 ≡ ok default_flaky)
    ↔ ((default_flaky ≡ flaky 11 9) × IsValid (flaky 11 9))
validated_flaky_iff_example = validated_flaky_iff 11 9 default_flaky

aggregate-preserved_iff_example :
    (final_decision (aggregate (flaky 5 4) mixed) ≡ AggregateDecision.preserved)
    ↔ (4 ≤ count preserved (take 5 mixed))
aggregate-preserved_iff_example = aggregate-preserved_iff (flaky 5 4) mixed (omega arith)

aggregate-rejected_iff_example :
    (final_decision (aggregate strict mixed) ≡ AggregateDecision.rejected)
    ↔ ((k : ℕ) × Refutes strict mixed k)
aggregate-rejected_iff_example = aggregate-rejected_iff strict mixed tt

aggregate-reads_prefix_example :
    (used : ℕ) × (used ≤ 5)
    × (length (take used mixed) ≡ used)
    × ((aggregate (flaky 5 4) mixed).observed ≡ used)
    × ((aggregate (flaky 5 4) mixed).preserved ≡ count preserved (take used mixed))
    × ((aggregate (flaky 5 4) mixed).rejected ≡ count rejected (take used mixed))
    × ((aggregate (flaky 5 4) mixed).inconclusive ≡ count inconclusive (take used mixed))
    × ((j : ℕ)
        → j < used
        → (count preserved (take j mixed) < 4) × (4 ≤ count preserved (take j mixed) + (5 - j)))
    × ((take used mixed ≡ mixed)
        ⊎ ((4 ≤ count preserved (take used mixed))
            ⊎ (count preserved (take used mixed) + (5 - used) < 4)))
aggregate-reads_prefix_example = aggregate-reads_prefix (flaky 5 4) mixed (omega arith)
