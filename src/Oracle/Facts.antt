-- ===== src/Oracle/Facts.antt =====
-- The tests that a failure oracle makes of a run, and the statements that they decide.
use reprocut.Prelude.{
  arith, ◌≡◌, ◌≢◌, refl, sym, ◌∙◌, ap, inl, inr, ◌↔◌, ◌==◌, ==→≡, Bool, true, false, not,
}
use reprocut.Prelude.{◌&&◌, if◌then◌else◌, Bool-cases, List, [], ◌∷◌, All}
use reprocut.Prelude.Members.{Has}
use reprocut.Model.{CandidateVerdict, preserved, rejected, inconclusive}
use reprocut.Observation.{TerminationReason, same_termination}
use reprocut.Observation.{exit_code, unix_signal, timed_out, runner_failure}
use reprocut.Diagnostic.Texts.{Text, same_text}
use reprocut.Diagnostic.Present.{same_text→≡}
use reprocut.Diagnostic.Anchors.{same_text_self}
use reprocut.Oracle.{any}
use reprocut.Oracle.Baselines.{all}
use reprocut.Oracle.Classify.{shows, is_unfinished, zero_verdict}
use reprocut.Oracle.Classify.{preserved_if}

pub same_termination→≡ : (a b : TerminationReason) → same_termination a b ≡ true → a ≡ b
same_termination→≡ (exit_code a) (exit_code b) h = ap exit_code (==→≡ a b h)
same_termination→≡ (unix_signal a) (unix_signal b) h = ap unix_signal (==→≡ a b h)
same_termination→≡ timed_out timed_out h = refl
same_termination→≡ runner_failure runner_failure h = refl
same_termination→≡ _ _ h = absurd (cc)

pub same_termination_self : (a : TerminationReason) → same_termination a a ≡ true
same_termination_self (exit_code a) = ground arith
same_termination_self (unix_signal a) = ground arith
same_termination_self timed_out = refl
same_termination_self runner_failure = refl

module _ {A : Type 0} (test : A → Bool) where
  pub any-false_iff : (xs : List A) → (any test xs ≡ false) ↔ All (λ x. test x ≡ false) xs
  unfolding any
  any-false_iff [] = (λ h. tt, λ h. refl)
  any-false_iff (x ∷ xs) = elim (Bool-cases (test x)) [
    | inl e ↦ rw e ((λ h. absurd (cc)), (λ (h, hs). absurd (cc)))
    | inr e ↦
        let later = any-false_iff xs in rw e ((λ h. (refl, later.0 h)), (λ (h, hs). later.1 hs))
  ]

  pub all-true_iff : (xs : List A) → (all test xs ≡ true) ↔ All (λ x. test x ≡ true) xs
  unfolding all
  all-true_iff [] = (λ h. tt, λ h. refl)
  all-true_iff (x ∷ xs) = elim (Bool-cases (test x)) [
    | inl e ↦
        let later = all-true_iff xs in rw e ((λ h. (refl, later.0 h)), (λ (h, hs). later.1 hs))
    | inr e ↦ rw e ((λ h. absurd (cc)), (λ (h, hs). absurd (cc)))
  ]

pub shows_iff : (texts : List Text) (text : Text) → (shows texts text ≡ true) ↔ Has text texts
unfolding any
shows_iff [] text = (λ h. absurd (cc), λ h. absurd h)
shows_iff (line ∷ rest) text = elim (Bool-cases (same_text line text)) [
  | inl e ↦ rw e ((λ h. inl (sym (same_text→≡ line text e))), (λ h. refl))
  | inr e ↦
      let later = shows_iff rest text in
      rw e (
        (λ h. inr (later.0 h)),
        (λ h. elim h [ inl same ↦ absurd (differs same e) | inr k ↦ later.1 k ]),
      )
]
  where
    differs : text ≡ line → same_text line text ≡ false → ⊥
    differs same e = cc (same_text_self line)

pub preserved_if_iff : (test : Bool) → (preserved_if test ≡ preserved) ↔ (test ≡ true)
preserved_if_iff true = (λ h. refl, λ h. refl)
preserved_if_iff false = (λ h. absurd (cc), λ h. absurd (cc))

pub and_iff : (a b : Bool) → ((a && b) ≡ true) ↔ ((a ≡ true) × (b ≡ true))
and_iff true b = (λ h. (refl, h), λ (_, h). h)
and_iff false b = (λ h. absurd (cc), λ (h, _). absurd (cc))

-- The run ended by itself.
abbrev pub IsFinished : TerminationReason → Type 0
IsFinished termination = (termination ≢ timed_out) × (termination ≢ runner_failure)

pub is_unfinished_iff :
    (termination : TerminationReason) → (is_unfinished termination ≡ false) ↔ IsFinished termination
is_unfinished_iff (exit_code code) = (λ h. (λ e. cc, λ e. cc), λ h. refl)
is_unfinished_iff (unix_signal value) = (λ h. (λ e. cc, λ e. cc), λ h. refl)
is_unfinished_iff timed_out = (λ h. absurd (cc), λ (h, _). absurd (h refl))
is_unfinished_iff runner_failure = (λ h. absurd (cc), λ (_, h). absurd (h refl))

pub zero_verdict_iff :
    (termination : TerminationReason)
    → (zero_verdict termination ≡ preserved) ↔ (termination ≡ exit_code 0)
zero_verdict_iff (exit_code code) = (into, back)
  where
    into : zero_verdict (exit_code code) ≡ preserved → exit_code code ≡ exit_code 0
    into h = ap exit_code (==→≡ code 0 ((preserved_if_iff (code == 0)).0 h))

    back : exit_code code ≡ exit_code 0 → zero_verdict (exit_code code) ≡ preserved
    back e = ap zero_verdict e
zero_verdict_iff (unix_signal value) = (λ h. absurd (cc), λ h. absurd (cc))
zero_verdict_iff timed_out = (λ h. absurd (cc), λ h. absurd (cc))
zero_verdict_iff runner_failure = (λ h. absurd (cc), λ h. absurd (cc))

pub exit_not_timed_out : exit_code 0 ≡ timed_out → ⊥
exit_not_timed_out e = cc

pub exit_not_failure : exit_code 0 ≡ runner_failure → ⊥
exit_not_failure e = cc

pub same_termination_iff : (a b : TerminationReason) → (same_termination a b ≡ true) ↔ (a ≡ b)
same_termination_iff a b =
    (same_termination→≡ a b, λ e. sym (ap (same_termination a) e) ∙ same_termination_self a)

-- The chains of tests of the two functions.
pub tests_iff :
    (cut same vetoed : Bool) (verdict : CandidateVerdict)
    → ((if cut
          then inconclusive
          else if not same
          then rejected
          else if vetoed
          then rejected
          else verdict)
        ≡ preserved)
      ↔ ((cut ≡ false) × (same ≡ true) × (vetoed ≡ false) × (verdict ≡ preserved))
tests_iff true same vetoed verdict = (λ h. absurd (cc), λ (h, _, _, _). absurd (cc))
tests_iff false false vetoed verdict = (λ h. absurd (cc), λ (_, h, _, _). absurd (cc))
tests_iff false true true verdict = (λ h. absurd (cc), λ (_, _, h, _). absurd (cc))
tests_iff false true false verdict = (λ h. (refl, refl, refl, h), λ (_, _, _, h). h)

pub finished_iff :
    (unfinished : Bool) (verdict : CandidateVerdict)
    → ((if unfinished then inconclusive else verdict) ≡ preserved)
      ↔ ((unfinished ≡ false) × (verdict ≡ preserved))
finished_iff true verdict = (λ h. absurd (cc), λ (h, _). absurd (cc))
finished_iff false verdict = (λ h. (refl, h), λ (_, h). h)
