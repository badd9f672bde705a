-- ===== src/Reducer/Fill.antt =====
-- The candidates of the directory groups and of a whole frontier.
use reprocut.Prelude.{ℕ, ◌<◌, ◌≡◌, refl, inl, inr, arith, Bool-cases}
use reprocut.Prelude.{true, if◌then◌else◌, List, [], ◌∷◌, length, map}
use mathlib.Core.List.{Sublistᴰ}
use native.Mathlib.Decide.{dec_lt}
use reprocut.Prelude.Faults.{Outcome, ok}
use reprocut.Reducer.{ReductionUnit, FrontierPartition, Candidate, keeps_position, contains}
use reprocut.Reducer.{is_ascending, fill_kept_ids, fill_without_ids, fill_plans}
use reprocut.Reducer.{complement}
use reprocut.Reducer.Frontier.{IsCut}
use reprocut.Reducer.Candidates.{select, Reads, select-length-lt, fill_partition_lem}

-- A candidate read from the project, whose units are some of `us` in their order.
pub record Fits (units us : List ReductionUnit) (c : Candidate) : Type 0 where
  pub reads : Reads units c.indices c.units
  pub sublist : Sublistᴰ c.units us

-- The units whose identifiers are not removed.
abbrev pub without : List ℕ → List ReductionUnit → List ReductionUnit
without ids [] = []
without ids (u ∷ us) = if contains ids u.id then without ids us else u ∷ without ids us

without-sublist : (ids : List ℕ) (us : List ReductionUnit) → Sublistᴰ (without ids us) us
without-sublist ids [] = Sublistᴰ.slnil
without-sublist ids (u ∷ us) = elim (Bool-cases (contains ids u.id)) [
  | inl e ↦ rw e (Sublistᴰ.cons (without-sublist ids us))
  | inr e ↦ rw e (Sublistᴰ.cons-cons refl (without-sublist ids us))
]

-- The candidate of a directory group: the active units whose identifiers it does not hold.
pub record Group (units us : List ReductionUnit) (ids : List ℕ) (r : Outcome Candidate)
    : Type 0 where
  pub candidate : Candidate
  pub returns : r ≡ ok candidate
  pub fits : Fits units us candidate
  pub kept : candidate.units ≡ without ids us

fill_kept_ids-Group :
    (units : List ReductionUnit) (ids is : List ℕ) (us : List ReductionUnit)
    → Reads units is us
    → Group units us ids (fill_kept_ids units ids is)
unfolding fill_kept_ids
fill_kept_ids-Group units ids [] [] r = record {
  candidate = record { indices = []; units = [] };
  returns = refl;
  fits = record { reads = tt; sublist = Sublistᴰ.slnil };
  kept = refl;
}
fill_kept_ids-Group units ids [] (u ∷ us) r = absurd r
fill_kept_ids-Group units ids (i ∷ is) [] r = absurd r
fill_kept_ids-Group units ids (i ∷ is) (u ∷ us) (e, r) =
    let rest = fill_kept_ids-Group units ids is us r in
    elim (Bool-cases (contains ids u.id)) [
      | inl gone ↦ record {
        candidate = rest.candidate;
        returns = rw (rest.returns, e, gone);
        fits = record { reads = rest.fits.reads; sublist = Sublistᴰ.cons rest.fits.sublist };
        kept = rw gone rest.kept;
      }
      | inr stays ↦ record {
        candidate = record {
          indices = i ∷ rest.candidate.indices;
          units = u ∷ rest.candidate.units;
        };
        returns = rw (rest.returns, e, stays);
        fits = record {
          reads = (e, rest.fits.reads);
          sublist = Sublistᴰ.cons-cons refl rest.fits.sublist;
        };
        kept = rw (stays, rest.kept);
      }
    ]

pub fill_without_ids-Group :
    (units : List ReductionUnit) (ids is : List ℕ) (us : List ReductionUnit)
    → is_ascending ids ≡ true
    → Reads units is us
    → Group units us ids (fill_without_ids units is ids)
unfolding fill_without_ids
fill_without_ids-Group units ids is us sorted r = rw sorted (fill_kept_ids-Group units ids is us r)

-- The candidate of a plan.
abbrev pub cut : List ℕ → List ReductionUnit → FrontierPartition → Candidate
cut is us plan = record {
  indices = select (keeps_position plan) 0 is;
  units = select (keeps_position plan) 0 us;
}

pub fill_plans_lem :
    (units : List ReductionUnit) (is : List ℕ) (us : List ReductionUnit)
    (plans : List FrontierPartition)
    → Reads units is us
    → fill_plans units is plans ≡ ok (map (cut is us) plans)
unfolding fill_plans
fill_plans_lem units is us [] r = refl
fill_plans_lem units is us (plan ∷ plans) r =
    rw (fill_partition_lem units plan 0 is us r, fill_plans_lem units is us plans r)

-- A cut leaves out some position.
pub IsCut-shorter :
    (us : List ReductionUnit) (plan : FrontierPartition)
    → IsCut (length us) plan
    → length (select (keeps_position plan) 0 us) < length us
IsCut-shorter us plan cutting = elim cutting.class [
  | inl sub ↦ elim (dec_lt 0 plan.start) [
    | yes later ↦
        select-length-lt (keeps_position plan) 0 0 us (omega arith) (rw sub (ground arith))
    | no first ↦
        select-length-lt (keeps_position plan) 0 plan.end us (omega arith) (rw sub (ground arith))
  ]
  | inr comp ↦
      select-length-lt (keeps_position plan) 0 plan.start us (omega arith) (rw comp (ground arith))
]
  where
    open cutting use {nonempty, within, proper}

pub complement-shorter :
    (us : List ReductionUnit) (plan : FrontierPartition)
    → plan.class ≡ complement
    → plan.start < plan.end
    → plan.start < length us
    → length (select (keeps_position plan) 0 us) < length us
complement-shorter us plan comp nonempty lt =
    select-length-lt (keeps_position plan) 0 plan.start us lt (rw comp (ground arith))
