-- ===== src/Reducer/Result.antt =====
-- The whole search: it returns for every evaluator, and what it keeps was reported as preserved.
use reprocut.Prelude.{ℕ, suc, ◌+◌, ◌*◌, ◌≤◌, ◌<◌, ◌≡◌, refl, sym, ◌∙◌, ap, ◌⊎◌, arith}
use reprocut.Prelude.{true, List, [], ◌∷◌, ◌++◌, length, get_elem?, All, some}
use mathlib.Core.List.{Sublistᴰ, append_assoc}
use mathlib.Core.List.Sublistᴰ as Sub
use mathlib.Core.Path.{subst}
use native.Mathlib.Nat.{mul-le-mul}
use reprocut.Prelude.Faults.{Outcome, ok, ◌>>=◌}
use reprocut.Prelude.Words.{u64_max}
use reprocut.Reducer.{ReductionUnit, ReductionResult, is_ascending}
use reprocut.Reducer.Search.{Evaluator, Search, range, run_groups, ddmin, sweep}
use reprocut.Reducer.Search.{reduce_hierarchical_frontiers}
use reprocut.Reducer.Candidates.{Reads, Reads-units_at}
use reprocut.Reducer.Invariant.{Inv, Sound, Descends, measure}
use reprocut.Reducer.Phases.{run_groups-Ends, ddmin-Ends, sweep-Ends, LastRound, active-le}

get_elem?-middle :
    (pre : List ReductionUnit) (u : ReductionUnit) (post : List ReductionUnit)
    → get_elem? (pre ++ u ∷ post) (length pre) ≡ some u
get_elem?-middle [] u post = refl
get_elem?-middle (p ∷ pre) u post = get_elem?-middle pre u post

length-snoc :
    (pre : List ReductionUnit) (u : ReductionUnit) → length (pre ++ u ∷ []) ≡ suc (length pre)
length-snoc [] u = refl
length-snoc (p ∷ pre) u = ap suc (length-snoc pre u)

-- The initial active list names all units.
Reads-range :
    (pre us : List ReductionUnit) (k : ℕ)
    → k ≡ length pre
    → Reads (pre ++ us) (range k (length us)) us
Reads-range pre [] k e = tt
Reads-range pre (u ∷ us) k e = (
  rw e (get_elem?-middle pre u us),
  subst (λ l. Reads l (range (suc k) (length us)) us) (append_assoc pre (u ∷ []) us)
      (Reads-range (pre ++ u ∷ []) us (suc k) (ap suc e ∙ sym (length-snoc pre u))),
)

-- What a reduction promises: it returns, its units have the property `P` and keep the inventory's
-- order, and the accepted sizes fall strictly from the whole project to the result.
pub record Reduced {κ} (P : List ReductionUnit → Type κ) (units : List ReductionUnit)
    (r : Outcome ReductionResult) : Type κ where
  pub result : ReductionResult
  pub returns : r ≡ ok result
  pub good : P result.kept
  pub sublist : Sublistᴰ result.kept units
  pub sizes : Descends (length units) result.accepted_sizes (length result.kept)

module _ {ℓ κ} {S : Type ℓ} (P : List ReductionUnit → Type κ) (evaluate : Evaluator S)
    (units : List ReductionUnit) (groups : List (List ℕ)) (state : S) (sound : Sound P evaluate)
    (start : P units) (fits : length units ≤ u64_max)
    (sorted : All (λ ids. is_ascending ids ≡ true) groups) where
  abbrev initial : Search S
  initial = record {
    active = range 0 (length units);
    attempts = 0;
    accepted_sizes = [];
    state = state;
  }

  Inv-initial : Inv P units initial
  Inv-initial = record {
    held = units;
    reads = Reads-range [] units 0 refl;
    sublist = Sub.refl units;
    good = start;
    sizes = refl;
  }

  -- The states between the phases.
  pub record Run : Type (ℓ ⊔ κ) where
    pub grouped : Search S
    pub minimal : Search S
    pub swept : Search S
    pub groups_end : run_groups evaluate units groups initial ≡ ok grouped
    pub ddmin_end :
        ddmin evaluate units (length units * length units + length units + 1) 2 grouped ≡ ok minimal
    pub sweep_end : sweep evaluate units (length minimal.active) 0 minimal ≡ ok swept
    pub minimal_inv : Inv P units minimal
    pub last : (length minimal.active < 2) ⊎ LastRound evaluate units minimal
    pub swept_inv : Inv P units swept

  pub run : Run
  run =
      let (grouped, groups_end, inv₁) =
        run_groups-Ends evaluate sound fits groups sorted Inv-initial in
      let small = active-le evaluate sound fits inv₁ in
      let square = mul-le-mul small small in
      let enough : measure (length grouped.active) 2
          < length units * length units + length units + 1 =
        omega arith in
      let (minimal, ddmin_end, inv₂, last) =
        ddmin-Ends evaluate sound fits (length units * length units + length units + 1) 2 inv₁
          (omega arith) enough in
      let (swept, sweep_end, inv₃) =
        sweep-Ends evaluate sound fits (length minimal.active) 0 inv₂ (omega arith) in
      record {
        grouped = grouped;
        minimal = minimal;
        swept = swept;
        groups_end = groups_end;
        ddmin_end = ddmin_end;
        sweep_end = sweep_end;
        minimal_inv = inv₂;
        last = last;
        swept_inv = inv₃;
      }

  pub returned-eq :
      (r : Run)
      → reduce_hierarchical_frontiers evaluate units groups state
        ≡ ok (record {
          kept = r.swept_inv.held;
          attempts = r.swept.attempts;
          accepted_sizes = r.swept.accepted_sizes;
        })
  unfolding reduce_hierarchical_frontiers
  returned-eq r = rw (
    r.groups_end,
    ◌>>=◌,
    r.ddmin_end,
    r.sweep_end,
    Reads-units_at units r.swept.active r.swept_inv.held r.swept_inv.reads,
  )

  -- For every evaluator, with its own state, and every property `P` of the whole project that the
  -- evaluator's preserved candidates have: if the project has a machine size and the identifiers of
  -- each directory group ascend, the search returns without a panic, its units have `P` and stand in
  -- inventory order, and the accepted sizes fall strictly from the project's to the result's.
  pub reduce_hierarchical_frontiers-Reduced :
      Reduced P units (reduce_hierarchical_frontiers evaluate units groups state)
  reduce_hierarchical_frontiers-Reduced = record {
    result = record {
      kept = run.swept_inv.held;
      attempts = run.swept.attempts;
      accepted_sizes = run.swept.accepted_sizes;
    };
    returns = returned-eq run;
    good = run.swept_inv.good;
    sublist = run.swept_inv.sublist;
    sizes = run.swept_inv.sizes;
  }
