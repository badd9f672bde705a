-- ===== src/Reducer/Frontier.antt =====
-- `ordered_frontier` cuts the active universe into contiguous parts, twice.
use reprocut.Prelude.{
  ℕ, zero, suc, ◌+◌, ◌*◌, ◌/◌, ◌%◌, ◌≤◌, ◌<◌, min, max, ◌≡◌, refl, ◌⊎◌, inl, inr, arith,
}
use mathlib.Core.Path.{subst}
use native.Mathlib.Decide.{dec_lt}
use native.Mathlib.Nat.{mul-le-mul_right, div-add-mod, zero-add, suc-add}
use reprocut.Prelude.{List, [], ◌∷◌, ◌++◌, Bool-cases, ltb, ltb→lt, not-ltb→le, ==→≡, ◌==◌}
use reprocut.Prelude.{length, get_elem?, some, All, All-append, ap, ◌∙◌}
use reprocut.Prelude.Words.{u64_max, div_ceil, saturating_add}
use reprocut.Reducer.{
  FrontierClass, FrontierPartition, subset, complement, chunks, ordered_frontier,
}

-- The chunk size of `ordered_frontier`.
abbrev pub chunk_of : ℕ → ℕ → ℕ
chunk_of active_len granularity = div_ceil active_len (min (max granularity 1) active_len)

div_ceil-pos : (a b : ℕ) → 0 < a → 0 < b → 0 < div_ceil a b
div_ceil-pos a b ha hb = ground arith

div_ceil-lt : (a b : ℕ) → 2 ≤ a → 2 ≤ b → div_ceil a b < a
div_ceil-lt a b ha hb =
    let twice : 2 * (a / b) ≤ b * (a / b) = mul-le-mul_right (a / b) hb in
    let split = div-add-mod a b in
    elim (Bool-cases (ltb 0 (a % b))) [
      | inl more ↦ rw more (omega (arith, ltb→lt 0 (a % b) more))
      | inr exact ↦ rw exact (omega (arith, not-ltb→le 0 (a % b) exact))
    ]

div_ceil_self : (a : ℕ) → 0 < a → div_ceil a a ≡ 1
div_ceil_self a h = grind arith

-- `ps` are parts of one class that follow one another from `start` to `end`, none of them empty
-- and none longer than `size`.
abbrev pub Tiles : FrontierClass → ℕ → ℕ → ℕ → List FrontierPartition → Type 0
Tiles class size start end [] = start ≡ end
Tiles class size start end (p ∷ ps) =
    (p.class ≡ class)
    × (p.start ≡ start)
    × (start < p.end)
    × (p.end ≤ start + size)
    × Tiles class size p.end end ps

chunks-Tiles :
    (fuel : ℕ) (class : FrontierClass) (size start len : ℕ)
    → 0 < size
    → len ≤ u64_max
    → start ≤ len
    → len ≤ start + fuel
    → Tiles class size start len (chunks fuel class size start len)
unfolding chunks
chunks-Tiles zero class size start len pos fits h enough = omega arith
chunks-Tiles (suc fuel) class size start len pos fits h enough = elim (Bool-cases (ltb start len)) [
  | inl more ↦
      let lt = ltb→lt start len more in
      rw more (
        refl,
        refl,
        omega arith,
        omega arith,
        chunks-Tiles fuel class size (min (saturating_add start size) len) len pos fits
            (omega arith) (omega arith),
      )
  | inr stop ↦ rw stop (omega (arith, not-ltb→le start len stop))
]

chunk_of-pos : (len granularity : ℕ) → 0 < len → 0 < chunk_of len granularity
chunk_of-pos len granularity h = div_ceil-pos len (min (max granularity 1) len) h (omega arith)

-- For an active universe of machine size that is not empty, `ordered_frontier` lists subset plans and
-- then complement plans; each kind cuts the positions into contiguous, non-empty parts of at most
-- the chunk size, from the first position to the last.
pub ordered_frontier-Tiles :
    (len granularity : ℕ)
    → 0 < len
    → len ≤ u64_max
    → (subsets : List FrontierPartition) × (complements : List FrontierPartition)
      × (ordered_frontier len granularity ≡ subsets ++ complements)
      × Tiles subset (chunk_of len granularity) 0 len subsets
      × Tiles complement (chunk_of len granularity) 0 len complements
unfolding ordered_frontier
ordered_frontier-Tiles len granularity pos fits = elim (Bool-cases (len == 0)) [
  | inl empty ↦ absurd (omega (arith, ==→≡ len 0 empty))
  | inr some_left ↦ (
    chunks len subset (chunk_of len granularity) 0 len,
    chunks len complement (chunk_of len granularity) 0 len,
    rw some_left,
    tiles subset,
    tiles complement,
  )
]
  where
    tiles :
        (class : FrontierClass)
        → Tiles class
            (chunk_of len granularity)
            0
            len
            (chunks len class (chunk_of len granularity) 0 len)
    tiles class =
        chunks-Tiles len class (chunk_of len granularity) 0 len (chunk_of-pos len granularity pos)
          fits (omega arith) (omega arith)

-- A plan of either class whose part is neither empty nor everything.
pub record IsCut (len : ℕ) (p : FrontierPartition) : Type 0 where
  pub class : (p.class ≡ subset) ⊎ (p.class ≡ complement)
  pub nonempty : p.start < p.end
  pub within : p.end ≤ len
  pub proper : p.end < p.start + len

Tiles-IsCut :
    (class : FrontierClass) (size start len : ℕ) (ps : List FrontierPartition)
    → (class ≡ subset) ⊎ (class ≡ complement)
    → size < len
    → Tiles class size start len ps
    → All (IsCut len) ps × (start ≤ len)
Tiles-IsCut class size start len [] k small t = (tt, omega arith)
Tiles-IsCut class size start len (p ∷ ps) k small (same, begin, more, short, t) =
    let (rest, bound) = Tiles-IsCut class size p.end len ps k small t in
    (
      (
        record { class = rw same k; nonempty = omega arith; within = bound; proper = omega arith },
        rest,
      ),
      omega arith,
    )

-- With at least two positions and parts, every plan is a proper cut.
pub ordered_frontier-IsCut :
    (len granularity : ℕ)
    → 2 ≤ len
    → 2 ≤ granularity
    → len ≤ u64_max
    → All (IsCut len) (ordered_frontier len granularity)
ordered_frontier-IsCut len granularity many fine fits =
    let (ss, cs, e, ts, tc) = ordered_frontier-Tiles len granularity (omega arith) fits in
    let small = div_ceil-lt len (min (max granularity 1) len) many (omega arith) in
    rw e (
      All-append (IsCut len) ss cs
        (Tiles-IsCut subset (chunk_of len granularity) 0 len ss (inl refl) small ts).0
        (Tiles-IsCut complement (chunk_of len granularity) 0 len cs (inr refl) small tc).0)

abbrev pub single : ℕ → FrontierPartition
single position = record { class = complement; start = position; end = position + 1 }

Tiles-single :
    (start len position : ℕ) (ps : List FrontierPartition)
    → Tiles complement 1 start len ps
    → start ≤ position
    → position < len
    → (i : ℕ) × (get_elem? ps i ≡ some (single position))
Tiles-single start len position [] t low high = absurd (omega arith)
Tiles-single start len position (p ∷ ps) (same, begin, more, short, t) low high =
    elim (dec_lt start position) [
      | yes later ↦
          let (i, e) = Tiles-single p.end len position ps t (omega arith) high in (suc i, e)
      | no now ↦ (zero, ground arith)
    ]

get_elem?-append :
    (xs ys : List FrontierPartition) (i : ℕ) → get_elem? (xs ++ ys) (length xs + i) ≡ get_elem? ys i
get_elem?-append [] ys i = rw zero-add
get_elem?-append (x ∷ xs) ys i = rw (suc-add, get_elem?-append xs ys i)

-- At the finest granularity the plans hold, for each position, the complement of that position.
pub ordered_frontier-single :
    (len granularity position : ℕ)
    → len ≤ granularity
    → len ≤ u64_max
    → position < len
    → (i : ℕ) × (get_elem? (ordered_frontier len granularity) i ≡ some (single position))
ordered_frontier-single len granularity position fine fits lt =
    let (ss, cs, e, ts, tc) = ordered_frontier-Tiles len granularity (omega arith) fits in
    let parts : min (max granularity 1) len ≡ len = omega arith in
    let one : chunk_of len granularity ≡ 1 =
      ap (div_ceil len) parts ∙ div_ceil_self len (omega arith) in
    let (i, found) =
      Tiles-single 0 len position cs (subst (λ s. Tiles complement s 0 len cs) one tc) (omega arith)
        lt in
    (length ss + i, ap (λ ps. get_elem? ps (length ss + i)) e ∙ get_elem?-append ss cs i ∙ found)
