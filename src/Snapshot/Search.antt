-- ===== src/Snapshot/Search.antt =====
-- The binary search of `ProjectSnapshot::file_index`, against a scan from the front.
use Prim.Native.Nat.{compare, Ordering}
use mathlib.Core.Option.{some-injective}
use native.Mathlib.Decide.{dec_le}
use reprocut.Prelude.{
  ℕ, zero, suc, ◌+◌, ◌-◌, ◌/◌, ◌≤◌, ◌<◌, ◌≡◌, ◌≢◌, refl, sym, ◌∙◌, inl, inr, arith, true,
}
use reprocut.Prelude.{Bool-cases, Option-cases, Option, some, none, List, [], ◌∷◌, length, All}
use reprocut.Prelude.{get_elem?, if◌then◌else◌, ltb}
use reprocut.Prelude.{get_elem?-bound, get_elem?-of_lt}
use reprocut.Prelude.Orders.{IsOrder, Ordering-cases, compare_list, compare-IsOrder, list-IsOrder}
use reprocut.Prelude.Sorting.{IsAscending}
use reprocut.Transformation.{Bytes, same_path}
use reprocut.Transformation.Pairs.{same_path→≡, same_path_self}
use reprocut.Snapshot.{SnapshotFile, path_order, compare_at, narrow, file_index}

pub paths-IsOrder : IsOrder (compare_list compare)
paths-IsOrder = list-IsOrder compare-IsOrder

module _ {D : Type 0} where
  -- The paths ascend, as they do in every snapshot that is captured or selected.
  abbrev pub AreOrdered : List (SnapshotFile D) → Type 0
  AreOrdered files = IsAscending path_order files

  -- The index of the first file with the path.
  unfoldable pub scan_index : List (SnapshotFile D) → Bytes → Option ℕ
  scan_index [] path = none
  scan_index (file ∷ rest) path =
      let later = scan_index rest path in
      if same_path file.path path
      then some 0
      else elim later [ none ↦ none | some index ↦ some (suc index) ]

  scan_index-found :
      (files : List (SnapshotFile D)) (path : Bytes) (index : ℕ)
      → scan_index files path ≡ some index
      → (file : SnapshotFile D) × (get_elem? files index ≡ some file) × (file.path ≡ path)
  unfolding scan_index
  scan_index-found [] path index h = absurd (cc)
  scan_index-found (file ∷ rest) path index h = elim (Bool-cases (same_path file.path path)) [
    | inl same ↦
        let e = some-injective 0 index (rw same at h) in
        (file, rw (← e) refl, same_path→≡ file.path path same)
    | inr other ↦ elim (Option-cases (scan_index rest path)) [
      | inl nothing ↦ absurd (apart (rw (other, nothing) at h))
      | inr (later, e) ↦
          let (found, at, same) = scan_index-found rest path later e in
          let k = some-injective (suc later) index (rw (other, e) at h) in
          (found, rw (← k) at, same)
    ]
  ]
    where
      apart : none ≡ some index → ⊥
      apart e = cc

  -- A scan that finds nothing has passed no file with the path.
  scan_index-none :
      (files : List (SnapshotFile D)) (index : ℕ) (file : SnapshotFile D)
      → get_elem? files index ≡ some file
      → scan_index files file.path ≢ none
  unfolding scan_index
  scan_index-none [] index file at h = absurd (cc)
  scan_index-none (first ∷ rest) zero file at h =
      let own = some-injective first file at in
      let same : same_path first.path file.path ≡ true = rw own (same_path_self (file.path)) in
      absurd (apart (rw same at h))
    where
      apart : {k : ℕ} → some k ≡ none → ⊥
      apart e = cc
  scan_index-none (first ∷ rest) (suc index) file at h =
      elim (Bool-cases (same_path first.path file.path)) [
        | inl same ↦ absurd (apart (rw same at h))
        | inr other ↦ elim (Option-cases (scan_index rest file.path)) [
          | inl nothing ↦ scan_index-none rest index file at nothing
          | inr (later, found) ↦ absurd (apart (rw (other, found) at h))
        ]
      ]
    where
      apart : {k : ℕ} → some k ≡ none → ⊥
      apart e = cc

  compare_at-some :
      (files : List (SnapshotFile D)) (path : Bytes) (index : ℕ) (file : SnapshotFile D)
      → get_elem? files index ≡ some file
      → compare_at files path index ≡ compare_list compare file.path path
  compare_at-some files path index file at = rw (compare_at, at) refl

  compare_at-none :
      (files : List (SnapshotFile D)) (path : Bytes) (index : ℕ)
      → get_elem? files index ≡ none
      → compare_at files path index ≡ Ordering.gt
  compare_at-none files path index nothing = rw (compare_at, nothing) refl

  pub All-at :
      (P : SnapshotFile D → Type 0) (files : List (SnapshotFile D)) (i : ℕ) (file : SnapshotFile D)
      → All P files
      → get_elem? files i ≡ some file
      → P file
  All-at P [] i file h at = absurd (cc)
  All-at P (first ∷ rest) zero file (h, hs) at = rw (← some-injective first file at) h
  All-at P (first ∷ rest) (suc i) file (h, hs) at = All-at P rest i file hs at

  -- An earlier file is below a later one.
  ordered_at :
      (files : List (SnapshotFile D)) (i j : ℕ) (a b : SnapshotFile D)
      → AreOrdered files
      → i < j
      → get_elem? files i ≡ some a
      → get_elem? files j ≡ some b
      → path_order a b ≡ Ordering.lt
  ordered_at [] i j a b h less p q = absurd (cc)
  ordered_at (first ∷ rest) i zero a b h less p q = absurd (omega arith)
  ordered_at (first ∷ rest) zero (suc j) a b (h, hs) less p q =
      rw (← some-injective first a p) (All-at (λ c. path_order first c ≡ Ordering.lt) rest j b h q)
  ordered_at (first ∷ rest) (suc i) (suc j) a b (h, hs) less p q =
      ordered_at rest i j a b hs (omega arith) p q

  module _ (files : List (SnapshotFile D)) (k : ℕ) (file : SnapshotFile D)
      (ordered : AreOrdered files) (at : get_elem? files k ≡ some file) where
    -- The probe at `mid` tells on which side of it the file is.
    above_probe : (mid : ℕ) → compare_at files file.path mid ≡ Ordering.gt → k < mid
    above_probe mid h = elim (dec_le mid k) [
      | no below ↦ omega arith
      | yes le ↦
          let (probe, here) =
            get_elem?-of_lt files mid (omega (arith, get_elem?-bound files k at)) in
          let probed = sym (compare_at-some files file.path mid probe here) ∙ h in
          elim (dec_le k mid) [
            | yes le' ↦
                let same : mid ≡ k = omega arith in
                let own = some-injective probe file (sym here ∙ rw same at) in
                absurd (apart_eq (sym (paths-IsOrder.self file.path) ∙ rw own at probed))
            | no over ↦
                let less = ordered_at files mid k probe file ordered (omega arith) here at in
                absurd (apart_lt (sym less ∙ probed))
          ]
    ]
      where
        apart_eq : Ordering.eq ≡ Ordering.gt → ⊥
        apart_eq e = cc

        apart_lt : Ordering.lt ≡ Ordering.gt → ⊥
        apart_lt e = cc

    below_probe : (mid : ℕ) → compare_at files file.path mid ≢ Ordering.gt → mid ≤ k
    below_probe mid h = elim (dec_le mid k) [
      | yes le ↦ le
      | no over ↦ elim (Option-cases (get_elem? files mid)) [
        | inl nothing ↦ absurd (h (compare_at-none files file.path mid nothing))
        | inr (probe, here) ↦
            let less = ordered_at files k mid file probe ordered (omega arith) at here in
            absurd (
              h (
                compare_at-some files file.path mid probe here
                ∙ paths-IsOrder.above file.path probe.path less))
      ]
    ]

    -- The search closes in on the file that it looks for.
    narrow-finds :
        (fuel base size : ℕ)
        → base ≤ k
        → k < base + size
        → size ≤ suc fuel
        → narrow fuel files file.path base size ≡ k
    unfolding narrow
    narrow-finds zero base size le less small = omega arith
    narrow-finds (suc fuel) base size le less small = elim (Bool-cases (ltb 1 size)) [
      | inr one ↦ rw one (ground arith)
      | inl more ↦
          let large : 1 < size = ground arith in
          elim (Ordering-cases (compare_at files file.path (base + size / 2))) [
            | inl lower ↦
                let side = below_probe (base + size / 2) (λ e. apart_lt (sym lower ∙ e)) in
                rw (more, lower)
                  (narrow-finds fuel (base + size / 2) (size - size / 2) side (omega arith)
                    (omega arith))
            | inr (inl same) ↦
                let side = below_probe (base + size / 2) (λ e. apart_eq (sym same ∙ e)) in
                rw (more, same)
                  (narrow-finds fuel (base + size / 2) (size - size / 2) side (omega arith)
                    (omega arith))
            | inr (inr higher) ↦
                let side = above_probe (base + size / 2) higher in
                rw (more, higher)
                  (narrow-finds fuel base (size - size / 2) le (omega arith) (omega arith))
          ]
    ]
      where
        apart_eq : Ordering.eq ≡ Ordering.gt → ⊥
        apart_eq e = cc

        apart_lt : Ordering.lt ≡ Ordering.gt → ⊥
        apart_lt e = cc

    file_index-finds : file_index files file.path ≡ some k
    unfolding file_index
    file_index-finds =
        let found =
          narrow-finds (length files) 0 (length files) (omega arith)
            (omega (arith, get_elem?-bound files k at)) (omega arith) in
        let here = compare_at-some files file.path k file at ∙ paths-IsOrder.self file.path in
        rw (found, here) refl

  -- The index is that of a file with the path, in whatever order the files are.
  pub file_index-found :
      (files : List (SnapshotFile D)) (path : Bytes) (index : ℕ)
      → file_index files path ≡ some index
      → (file : SnapshotFile D) × (get_elem? files index ≡ some file) × (file.path ≡ path)
  unfolding file_index
  file_index-found files path index h = elim (Ordering-cases (compare_at files path base)) [
    | inl less ↦ absurd (apart (rw less at h))
    | inr (inr more) ↦ absurd (apart (rw more at h))
    | inr (inl same) ↦
        let e = some-injective base index (rw same at h) in
        elim (Option-cases (get_elem? files base)) [
          | inl nothing ↦ absurd (apart_gt (sym (compare_at-none files path base nothing) ∙ same))
          | inr (file, here) ↦ (
            file,
            rw (← e) here,
            paths-IsOrder.same file.path path
                (sym (compare_at-some files path base file here) ∙ same),
          )
        ]
  ]
    where
      base : ℕ
      base = narrow (length files) files path 0 (length files)

      apart : none ≡ some index → ⊥
      apart q = cc

      apart_gt : Ordering.gt ≡ Ordering.eq → ⊥
      apart_gt q = cc

  -- On files in ascending order of their paths, the binary search gives what a scan from the front
  -- gives: the index of the file with the path, or nothing if there is none.
  pub file_index-scan_index :
      (files : List (SnapshotFile D)) (path : Bytes)
      → AreOrdered files
      → file_index files path ≡ scan_index files path
  file_index-scan_index files path ordered = elim (Option-cases (scan_index files path)) [
    | inr (k, scanned) ↦
        let (file, at, own) = scan_index-found files path k scanned in
        rw scanned (rw own at (file_index-finds files k file ordered at))
    | inl missing ↦ elim (Option-cases (file_index files path)) [
      | inl nothing ↦ nothing ∙ sym missing
      | inr (k, found) ↦
          let (file, at, own) = file_index-found files path k found in
          absurd (scan_index-none files k file at (rw own missing))
    ]
  ]
