-- ===== src/RecordFile/Sorting.antt =====
-- `sortSys` and `sortLib` of Operating-systems/lab2/zad1/main.c carry out stable insertion in place.
use agh_ust_projects.Prelude.{
  ℕ, zero, suc, ◌+◌, ◌-◌, ◌≤◌, ◌<◌, ◌≡◌, refl, ap, ◌∙◌, true, false, List, [], ◌∷◌, some, arith,
  Bool-cases, inl, inr, length, get_elem?, set, take, drop,
}
use mathlib.Core.List.{Perm, reverse, reverse-cons, append-nil}
use mathlib.Core.List.Perm
use agh_ust_projects.RecordFile.{
  Record, before, Outcome, done, failed, read_record, write_record, shift, insert_record, sort_from,
  sort_sys, sort_lib,
}
use agh_ust_projects.RecordFile.Insertion.{
  insert, insert_all, Falls, of_rank, insert_all-Falls, insert_all-perm, insert_all-of_rank,
}

-- The file that starts with a sorted part, given backwards.
abbrev pub onto : List Record → List Record → List Record
onto [] file = file
onto (r ∷ rs) file = onto rs (r ∷ file)

set-onto :
    (rs file : List Record) (m i : ℕ) (v : Record)
    → i ≡ length rs + m
    → set (onto rs file) i v ≡ onto rs (set file m v)
set-onto [] file m i v e = let e' : i ≡ m = omega arith in rw e'
set-onto (r ∷ rs) file m i v e = set-onto rs (r ∷ file) (suc m) i v (omega arith)

get_elem?-onto :
    (rs file : List Record) (m i : ℕ)
    → i ≡ length rs + m
    → get_elem? (onto rs file) i ≡ get_elem? file m
get_elem?-onto [] file m i e = let e' : i ≡ m = omega arith in rw e'
get_elem?-onto (r ∷ rs) file m i e = get_elem?-onto rs (r ∷ file) (suc m) i (omega arith)

-- One step of the inner loop that moves a record up.
shift-true :
    (j : ℕ) (record_i record_j s : Record) (file file' : List Record)
    → before record_i record_j ≡ true
    → set file (suc (suc j)) record_j ≡ file'
    → get_elem? file' j ≡ some s
    → shift (suc (suc j)) record_i record_j file ≡ shift (suc j) record_i s file'
unfolding shift read_record write_record
shift-true j record_i record_j s file file' b e g = ground arith

shift-false :
    (j : ℕ) (record_i record_j : Record) (file : List Record)
    → before record_i record_j ≡ false
    → shift (suc (suc j)) record_i record_j file ≡ done (suc (suc j)) file
unfolding shift
shift-false j record_i record_j file b = ground arith

-- The loop ends with a hole where the record belongs.
Shifted : Record → List Record → List Record → Outcome ℕ → Type 0
Shifted record_i sorted rest r =
    (k : ℕ) × (file : List Record) × (r ≡ done k file)
    × (set file k record_i ≡ onto (insert record_i sorted) rest)

shift-Shifted :
    (sorted : List Record) (record_i record_j x : Record) (rest : List Record)
    → Shifted record_i
        (record_j ∷ sorted)
        rest
        (shift (suc (length sorted)) record_i record_j (onto (record_j ∷ sorted) (x ∷ rest)))
unfolding Shifted insert shift
shift-Shifted [] record_i record_j x rest = elim (Bool-cases (before record_i record_j)) [
  | inl e ↦ (0, record_j ∷ record_j ∷ rest, rw e, rw e)
  | inr e ↦ (1, record_j ∷ x ∷ rest, rw e, rw e)
]
shift-Shifted (s ∷ sorted) record_i record_j x rest = elim (Bool-cases (before record_i record_j)) [
  | inl e ↦
      let (k, file, p, q) = shift-Shifted sorted record_i s record_j (record_j ∷ rest) in
      (
        k,
        file,
        shift-true (length sorted) record_i record_j s _ _ e
              (set-onto (s ∷ sorted) (record_j ∷ x ∷ rest) 1 (suc (suc (length sorted))) record_j
                (omega arith))
              (get_elem?-onto sorted (s ∷ record_j ∷ record_j ∷ rest) 0 (length sorted)
                (omega arith))
            ∙ p,
        rw e q,
      )
  | inr e ↦ (
    suc (suc (length sorted)),
    onto (record_j ∷ s ∷ sorted) (x ∷ rest),
    shift-false (length sorted) record_i record_j _ e,
    rw e (
        set-onto (s ∷ sorted) (record_j ∷ x ∷ rest) 1 (suc (suc (length sorted))) record_i
          (omega arith)),
  )
]

-- One round puts the next record among the sorted ones.
insert_record_lem :
    (record_j x : Record) (sorted rest : List Record)
    → insert_record (suc (length sorted)) (onto (record_j ∷ sorted) (x ∷ rest))
      ≡ done tt (onto (insert x (record_j ∷ sorted)) rest)
unfolding insert_record Shifted read_record write_record
insert_record_lem record_j x sorted rest =
    let file : List Record = onto (record_j ∷ sorted) (x ∷ rest) in
    let (k, file', p, q) = shift-Shifted sorted x record_j x rest in
    ground (
      arith,
      p,
      q,
      get_elem?-onto sorted (record_j ∷ x ∷ rest) 1 (suc (length sorted)) (omega arith),
      get_elem?-onto sorted (record_j ∷ x ∷ rest) 0 (suc (length sorted) - 1) (omega arith),
    )

length-insert : (r : Record) (ss : List Record) → length (insert r ss) ≡ suc (length ss)
unfolding insert
length-insert r [] = refl
length-insert r (s ∷ ss) = ground (arith, length-insert r ss)

abbrev sort_next : ℕ → ℕ → Outcome (Unit {0}) → Outcome (Unit {0})
sort_next n i r = elim r [ done _ file ↦ sort_from n i file | failed file ↦ failed file ]

-- The rounds that are left treat the records that follow the sorted part.
sort_from_lem :
    (n i : ℕ) (sorted rest : List Record)
    → i ≡ length sorted
    → 0 < i
    → n ≤ length rest
    → sort_from n i (onto sorted rest)
      ≡ done tt (onto (insert_all sorted (take n rest)) (drop n rest))
unfolding sort_from insert_all
sort_from_lem zero i sorted rest e p h = refl
sort_from_lem (suc n) i sorted [] e p h = elim h [ ]
sort_from_lem (suc n) i [] (x ∷ rest) e p h = absurd (omega arith)
sort_from_lem (suc n) i (s ∷ sorted) (x ∷ rest) e p h =
    let first : insert_record i (onto (s ∷ sorted) (x ∷ rest))
        ≡ done tt (onto (insert x (s ∷ sorted)) rest) =
      rw e (insert_record_lem s x sorted rest) in
    ap (λ r. sort_next n (i + 1) r) first
    ∙ sort_from_lem n (i + 1) (insert x (s ∷ sorted)) rest
        (omega (arith, length-insert x (s ∷ sorted))) (omega arith) (omega arith)

-- What is promised of a sort of the first `n` records: it ends without error with the sorted part in
-- front and the other records behind it as they were. The sorted part, read from its end, falls in
-- rank, is made of the same records, and those of one rank have kept their order.
abbrev pub Sorts : ℕ → List Record → Outcome (Unit {0}) → Type 0
Sorts n file r =
    (sorted : List Record) × (r ≡ done tt (onto sorted (drop n file)))
    × Falls sorted
    × Perm sorted (take n file)
    × ((k : ℕ) → of_rank k sorted ≡ reverse (of_rank k (take n file)))

sort_from-Sorts :
    (n : ℕ) (x : Record) (file : List Record)
    → n ≤ length file
    → Sorts (suc n) (x ∷ file) (sort_from n 1 (x ∷ file))
unfolding of_rank
sort_from-Sorts n x file h = (
  insert_all (x ∷ []) (take n file),
  sort_from_lem n 1 (x ∷ []) file refl (omega arith) h,
  insert_all-Falls (take n file) (x ∷ []) tt,
  insert_all-perm (take n file) (x ∷ []),
  λ k.
      insert_all-of_rank k (take n file) (x ∷ [])
      ∙ ground (
        arith,
        reverse-cons x (of_rank k (take n file)),
        append-nil (reverse (of_rank k (take n file))),
      ),
)

sort_sys-Sorts : (n : ℕ) (file : List Record) → n ≤ length file → Sorts n file (sort_sys n file)
unfolding sort_sys sort_from of_rank
sort_sys-Sorts zero file h = ([], refl, tt, Perm.refl [], λ k. refl)
sort_sys-Sorts (suc n) [] h = elim h [ ]
sort_sys-Sorts (suc n) (x ∷ file) h =
    let e : suc n - 1 ≡ n = omega arith in rw e (sort_from-Sorts n x file (omega arith))

-- `sortSys` and `sortLib` sort the first `n` records of a file that has at least as many, stably and
-- in place.
pub sort-Sorts :
    (n : ℕ) (file : List Record)
    → n ≤ length file
    → Sorts n file (sort_sys n file) × Sorts n file (sort_lib n file)
unfolding sort_lib sort_sys
sort-Sorts n file h = (sort_sys-Sorts n file h, sort_sys-Sorts n file h)

insert_record_end :
    (record_j : Record) (sorted : List Record)
    → insert_record (suc (length sorted)) (onto (record_j ∷ sorted) [])
      ≡ failed (onto (record_j ∷ sorted) [])
unfolding insert_record read_record
insert_record_end record_j sorted =
    ground (arith, get_elem?-onto sorted (record_j ∷ []) 1 (suc (length sorted)) (omega arith))

sort_from_short :
    (n i : ℕ) (sorted rest : List Record)
    → i ≡ length sorted
    → 0 < i
    → length rest < n
    → sort_from n i (onto sorted rest) ≡ failed (onto (insert_all sorted rest) [])
unfolding sort_from insert_all
sort_from_short zero i sorted rest e p h = elim h [ ]
sort_from_short (suc n) i [] rest e p h = absurd (omega arith)
sort_from_short (suc n) i (s ∷ sorted) [] e p h =
    let last : insert_record i (onto (s ∷ sorted) []) ≡ failed (onto (s ∷ sorted) []) =
      rw e (insert_record_end s sorted) in
    ap (λ r. sort_next n (i + 1) r) last
sort_from_short (suc n) i (s ∷ sorted) (x ∷ rest) e p h =
    let first : insert_record i (onto (s ∷ sorted) (x ∷ rest))
        ≡ done tt (onto (insert x (s ∷ sorted)) rest) =
      rw e (insert_record_lem s x sorted rest) in
    ap (λ r. sort_next n (i + 1) r) first
    ∙ sort_from_short n (i + 1) (insert x (s ∷ sorted)) rest
        (omega (arith, length-insert x (s ∷ sorted))) (omega arith) (omega arith)

-- A sort of more records than a file with at least one holds returns 1, and has by then sorted all
-- that the file holds; no record is lost.
pub sort_short :
    (n : ℕ) (file : List Record)
    → 0 < length file
    → length file < n
    → (sorted : List Record) × (sort_sys n file ≡ failed (onto sorted []))
      × (sort_lib n file ≡ failed (onto sorted []))
      × Falls sorted
      × Perm sorted file
unfolding sort_sys sort_lib
sort_short n [] p h = elim p [ ]
sort_short n (x ∷ file) p h =
    let run : sort_from (n - 1) 1 (x ∷ file) ≡ failed (onto (insert_all (x ∷ []) file) []) =
      sort_from_short (n - 1) 1 (x ∷ []) file refl (omega arith) (omega arith) in
    (
      insert_all (x ∷ []) file,
      run,
      run,
      insert_all-Falls file (x ∷ []) tt,
      insert_all-perm file (x ∷ []),
    )
