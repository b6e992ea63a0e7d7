-- ===== src/RecordFile.antt =====
-- Operating-systems/lab2/zad1/main.c: generating, sorting and copying files of records.
-- A file is the sequence of its whole records, since every `lseek` and `fseek` goes to a multiple of
-- the record length and every transfer is one record; reading past the last whole record fails.
-- A record is the list of its `recSize + 1` bytes. The files can be opened, and writes succeed.
pub mod Insertion
pub mod Sorting
pub mod Copying
mod Examples
use agh_ust_projects.Prelude.{
  ℕ, zero, suc, ◌+◌, ◌-◌, ◌%◌, Bool, true, false, List, [], ◌∷◌, ◌++◌, Option, none, some,
  if◌then◌else◌, ltb, get_elem?, get_or, set, length, map, take, drop, leb,
}

abbrev pub Record : Type 0
Record = List ℕ

-- A step returns a value, or ends the function with 1 after an error; the file stays as it then is.
pub data Outcome (A : Type 0) : Type 0 where
  done : A → List Record → Outcome A
  failed : List Record → Outcome A

abbrev pub M : Type 0 → Type 0
M A = List Record → Outcome A

infixl 5 ◌>>=◌ ◌>>◌
abbrev pub ◌>>=◌ : {A B : Type 0} → M A → (A → M B) → M B
◌>>=◌ m f file = elim (m file) [ done a file' ↦ f a file' | failed file' ↦ failed file' ]

abbrev pub ◌>>◌ : {B : Type 0} → M (Unit {0}) → M B → M B
m >> k = m >>= λ _. k

-- `lseek` to the record and `read`, or `fseek` and `fread`.
unfoldable pub read_record : ℕ → M Record
read_record i file = elim (get_elem? file i) [ none ↦ failed file | some r ↦ done r file ]

-- `lseek` and `write`, or `fseek` and `fwrite`; the sort writes inside the file only.
unfoldable pub write_record : ℕ → Record → M (Unit {0})
write_record i r file = done tt (set file i r)

-- `char` is signed: the byte 128 is the lowest.
abbrev pub rank : Record → ℕ
rank r = (get_or r 0 0 + 128) % 256

-- `record_i[0] < record_j[0]`
abbrev pub before : Record → Record → Bool
before r s = ltb (rank r) (rank s)

-- The `while` loop. Its first argument is `j + 1`, so that 0 is `j == -1`, where the loop ends
-- whatever the stale `record_j` holds. The result is the last `j + 1`.
pub shift : ℕ → Record → Record → M ℕ
shift zero record_i record_j file = done 0 file
shift (suc zero) record_i record_j file =
    if before record_i record_j then done 0 (set file 1 record_j) else done 1 file
shift (suc (suc j)) record_i record_j file = elim (before record_i record_j) [
  | false ↦ done (suc (suc j)) file
  | true ↦
      (do
        write_record (suc (suc j)) record_j
        record_j' ← read_record j
        shift (suc j) record_i record_j')
        file
]

-- One round of the `for` loop.
unfoldable pub insert_record : ℕ → M (Unit {0})
insert_record i = do
  record_i ← read_record i
  record_j ← read_record (i - 1)
  k ← shift i record_i record_j
  write_record k record_i

-- `for (i = ...; i < recNum; i++)`, with the rounds left.
pub sort_from : ℕ → ℕ → M (Unit {0})
sort_from zero i = done tt
sort_from (suc n) i = insert_record i >> sort_from n (i + 1)

unfoldable pub sort_sys : ℕ → M (Unit {0})
sort_sys rec_num = sort_from (rec_num - 1) 1

-- `sortLib` makes the same steps by the calls of the C library.
unfoldable pub sort_lib : ℕ → M (Unit {0})
sort_lib rec_num = sort_from (rec_num - 1) 1

-- The copying loop: the records left in the source, and the target so far.
pub copy_from : ℕ → List Record → M (Unit {0})
copy_from zero source target = done tt target
copy_from (suc n) [] target = failed target
copy_from (suc n) (r ∷ rest) target = copy_from n rest (target ++ r ∷ [])

-- The target is truncated when it is opened.
unfoldable pub copy_sys : List Record → ℕ → M (Unit {0})
copy_sys source rec_num target = copy_from rec_num source []

unfoldable pub copy_lib : List Record → ℕ → M (Unit {0})
copy_lib source rec_num target = copy_from rec_num source []

-- `'A' + abs(c) % 25` of a signed `char`.
abbrev pub letter : ℕ → ℕ
letter b = b'A' + (if ltb b 128 then b else 256 - b) % 25

-- The loop of `generate`, over the bytes that stand in the random device.
pub generate_from : ℕ → ℕ → List ℕ → M (Unit {0})
generate_from zero rec_size random file = done tt file
generate_from (suc n) rec_size random file = elim (leb rec_size (length random)) [
  | false ↦ failed file
  | true ↦
      generate_from n rec_size (drop rec_size random)
        (file ++ (map letter (take rec_size random) ++ b'\n' ∷ []) ∷ [])
]

unfoldable pub generate : ℕ → ℕ → List ℕ → M (Unit {0})
generate rec_num rec_size random file = generate_from rec_num rec_size random []
