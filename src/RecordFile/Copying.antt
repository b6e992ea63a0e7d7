-- ===== src/RecordFile/Copying.antt =====
-- `copySys`, `copyLib` and `generate` of Operating-systems/lab2/zad1/main.c.
use agh_ust_projects.Prelude.{
  ℕ, zero, suc, ◌*◌, ◌≤◌, ◌≡◌, refl, ap, ◌∙◌, true, List, [], ◌∷◌, ◌++◌, arith, if◌then◌else◌, leb,
  length, take, drop, map, length-drop, length-take, length-map,
}
use native.Mathlib.Nat.{suc-mul}
use mathlib.Core.List.{append-nil, append_assoc}
use agh_ust_projects.RecordFile.{
  Record, done, failed, copy_from, copy_sys, copy_lib, letter, generate_from, generate,
}

copy_from_lem :
    (n : ℕ) (source target : List Record)
    → copy_from n source target ≡ (
        if leb n (length source)
        then done tt (target ++ take n source)
        else failed (target ++ source))
unfolding copy_from
copy_from_lem zero source target = ground (arith, append-nil target)
copy_from_lem (suc n) [] target = ground (arith, append-nil target)
copy_from_lem (suc n) (r ∷ rest) target = ground (
  arith,
  copy_from_lem n rest (target ++ r ∷ []),
  append_assoc target (r ∷ []) (take n rest),
  append_assoc target (r ∷ []) rest,
)

-- Whatever the target held, `copySys` and `copyLib` leave in it the first `n` records of the source
-- and return 0 if the source has that many; if not, they leave all of the source and return 1.
pub copy_lem :
    (n : ℕ) (source target : List Record)
    → let r = if leb n (length source) then done tt (take n source) else failed source in
      (copy_sys source n target ≡ r) × (copy_lib source n target ≡ r)
unfolding copy_sys copy_lib
copy_lem n source target = (copy_from_lem n source [], copy_from_lem n source [])

-- A record that the sort can read: letters of one `char` each and a newline.
abbrev pub Letters : List ℕ → Type 0
Letters [] = Unit {0}
Letters (b ∷ bs) = (b'A' ≤ b) × (b ≤ b'Y') × Letters bs

abbrev pub Generated : ℕ → List Record → Type 0
Generated size [] = Unit {0}
Generated size (r ∷ rs) =
    ((letters : List ℕ) × (r ≡ letters ++ b'\n' ∷ []) × (length letters ≡ size) × Letters letters)
    × Generated size rs

map-letter : (bs : List ℕ) → Letters (map letter bs)
map-letter [] = tt
map-letter (b ∷ bs) = (omega arith, omega arith, map-letter bs)

generate_step :
    (n size : ℕ) (random : List ℕ) (file : List Record)
    → leb size (length random) ≡ true
    → generate_from (suc n) size random file
      ≡ generate_from n size
          (drop size random)
          (file ++ (map letter (take size random) ++ b'\n' ∷ []) ∷ [])
unfolding generate_from
generate_step n size random file e = ground arith

generate_from_lem :
    (n size : ℕ) (random : List ℕ) (file : List Record)
    → n * size ≤ length random
    → (records : List Record) × (generate_from n size random file ≡ done tt (file ++ records))
      × (length records ≡ n)
      × Generated size records
unfolding generate_from
generate_from_lem zero size random file h = ([], rw append-nil, refl, tt)
generate_from_lem (suc n) size random file h =
    let r : Record = map letter (take size random) ++ b'\n' ∷ [] in
    let (records, p, l, g) =
      generate_from_lem n size (drop size random) (file ++ r ∷ [])
        (omega (arith, h, length-drop size random, suc-mul n size)) in
    (
      r ∷ records,
      generate_step n size random file enough
          ∙ (p ∙ ap (done tt) (append_assoc file (r ∷ []) records)),
      ap suc l,
      (
        (
          map letter (take size random),
          refl,
          length-map (take size random) letter
              ∙ (length-take size random ∙ omega (arith, h, suc-mul n size)),
          map-letter (take size random),
        ),
        g,
      ),
    )
  where
    enough : leb size (length random) ≡ true
    enough = ground (arith, h, suc-mul n size)

-- `generate` fills the file with the asked number of records, each with its letters and a newline,
-- if the random device yields enough bytes.
pub generate_lem :
    (n size : ℕ) (random : List ℕ) (file : List Record)
    → n * size ≤ length random
    → (records : List Record) × (generate n size random file ≡ done tt records)
      × (length records ≡ n)
      × Generated size records
unfolding generate
generate_lem n size random file h = generate_from_lem n size random [] h
