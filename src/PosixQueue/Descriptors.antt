-- ===== src/PosixQueue/Descriptors.antt =====
-- Which descriptors the server of Operating-systems/lab6/zad2/server.c opens, closes and keeps.
use agh_ust_projects.Prelude.{
  ℕ, zero, suc, ◌≡◌, sym, true, false, List, [], ◌∷◌, ◌++◌, inl, inr, some, set, get_elem?, arith,
  Bool-cases, if◌then◌else◌,
}
use mathlib.Core.List.{Perm, perm_append_comm, append-nil, append_assoc}
use mathlib.Core.List.Perm
use agh_ust_projects.Prelude.Int.{ℤ, pos}
use agh_ust_projects.MessageQueue.{free, is_free}
use agh_ust_projects.MessageQueue.Table.{FirstFree}
use agh_ust_projects.PosixQueue.{Server, remove_q_at_exit, close_queue}

-- The descriptors in the table.
unfoldable pub kept : List ℤ → List ℤ
kept [] = []
kept (d ∷ ds) = if is_free d then kept ds else d ∷ kept ds

-- Every descriptor that was opened is in the table or was closed, once.
abbrev pub Accounted : Server → Type 0
Accounted s = Perm s.opened (kept s.clients ++ s.closed)

kept_free : (d : ℤ) (ds : List ℤ) → is_free d ≡ true → kept (d ∷ ds) ≡ kept ds
unfolding kept
kept_free d ds e = ground (arith, e)

kept_used : (d : ℤ) (ds : List ℤ) → is_free d ≡ false → kept (d ∷ ds) ≡ d ∷ kept ds
unfolding kept
kept_used d ds e = ground (arith, e)

remove_q_at_exit_closed :
    (ds : List ℤ) (s : Server) → (remove_q_at_exit ds s).closed ≡ s.closed ++ kept ds
unfolding remove_q_at_exit kept
remove_q_at_exit_closed [] s = sym (append-nil s.closed)
remove_q_at_exit_closed (d ∷ ds) s = elim (Bool-cases (is_free d)) [
  | inl e ↦ ground (arith, e, remove_q_at_exit_closed ds s)
  | inr e ↦ ground (
    arith,
    e,
    remove_q_at_exit_closed ds (close_queue d s),
    append_assoc s.closed (d ∷ []) (kept ds),
  )
]

kept-cons :
    (c : ℤ) (cs ds : List ℤ) (d : ℤ)
    → Perm (kept cs) (d ∷ kept ds)
    → Perm (kept (c ∷ cs)) (d ∷ kept (c ∷ ds))
kept-cons c cs ds d h = elim (Bool-cases (is_free c)) [
  | inl e ↦ rw (kept_free c cs e, kept_free c ds e) h
  | inr e ↦
      rw (kept_used c cs e, kept_used c ds e) (Perm.trans (Perm.cons c h) (Perm.swap d c (kept ds)))
]

kept-set :
    (cs : List ℤ) (i d : ℕ) → FirstFree cs i → Perm (kept (set cs i (pos d))) (pos d ∷ kept cs)
unfolding kept
kept-set [] i d f = elim f [ ]
kept-set (c ∷ cs) zero d f = rw f (Perm.refl (pos d ∷ kept cs))
kept-set (c ∷ cs) (suc i) d f = kept-cons c (set cs i (pos d)) cs (pos d) (kept-set cs i d f.1)

kept-clear :
    (cs : List ℤ) (i d : ℕ)
    → get_elem? cs i ≡ some (pos d)
    → Perm (kept cs) (pos d ∷ kept (set cs i free))
unfolding kept
kept-clear [] i d e = cc
kept-clear (c ∷ cs) zero d e = let same : c ≡ pos d = cc in rw same (Perm.refl (pos d ∷ kept cs))
kept-clear (c ∷ cs) (suc i) d e = kept-cons c cs (set cs i free) (pos d) (kept-clear cs i d e)

-- At the exit, exactly the descriptors that were opened are closed, each once.
pub remove_q_at_exit-perm :
    (s : Server) → Accounted s → Perm s.opened ((remove_q_at_exit s.clients s).closed)
remove_q_at_exit-perm s a =
    rw (remove_q_at_exit_closed s.clients s)
      (Perm.trans a (perm_append_comm (kept s.clients) s.closed))

pub entered-Accounted :
    (s : Server) (i d : ℕ)
    → FirstFree s.clients i
    → Accounted s
    → Perm (s.opened ++ pos d ∷ []) (kept (set s.clients i (pos d)) ++ s.closed)
entered-Accounted s i d f a = Perm.trans (perm_append_comm s.opened (pos d ∷ [])) (
    Perm.trans (Perm.cons (pos d) a)
      (Perm.append_right s.closed (Perm.symm (kept-set s.clients i d f))))

pub left-Accounted :
    (s : Server) (i d : ℕ)
    → get_elem? s.clients i ≡ some (pos d)
    → Accounted s
    → Perm s.opened (kept (set s.clients i free) ++ (s.closed ++ pos d ∷ []))
left-Accounted s i d e a =
    let rest : List ℤ = kept (set s.clients i free) in
    Perm.trans a (
      Perm.trans (Perm.append_right s.closed (kept-clear s.clients i d e)) (
        rw (sym (append_assoc rest s.closed (pos d ∷ [])))
          (perm_append_comm (pos d ∷ []) (rest ++ s.closed))))
