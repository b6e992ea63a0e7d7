-- ===== src/PosixQueue/Serving.antt =====
-- What each request to the server of Operating-systems/lab6/zad2/server.c does to its descriptors.
use agh_ust_projects.Prelude.{
  ℕ, ◌+◌, ◌≡◌, refl, sym, ap, ◌∙◌, Bool, true, false, List, [], ◌∷◌, ◌++◌, Option, none, some, ltb,
  ◌==◌, length, get_elem?, arith, if◌then◌else◌,
}
use mathlib.Core.Path.{subst}
use agh_ust_projects.Prelude.Int.{ℤ, pos, negsuc}
use agh_ust_projects.MessageQueue.{
  find_free, max_clients, reply, error, stop_code, client_queue, introduce_code, mirror_code,
  calc_code, time_code, end_code,
}
use agh_ust_projects.MessageQueue.Calc.{Answer, replied, refused, crashed, calc_answer}
use agh_ust_projects.MessageQueue.Table.{FirstFree, find_free-FirstFree}
use agh_ust_projects.PosixQueue.{
  Message, Server, Outcome, running, ended, undefined, new_client, delete_client, register_at,
  register_opened, delete_at, delete_entry, with_queue, mq_send, send_answer, error_send,
  mirror_fun, calc, time_fun, dispatch, dispatch_code, dispatch_type, delete_checked,
}
use agh_ust_projects.PosixQueue.Descriptors.{Accounted, entered-Accounted, left-Accounted}

-- `P` holds of the server if it goes on.
abbrev pub OnRunning : (Server → Type 0) → Outcome → Type 0
OnRunning P (running s) = P s
OnRunning P (ended s) = Unit {0}
OnRunning P (undefined s) = Unit {0}

if-OnRunning :
    (P : Server → Type 0) (b : Bool) (x y : Outcome)
    → (b ≡ true → OnRunning P x)
    → (b ≡ false → OnRunning P y)
    → OnRunning P (if b then x else y)
if-OnRunning P true x y h k = h refl
if-OnRunning P false x y h k = k refl

with_queue-OnRunning :
    (P : Server → Type 0) (q : Option ℤ) (handler : ℤ → Outcome) (s : Server)
    → ((d : ℤ) → OnRunning P (handler d))
    → OnRunning P (with_queue q handler s)
with_queue-OnRunning P none handler s h = tt
with_queue-OnRunning P (some d) handler s h = h d

-- A client that leaves has an open queue in its slot.
abbrev pub LeavesOnce : Message → Server → Type 0
LeavesOnce m s =
    m.mtype ≡ pos stop_code → (d : ℕ) × (client_queue s.clients m.client_id ≡ some (pos d))

delete_entry-Accounted :
    (q : Option ℤ) (i d : ℕ) (s : Server)
    → q ≡ get_elem? s.clients i
    → q ≡ some (pos d)
    → Accounted s
    → OnRunning Accounted (delete_entry q i s)
delete_entry-Accounted none i d s e f a = tt
delete_entry-Accounted (some c) i d s e f a =
    let same : c ≡ pos d = cc in rw same (left-Accounted s i d (sym e ∙ f) a)

delete_at-Accounted :
    (id : ℤ) (d : ℕ) (s : Server)
    → client_queue s.clients id ≡ some (pos d)
    → Accounted s
    → OnRunning Accounted (delete_at id s)
delete_at-Accounted (negsuc k) d s e a = tt
delete_at-Accounted (pos i) d s e a =
    if-OnRunning Accounted (ltb max_clients i) (running s)
      (delete_entry (get_elem? s.clients i) i s) (λ h. a)
      (λ h. delete_entry-Accounted (get_elem? s.clients i) i d s refl e a)

delete_client-Accounted :
    (m : Message) (k d : ℕ) (s : Server)
    → m.mtype ≡ pos k
    → client_queue s.clients m.client_id ≡ some (pos d)
    → Accounted s
    → OnRunning Accounted (delete_client m s)
delete_client-Accounted m k d s t e a =
    subst (λ t. OnRunning Accounted (delete_checked t m.client_id s)) (sym t)
      (delete_at-Accounted m.client_id d s e a)

module _ (os : ℕ → Bool) where
  mq_send-Accounted :
      (q : ℤ) (t : ℕ) (text : List ℕ) (s : Server)
      → Accounted s
      → Accounted (mq_send os q t text s).1
  mq_send-Accounted q t text s a = either (os s.calls)
    where
      sent : Server
      sent = record s {
        calls = s.calls + 1;
        sent = s.sent ++ record { queue = q; mtype = t; mtext = text } ∷ [];
      }

      either :
          (b : Bool)
          → let r : Bool × Server =
              if b then (true, sent) else (false, record s { calls = s.calls + 1 }) in
            Accounted r.1
      either true = a
      either false = a

  send_answer-Accounted :
      (q : ℤ) (x : Answer) (s : Server) → Accounted s → OnRunning Accounted (send_answer os q x s)
  unfolding error_send
  send_answer-Accounted q (replied text) s a = mq_send-Accounted q reply text s a
  send_answer-Accounted q (refused text) s a = mq_send-Accounted q error text s a
  send_answer-Accounted q crashed s a = tt

  register_at-Accounted :
      (slot : Option ℕ) (d : ℕ) (s : Server)
      → os s.calls ≡ true
      → ((i : ℕ) → slot ≡ some i → FirstFree s.clients i)
      → Accounted s
      → OnRunning Accounted
          (register_at os slot (pos d) (record s { opened = s.opened ++ pos d ∷ [] }))
  register_at-Accounted none d s u f a = tt
  register_at-Accounted (some i) d s u f a = rw u (entered-Accounted s i d (f i refl) a)

  new_client-Accounted :
      (open_queue : ℕ → List ℕ → Option ℕ) (m : Message) (s : Server)
      → os s.calls ≡ true
      → Accounted s
      → OnRunning Accounted (new_client os open_queue m s)
  unfolding new_client
  new_client-Accounted open_queue m s u a = opened (open_queue (length s.opened) m.mtext)
    where
      opened : (d : Option ℕ) → OnRunning Accounted (register_opened os d s)
      opened none = tt
      opened (some d) =
          register_at-Accounted (find_free 0 s.clients) d s u (find_free-FirstFree s.clients) a

  dispatch_code-Accounted :
      (open_queue : ℕ → List ℕ → Option ℕ) (date : List ℕ) (code : ℕ) (m : Message) (s : Server)
      → os s.calls ≡ true
      → m.mtype ≡ pos code
      → LeavesOnce m s
      → Accounted s
      → OnRunning Accounted (dispatch_code os open_queue date code m s)
  unfolding mirror_fun calc time_fun
  dispatch_code-Accounted open_queue date code m s u t l a =
      let queue : Option ℤ = client_queue s.clients m.client_id in
      if-OnRunning Accounted (code == introduce_code) _ _
        (λ h. new_client-Accounted open_queue m s u a)
        (λ h1.
          if-OnRunning Accounted (code == mirror_code) _ _
            (λ h. with_queue-OnRunning Accounted queue _ s (λ d. mq_send-Accounted d reply _ s a))
            (λ h2.
              if-OnRunning Accounted (code == calc_code) _ _
                (λ h.
                  with_queue-OnRunning Accounted queue _ s
                    (λ d. send_answer-Accounted d (calc_answer m.mtext) s a))
                (λ h3.
                  if-OnRunning Accounted (code == time_code) _ _
                    (λ h.
                      with_queue-OnRunning Accounted queue _ s
                        (λ d. mq_send-Accounted d reply _ s a))
                    (λ h4.
                      if-OnRunning Accounted (code == end_code) _ _ (λ h. tt)
                        (λ h5.
                          if-OnRunning Accounted (code == stop_code) _ _
                            (λ h.
                              let stop : m.mtype ≡ pos stop_code = t ∙ ap pos (ground (arith, h)) in
                              let (d, e) = l stop in delete_client-Accounted m code d s t e a)
                            (λ h. a))))))

  -- If no message is lost, then whatever message comes, unless a client leaves that is not registered:
  -- the descriptors in the table and those closed are together the descriptors opened, each once, as
  -- long as the server goes on.
  pub dispatch-Accounted :
      (open_queue : ℕ → List ℕ → Option ℕ) (date : List ℕ) (m : Message) (s : Server)
      → os s.calls ≡ true
      → LeavesOnce m s
      → Accounted s
      → OnRunning Accounted (dispatch os open_queue date m s)
  dispatch-Accounted open_queue date m s u l a = by_sign m.mtype refl
    where
      by_sign : (t : ℤ) → m.mtype ≡ t → OnRunning Accounted (dispatch os open_queue date m s)
      by_sign t e =
          subst (λ t. OnRunning Accounted (dispatch_type os open_queue date t m s)) (sym e)
            (typed t e)
        where
          typed :
              (t : ℤ) → m.mtype ≡ t → OnRunning Accounted (dispatch_type os open_queue date t m s)
          typed (pos code) e = dispatch_code-Accounted open_queue date code m s u e l a
          typed (negsuc k) e = a
