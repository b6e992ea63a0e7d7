-- ===== src/MessageQueue/Session.antt =====
-- A client (Operating-systems/lab6/zad1/client.c) and the server (server.c) together.
use agh_ust_projects.Prelude.{
  ℕ, ◌+◌, ◌-◌, ◌≤◌, ◌<◌, ◌≡◌, ◌≢◌, refl, ap, ◌∙◌, Bool, true, List, [], ◌∷◌, ◌++◌, some, length,
  take, drop, get_or, get_elem?, set, length-append, length-set, take-append, get_or-append,
  get_elem?-set_self, ◌==◌, if◌then◌else◌, inl, inr, arith,
}
use mathlib.Core.List.{reverse, append_assoc}
use agh_ust_projects.Prelude.Int.{ℤ, pos}
use agh_ust_projects.CLibrary.{str_eq, atoi, print_ℕ, print_ℤ}
use agh_ust_projects.CLibrary.Numerals.{atoi-print_ℕ, atoi-print_ℤ}
use agh_ust_projects.MessageQueue.{
  Message, Server, running, undefined, mirror_code, calc_code, reply, free, max_clients, dispatch,
  calc, delete_client, new_client, mirror_fun, send_answer, with_queue,
}
use agh_ust_projects.MessageQueue.Calc.{
  word_calc, calc_answer, replied, msg_maxsize, int_max, fits_int,
}
use agh_ust_projects.MessageQueue.Calc.Answers.{
  Op, short_statement, value, value_fits, long_statement, answer_of, calc_answer_lem,
  calc_answer_crashed, calc_NoDelim,
}
use agh_ust_projects.MessageQueue.Client.{
  introduction, accepted_id, unless_negative, word_end, blanks, word_mirror, parse_command,
  command_code, chomp, request, request_with, text_of, farewell,
}
use agh_ust_projects.MessageQueue.Table.{
  FirstFree, FirstFree-lt, FirstFree-unique, NoneFree-FirstFree, set-set_free,
  new_client-Registered, mirror_fun-reverse,
}

chomp-newline : (w : List ℕ) → chomp (w ++ 10 ∷ []) ≡ w
chomp-newline w =
    let size : length (w ++ 10 ∷ []) - 1 ≡ length w = omega (arith, length-append w (10 ∷ [])) in
    let last : get_or (w ++ 10 ∷ []) (length (w ++ 10 ∷ []) - 1) 0 ≡ 10 =
      ap (λ n. get_or (w ++ 10 ∷ []) n 0) size ∙ get_or-append w [] 10 0 in
    let front : take (length (w ++ 10 ∷ []) - 1) (w ++ 10 ∷ []) ≡ w =
      ap (λ n. take n (w ++ 10 ∷ [])) size ∙ take-append w (10 ∷ []) in
    ap (λ n. if n == 10 then take (length (w ++ 10 ∷ []) - 1) (w ++ 10 ∷ []) else w ++ 10 ∷ []) last
    ∙ front

calc_end : (rest : List ℕ) (len : ℕ) → 6 ≤ len → word_end 6 0 (word_calc ++ 32 ∷ rest) len ≡ 4
unfolding word_end
calc_end rest len h = ground arith

mirror_end : (rest : List ℕ) (len : ℕ) → 8 ≤ len → word_end 6 0 (word_mirror ++ 32 ∷ rest) len ≡ 6
unfolding word_end
mirror_end rest len h = ground arith

parse_calc :
    (rest : List ℕ) (len : ℕ)
    → 6 ≤ len
    → parse_command (word_calc ++ 32 ∷ rest) len ≡ (some calc_code, 4 + blanks (32 ∷ rest))
unfolding parse_command str_eq
parse_calc rest len h =
    let line : List ℕ = word_calc ++ 32 ∷ rest in
    ap (λ c. (command_code (take c line), c + blanks (drop c line))) (calc_end rest len h)

parse_mirror :
    (c : ℕ) (rest : List ℕ) (len : ℕ)
    → 8 ≤ len
    → c ≢ 32
    → parse_command (word_mirror ++ 32 ∷ c ∷ rest) len ≡ (some mirror_code, 7)
unfolding parse_command str_eq blanks
parse_mirror c rest len h n =
    let line : List ℕ = word_mirror ++ 32 ∷ c ∷ rest in
    let one : blanks (32 ∷ c ∷ rest) ≡ 1 = ground arith in
    ap (λ e. (command_code (take e line), e + blanks (drop e line))) (mirror_end (c ∷ rest) len h)
    ∙ ap (λ b. (some mirror_code, 6 + b)) one

request_with-fits :
    (code position : ℕ) (line : List ℕ) (id : ℤ) (p : ℕ)
    → length (text_of code position line) < msg_maxsize
    → request_with (some code, position) line id p
      ≡ some (record { mtype = code; mtext = text_of code position line; client_id = id; pid = p })
request_with-fits code position line id p short = ground arith

-- The message of a typed command `CALC` with a statement, and that of `MIRROR` with a text.
calc_request :
    (id : ℤ) (p : ℕ) (rest : List ℕ)
    → length (word_calc ++ 32 ∷ rest) < msg_maxsize
    → request id p ((word_calc ++ 32 ∷ rest) ++ 10 ∷ [])
      ≡ some (record { mtype = calc_code; mtext = word_calc ++ 32 ∷ rest; client_id = id; pid = p })
unfolding request
calc_request id p rest short =
    let line : List ℕ = word_calc ++ 32 ∷ rest in
    let len : ℕ = length (line ++ 10 ∷ []) in
    ap (λ l. request_with (parse_command l len) l id p) (chomp-newline line)
    ∙ ap (λ r. request_with r line id p)
        (parse_calc rest len (omega (arith, length-append line (10 ∷ []))))
    ∙ request_with-fits calc_code (4 + blanks (32 ∷ rest)) line id p short

mirror_request :
    (id : ℤ) (p c : ℕ) (rest : List ℕ)
    → c ≢ 32
    → length (c ∷ rest) < msg_maxsize
    → request id p ((word_mirror ++ 32 ∷ c ∷ rest) ++ 10 ∷ [])
      ≡ some (record { mtype = mirror_code; mtext = c ∷ rest; client_id = id; pid = p })
unfolding request
mirror_request id p c rest n short =
    let line : List ℕ = word_mirror ++ 32 ∷ c ∷ rest in
    let len : ℕ = length (line ++ 10 ∷ []) in
    ap (λ l. request_with (parse_command l len) l id p) (chomp-newline line)
    ∙ ap (λ r. request_with r line id p)
        (parse_mirror c rest len (omega (arith, length-append line (10 ∷ []))) n)
    ∙ request_with-fits mirror_code 7 line id p short

module _ (os : ℕ → Bool) (up : (k : ℕ) → os k ≡ true) (date : List ℕ) where
  calc_replied :
      (queue : ℤ) (text out : List ℕ) (s : Server)
      → calc_answer text ≡ replied out
      → calc os queue text s
        ≡ running (record s {
          calls = s.calls + 1;
          sent = s.sent ++ record { queue = queue; mtype = reply; mtext = out } ∷ [];
        })
  unfolding calc
  calc_replied queue text out s e =
      ap (λ a. send_answer os queue a s) e ∙ ground (arith, up s.calls)

  -- If no message is lost: a user who types `CALC` and an operation of two numbers that has a value,
  -- where all three fit an `int` and the statement `mtext`, at a client that is registered in slot `i`, gets one reply, in the client's own queue, and it reads as
  -- the value.
  pub calc_request-value :
      (o : Op) (a b i p : ℕ) (queue z : ℤ) (s : Server)
      → get_elem? s.clients i ≡ some queue
      → a ≤ int_max
      → b ≤ int_max
      → fits_int z ≡ true
      → length (short_statement o a b) < msg_maxsize
      → length (long_statement o a b) < msg_maxsize
      → value o a b ≡ some z
      → (m : Message) × (request (pos i) p (short_statement o a b ++ 10 ∷ []) ≡ some m)
        × (dispatch os date m s
            ≡ running (record s {
              calls = s.calls + 1;
              sent = s.sent ++ record { queue = queue; mtype = reply; mtext = print_ℤ z } ∷ [];
            }))
        × (atoi (print_ℤ z) ≡ z)
  unfolding dispatch
  calc_request-value o a b i p queue z s e small_a small_b h short long v = (
    _,
    calc_request (pos i) p _ short,
    ap (λ q. with_queue q (λ q. calc os q (short_statement o a b) s) s) e
        ∙ calc_replied queue (short_statement o a b) (print_ℤ z) s
            ((calc_answer_lem o a b small_a small_b (ap value_fits v ∙ h) long).0 ∙ ap answer_of v),
    atoi-print_ℤ z,
  )

  -- If no message is lost and slot `i` is the first free one of the ten: a client whose queue is `q`
  -- registers, is told `i`, has a text of fewer than MSG_MAXSIZE characters mirrored that does not start
  -- with a blank, and leaves. It finds
  -- both replies in its queue, and the table is as before.
  pub session :
      (s : Server) (i q p c : ℕ) (w : List ℕ)
      → length s.clients ≡ max_clients
      → FirstFree s.clients i
      → c ≢ 32
      → length (c ∷ w) < msg_maxsize
      → (s1 : Server) × (s2 : Server) × (s3 : Server) × (m : Message) × (dispatch os date
            (introduction q p)
            s
          ≡ running s1)
        × (accepted_id reply (print_ℕ i) ≡ some (pos i))
        × (request (pos i) p ((word_mirror ++ 32 ∷ c ∷ w) ++ 10 ∷ []) ≡ some m)
        × (dispatch os date m s1 ≡ running s2)
        × (dispatch os date (farewell (pos i) p) s2 ≡ running s3)
        × (s3.clients ≡ s.clients)
        × (s3.sent
            ≡ s.sent
              ++ (record { queue = pos q; mtype = reply; mtext = print_ℕ i }
                  ∷ record { queue = pos q; mtype = reply; mtext = reverse (c ∷ w) }
                  ∷ []))
  unfolding dispatch introduction farewell accepted_id delete_client
  session s i q p c w l f n short =
      elim (new_client-Registered os (introduction q p) s (up s.calls)) [
        | inl (j, g, cl, se, a) ↦
            let same : j ≡ i = FirstFree-unique s.clients j i g f in
            let table : s1.clients ≡ set s.clients i (pos q) =
              cl ∙ (λ k. set s.clients (same k) (atoi-print_ℕ q k)) in
            let first : s1.sent
                ≡ s.sent ++ record { queue = pos q; mtype = reply; mtext = print_ℕ i } ∷ [] =
              se ∙ (λ k.
                s.sent
                ++ record { queue = atoi-print_ℕ q k; mtype = reply; mtext = print_ℕ (same k) }
                  ∷ []) in
            let at : get_elem? s1.clients i ≡ some (pos q) =
              ap (λ t. get_elem? t i) table ∙ get_elem?-set_self s.clients i (pos q) lt in
            let size : length s1.clients ≡ max_clients =
              ap (λ t. length t) table ∙ (length-set s.clients i (pos q) ∙ l) in
            (
              s1,
              s2,
              s3,
              _,
              refl,
              ap unless_negative (atoi-print_ℕ i),
              mirror_request (pos i) p c w n short,
              ap (λ r. with_queue r (λ o. running (mirror_fun os o (c ∷ w) s1)) s1) at
                  ∙ ap running (mirror_fun-reverse os (pos q) (c ∷ w) s1 (up s1.calls)),
              ground (arith, lt, l, size),
              ap (λ t. set t i free) table ∙ set-set_free s.clients i (pos q) f,
              ap (λ t. t ++ record { queue = pos q; mtype = reply; mtext = reverse (c ∷ w) } ∷ [])
                    first
                  ∙ append_assoc s.sent _ _,
            )
        | inr (g, cl, se) ↦ absurd (NoneFree-FirstFree s.clients i g f)
      ]
    where
      lt : i < length s.clients
      lt = FirstFree-lt s.clients i f

      s1 : Server
      s1 = new_client os (introduction q p) s

      s2 : Server
      s2 = record s1 {
        calls = s1.calls + 1;
        sent = s1.sent ++ record { queue = pos q; mtype = reply; mtext = reverse (c ∷ w) } ∷ [];
      }

      s3 : Server
      s3 = record s2 { clients = set s2.clients i free }

  -- A user who types `CALC` alone, at a registered client, crashes the server.
  pub calc_request_alone :
      (i p : ℕ) (queue : ℤ) (s : Server)
      → get_elem? s.clients i ≡ some queue
      → (m : Message) × (request (pos i) p (word_calc ++ 10 ∷ []) ≡ some m)
        × (dispatch os date m s ≡ undefined s)
  unfolding dispatch request parse_command word_end blanks str_eq calc
  calc_request_alone i p queue s e = (
    record { mtype = calc_code; mtext = word_calc; client_id = pos i; pid = p },
    refl,
    ap (λ q. with_queue q (λ o. calc os o word_calc s) s) e
        ∙ ap (λ a. send_answer os queue a s) (calc_answer_crashed word_calc calc_NoDelim),
  )
