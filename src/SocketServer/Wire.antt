-- ===== src/SocketServer/Wire.antt =====
-- What client.c writes is what server.c reads (Operating-systems/lab10/zad1).
use agh_ust_projects.Prelude.{
  ℕ, zero, suc, ◌+◌, ◌*◌, ◌/◌, ◌%◌, ◌^◌, ◌<◌, ◌≡◌, ◌≢◌, refl, ap, ◌∙◌, Bool, true, List, [], ◌∷◌,
  ◌++◌, some, arith, if◌then◌else◌, length, length-append, take-append, drop-append, take, leb, ◌⊎◌,
  inl, inr, ◌==◌, ◌&&◌, not,
}
use native.Mathlib.Nat.{pow-suc}
use mathlib.Core.List.{append_assoc}
use agh_ust_projects.SocketServer.Protocol.{MessageType, code, read, Result, Operation}
use agh_ust_projects.CLibrary.{c_string}
use agh_ust_projects.SocketServer.Server.{
  Server, M, ok, Effect, message, dispatch, login_client, logout_client, pong_client, ◌>>◌, pure,
  put, divided_by_zero, got_result, little_endian, result_of, known_operator,
}
use agh_ust_projects.SocketServer.Calculator.{
  Doubles, send_msg, le_bytes, result_bytes, evaluate, calc,
}

-- The bytes of a C string.
abbrev pub IsText : List ℕ → Type 0
IsText [] = Unit {0}
IsText (b ∷ bs) = (b ≢ 0) × IsText bs

module _ {ℓ} {A : Type ℓ} where
  take-length : (xs : List A) → take (length xs) xs ≡ xs
  take-length [] = refl
  take-length (x ∷ xs) = ap (λ l. x ∷ l) (take-length xs)

read-append : (n : ℕ) (xs ys : List ℕ) → length xs ≡ n → read n (xs ++ ys) ≡ some (xs, ys)
unfolding read
read-append n xs ys e = rw (← e, take-append xs ys, drop-append xs ys, enough)
  where
    enough : leb (length xs) (length (xs ++ ys)) ≡ true
    enough = ground (arith, length-append xs ys)

c_string-text : (name : List ℕ) → IsText name → c_string (name ++ 0 ∷ []) ≡ name
unfolding c_string
c_string-text [] t = refl
c_string-text (b ∷ bs) t = ground (arith, c_string-text bs)

-- A message on the wire: its type, its size in two bytes, the name and a 0.
send_msg_lem :
    (name : List ℕ) (type : MessageType)
    → length name + 1 < 2 ^ 16
    → send_msg name type
      ≡ code type ∷ (length name + 1) % 256 ∷ (length name + 1) / 256 % 256 ∷ (name ++ 0 ∷ [])
unfolding send_msg
send_msg_lem name type h =
    let e : (length name + 1) % 2 ^ 16 ≡ length name + 1 = omega (arith, h) in
    rw e (
      ap (λ l. code type ∷ (length name + 1) % 256 ∷ (length name + 1) / 256 % 256 ∷ l)
        (rw (← sized name) (take-length (name ++ 0 ∷ []))))
  where
    sized : (xs : List ℕ) → length (xs ++ 0 ∷ []) ≡ length xs + 1
    sized xs = omega (arith, length-append xs (0 ∷ []))

module _ (os : ℕ → Effect → Bool) (socket : ℕ) where
  -- What the server does with a message that holds just the name.
  pub handle : MessageType → List ℕ → M (Unit {0})
  handle MessageType.login name = login_client os name socket
  handle MessageType.logout name = logout_client os name
  handle MessageType.pong name = pong_client os name
  handle _ name = pure tt

  message_header :
      (type lo hi : ℕ) (bytes : List ℕ) (s : Server)
      → message os socket (type ∷ lo ∷ hi ∷ bytes) s
        ≡ dispatch os socket type (lo + 256 * hi) bytes s
  unfolding message read
  message_header type lo hi bytes s = ground arith

  dispatch_name :
      (type : MessageType) (n : ℕ) (name bytes rest : List ℕ) (s : Server)
      → (type ≡ MessageType.login) ⊎ (type ≡ MessageType.logout) ⊎ (type ≡ MessageType.pong)
      → read n bytes ≡ some (name ++ 0 ∷ [], rest)
      → IsText name
      → dispatch os socket (code type) n bytes s ≡ (handle type name >> pure rest) s
  unfolding dispatch handle
  dispatch_name type n name bytes rest s (inl e) r t =
      rw e (ground (arith, r, c_string-text name t))
  dispatch_name type n name bytes rest s (inr (inl e)) r t =
      rw e (ground (arith, r, c_string-text name t))
  dispatch_name type n name bytes rest s (inr (inr e)) r t =
      rw e (ground (arith, r, c_string-text name t))

  -- A login, logout or answer of a client whose name has no 0 and, with its 0, fewer than 2 ^ 16
  -- bytes is taken from the stream to the last byte, and the server handles it under the client's
  -- own name.
  pub message-send_msg :
      (type : MessageType) (name rest : List ℕ) (s : Server)
      → (type ≡ MessageType.login) ⊎ (type ≡ MessageType.logout) ⊎ (type ≡ MessageType.pong)
      → IsText name
      → length name + 1 < 2 ^ 16
      → message os socket (send_msg name type ++ rest) s ≡ (handle type name >> pure rest) s
  message-send_msg type name rest s k t h =
      ap (λ b. message os socket (b ++ rest) s) (send_msg_lem name type h)
      ∙ (message_header (code type) _ _ ((name ++ 0 ∷ []) ++ rest) s
          ∙ (ap (λ n. dispatch os socket (code type) n ((name ++ 0 ∷ []) ++ rest) s) size
              ∙ dispatch_name type (length name + 1) name ((name ++ 0 ∷ []) ++ rest) rest s k
                  (read-append (length name + 1) (name ++ 0 ∷ []) rest
                    (length-append name (0 ∷ [])))
                  t))
    where
      size : (length name + 1) % 256 + 256 * ((length name + 1) / 256 % 256) ≡ length name + 1
      size = omega (arith, h)

little_endian-le_bytes : (n v : ℕ) → v < 256 ^ n → little_endian (le_bytes n v) ≡ v
little_endian-le_bytes zero v h = omega (arith, h)
little_endian-le_bytes (suc n) v h =
    omega (arith, little_endian-le_bytes n (v / 256) (omega (arith, h, pow-suc 256 n)))

-- The fields fit their C types.
pub record Fits (r : Result) : Type 0 where
  pub flag : r.wrong_flag < 256 ^ 4
  pub number : r.operation < 256 ^ 4
  pub double : r.value < 256 ^ 8

result_of-result_bytes : (r : Result) → Fits r → result_of (result_bytes r) ≡ r
result_of-result_bytes r f = λ i. record {
  wrong_flag = little_endian-le_bytes 4 r.wrong_flag f.flag i;
  operation = little_endian-le_bytes 4 r.operation f.number i;
  value = little_endian-le_bytes 8 r.value f.double i;
}

dispatch_result :
    (os : ℕ → Effect → Bool) (socket n : ℕ) (name bytes rest : List ℕ) (r : Result) (s : Server)
    → read n bytes ≡ some (name ++ 0 ∷ [], result_bytes r ++ rest)
    → IsText name
    → Fits r
    → dispatch os socket (code MessageType.result) n bytes s
      ≡ ok rest (record s {
        log = s.log ++ put (if r.wrong_flag == 1 then divided_by_zero else got_result r name) ∷ [];
      })
unfolding dispatch
dispatch_result os socket n name bytes rest r s e t f = ground (
  arith,
  e,
  c_string-text name t,
  read-append 16 (result_bytes r) rest refl,
  result_of-result_bytes r f,
)

-- The flag is set for a division by zero only, among the orders that the server sends.
evaluate_flag :
    (d : Doubles) (o : Operation)
    → known_operator o.operand ≡ true
    → ((evaluate d o).wrong_flag == 1) ≡ (o.operand == b'/' && not (d.is_nonzero o.arg2))
unfolding evaluate
evaluate_flag d o k = ground arith

-- A client's answer to an order with a known operator is taken from the stream to the last byte, if
-- its name has no 0 and, with its 0, fewer than 2 ^ 16 bytes, and the numbers of the result fit
-- their C types. The server then reports a division by zero exactly if the order was one, and
-- otherwise calls `printf` with the double that the client computed, the number of the order and the
-- client's name; what text the `%lf` of the format makes of the double is not stated.
pub message-calc :
    (os : ℕ → Effect → Bool) (socket : ℕ) (d : Doubles) (name rest : List ℕ) (o : Operation)
    (s : Server)
    → known_operator o.operand ≡ true
    → IsText name
    → length name + 1 < 2 ^ 16
    → Fits (evaluate d o)
    → message os socket (calc d name o ++ rest) s
      ≡ ok rest (record s {
        log =
            s.log
            ++ put (
                if o.operand == b'/' && not (d.is_nonzero o.arg2)
                then divided_by_zero
                else got_result (evaluate d o) name)
              ∷ [];
      })
unfolding calc
message-calc os socket d name rest o s k t h f =
    ap (λ b. message os socket b s)
      (ap (λ b. (b ++ result_bytes r) ++ rest) (send_msg_lem name MessageType.result h)
        ∙ ap
            (λ b.
              code MessageType.result ∷ (length name + 1) % 256 ∷ (length name + 1) / 256 % 256 ∷ b)
            (append_assoc (name ++ 0 ∷ []) (result_bytes r) rest))
    ∙ (message_header os socket (code MessageType.result) _ _ _ s
        ∙ (ap (λ n. dispatch os socket (code MessageType.result) n bytes s)
              (let e : (length name + 1) % 256 + 256 * ((length name + 1) / 256 % 256)
                    ≡ length name + 1 =
                  omega (arith, h) in
                e)
            ∙ (dispatch_result os socket (length name + 1) name bytes rest r s
                  (read-append (length name + 1) (name ++ 0 ∷ []) (result_bytes r ++ rest)
                    (length-append name (0 ∷ [])))
                  t f
                ∙ ap
                    (λ b. ok rest (record s {
                      log = s.log ++ put (if b then divided_by_zero else got_result r name) ∷ [];
                    }))
                    (evaluate_flag d o k))))
  where
    r : Result
    r = evaluate d o

    bytes : List ℕ
    bytes = (name ++ 0 ∷ []) ++ (result_bytes r ++ rest)
