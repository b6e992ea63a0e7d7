-- ===== src/MessageQueue/Client.antt =====
-- Operating-systems/lab6/zad1/client.c: the messages that a client sends, and what it makes of the
-- lines that the user types.
use agh_ust_projects.Prelude.{
  ℕ, zero, suc, ◌+◌, ◌-◌, List, [], ◌∷◌, Option, none, some, length, take, drop, get_or, ◌==◌, ◌||◌,
  if◌then◌else◌, ltb,
}
use agh_ust_projects.Prelude.Int.{ℤ, pos, negsuc}
use agh_ust_projects.CLibrary.{str_eq, atoi, print_ℕ}
use agh_ust_projects.MessageQueue.{
  Message, mirror_code, calc_code, time_code, end_code, stop_code, introduce_code, reply, error,
}
use agh_ust_projects.MessageQueue.Calc.{word_calc, msg_maxsize}

-- The message of `connect`, with the client's own queue.
unfoldable pub introduction : ℕ → ℕ → Message
introduction msgqid pid = record {
  mtype = introduce_code;
  mtext = print_ℕ msgqid;
  client_id = negsuc 0;
  pid = pid;
}

abbrev pub unless_negative : ℤ → Option ℤ
unless_negative (pos k) = some (pos k)
unless_negative (negsuc k) = none

-- `clientId` after the `switch` of `connect`; `none` ends the client.
unfoldable pub accepted_id : ℕ → List ℕ → Option ℤ
accepted_id mtype mtext =
    if mtype == reply
    then unless_negative (atoi mtext)
    else if mtype == error
    then none
    else some (negsuc 0)

-- The first loop of `parse_command` at `c`, with `6 - c` rounds left.
unfoldable pub word_end : ℕ → ℕ → List ℕ → ℕ → ℕ
word_end zero c line len = c
word_end (suc left) c line len =
    let later = word_end left (c + 1) line len in
    if get_or line c 0 == 32 || c == len - 1 then c else later

unfoldable pub blanks : List ℕ → ℕ
blanks [] = 0
blanks (c ∷ cs) = if c == 32 then suc (blanks cs) else 0

abbrev pub word_mirror : List ℕ
word_mirror = b'M' ∷ b'I' ∷ b'R' ∷ b'R' ∷ b'O' ∷ b'R' ∷ []

abbrev pub word_time : List ℕ
word_time = b'T' ∷ b'I' ∷ b'M' ∷ b'E' ∷ []

abbrev pub word_end_command : List ℕ
word_end_command = b'E' ∷ b'N' ∷ b'D' ∷ []

-- `none` stands for `ret` left without a value.
abbrev pub command_code : List ℕ → Option ℕ
command_code word =
    if str_eq word word_mirror
    then some mirror_code
    else if str_eq word word_calc
    then some calc_code
    else if str_eq word word_time
    then some time_code
    else if str_eq word word_end_command
    then some end_code
    else none

-- The command, and `*pos`.
unfoldable pub parse_command : List ℕ → ℕ → Option ℕ × ℕ
parse_command line len =
    let c = word_end 6 0 line len in (command_code (take c line), c + blanks (drop c line))

-- `line`: the buffer of `getline` without its newline.
abbrev pub chomp : List ℕ → List ℕ
chomp buf = if get_or buf (length buf - 1) 0 == 10 then take (length buf - 1) buf else buf

abbrev pub text_of : ℕ → ℕ → List ℕ → List ℕ
text_of code position line = if code == mirror_code then drop position line else line

abbrev pub request_with : Option ℕ × ℕ → List ℕ → ℤ → ℕ → Option Message
request_with (none, position) line client_id pid = none
request_with (some code, position) line client_id pid =
    if ltb (length (text_of code position line)) msg_maxsize
    then some (record {
      mtype = code;
      mtext = text_of code position line;
      client_id = client_id;
      pid = pid;
    })
    else none

-- The message of one round of the loop of `main`; `none` where the command is not recognised, or where
-- the text does not fit `mtext`, so that `sprintf` runs into `clientId` and `pid`, behind which the model
-- does not follow the program.
unfoldable pub request : ℤ → ℕ → List ℕ → Option Message
request client_id pid buf =
    request_with (parse_command (chomp buf) (length buf)) (chomp buf) client_id pid

-- The message behind the loop of `main`.
unfoldable pub farewell : ℤ → ℕ → Message
farewell client_id pid = record {
  mtype = stop_code;
  mtext = b'S' ∷ b'T' ∷ b'O' ∷ b'P' ∷ [];
  client_id = client_id;
  pid = pid;
}
