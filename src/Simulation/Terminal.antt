-- ===== src/Simulation/Terminal.antt =====
-- The simulated multi-user system of retrobridge/simulation.py: login, password and command shell.
pub mod Screen
pub mod Password
use retro_bridge.Prelude.{
  ℕ, zero, suc, ◌+◌, ◌-◌, Bool, true, false, not, ◌&&◌, ◌||◌, Option, none, some, List, [], ◌∷◌,
  ◌++◌, ◌==◌, leb, ltb, if◌then◌else◌, Text, codes, text_eq, str_strip, lower, upper, has_char,
  length, take, drop,
}
use retro_bridge.Simulation.Receiver.{Moment, is_nil}

-- A value of `TERMINAL_COMMANDS`.
pub record Config : Type 0 where
  pub name : Text
  pub banner : Text
  pub prompt : Text
  pub commands : List (Text × Text)

abbrev pub newline : Text
newline = 13 ∷ 10 ∷ []

-- `bytes.decode("ascii", errors="replace")`
abbrev pub decode : List ℕ → Text
decode [] = []
decode (b ∷ bytes) = (if ltb b 128 then b else 65533) ∷ decode bytes

-- `str.encode()` of a text of ASCII and of the replacement character.
abbrev pub encode : Text → List ℕ
encode [] = []
encode (c ∷ s) = if c == 65533 then 239 ∷ 191 ∷ 189 ∷ encode s else c ∷ encode s

abbrev pub command_of : List ℕ → Text
command_of line = lower (str_strip (decode line))

-- `commands.get(cmd, ...)`
abbrev pub response : List (Text × Text) → Text → Text
response [] cmd = newline ++ (codes "  ?UNKNOWN COMMAND: " ++ (upper cmd ++ newline))
response ((name, text) ∷ commands) cmd = if text_eq name cmd then text else response commands cmd

pub record Shell : Type 0 where
  pub line : List ℕ
  pub written : List ℕ
  pub is_logged_out : Bool

abbrev pub drop_last : List ℕ → List ℕ
drop_last [] = []
drop_last (x ∷ []) = []
drop_last (x ∷ y ∷ xs) = x ∷ drop_last (y ∷ xs)

abbrev pub is_newline : ℕ → Bool
is_newline b = b == 13 || b == 10

abbrev pub is_erase : ℕ → Bool
is_erase b = b == 127 || b == 8

abbrev pub run_command : Config → Shell → Text → Shell
run_command c s cmd =
    let answered =
      if is_nil cmd
      then s.written ++ newline
      else (s.written ++ newline) ++ encode (response c.commands cmd) in
    if text_eq cmd (codes "logout")
    then record {
      line = [];
      written = answered ++ (newline ++ (codes "Disconnected." ++ newline));
      is_logged_out = true;
    }
    else record { line = []; written = answered ++ c.prompt; is_logged_out = false }

-- One byte of the command shell.
abbrev pub type_byte : Config → Shell → ℕ → Shell
type_byte c s b =
    if is_newline b
    then run_command c s (command_of s.line)
    else if is_erase b
    then if is_nil s.line
      then s
      else record s { line = drop_last s.line; written = s.written ++ 8 ∷ 32 ∷ 8 ∷ [] }
    else record s { line = s.line ++ b ∷ []; written = s.written ++ b ∷ [] }

-- `for byte in chunk`: `logout` leaves the loop.
unfoldable pub type_bytes : Config → Shell → List ℕ → Shell
type_bytes c s [] = s
type_bytes c s (b ∷ bytes) =
    let rest = type_bytes c (type_byte c s b) bytes in
    if (type_byte c s b).is_logged_out then type_byte c s b else rest

-- The outer loop's start, the two loops of the login, and the shell.
pub data Phase : Type 0 where
  greeting username password shell : Phase

pub record State : Type 0 where
  pub phase : Phase
  pub line : List ℕ
  pub unread : List ℕ
  pub written : List ℕ

pub data Next : Type 0 where
  returned goes_on : State → Next

abbrev pub has_newline : List ℕ → Bool
has_newline bytes = has_char 13 bytes || has_char 10 bytes

abbrev pub stars : List ℕ → List ℕ
stars [] = []
stars (_ ∷ bytes) = b'*' ∷ stars bytes

abbrev pub welcome : Config → Text
welcome c =
    newline
    ++ (newline
        ++ (codes "Welcome to "
            ++ (upper c.name ++ (codes "!" ++ (newline ++ (newline ++ c.prompt))))))

abbrev pub username_chunk : Config → State → List ℕ → State
username_chunk c s chunk =
    if has_newline chunk
    then record s {
      phase = password;
      written = (s.written ++ chunk) ++ (newline ++ codes "PASSWORD: ");
    }
    else record s { written = s.written ++ chunk }

abbrev pub password_chunk : Config → State → List ℕ → State
password_chunk c s chunk =
    if has_newline chunk
    then record s { phase = shell; line = []; written = (s.written ++ stars chunk) ++ welcome c }
    else record s { written = s.written ++ stars chunk }

abbrev pub of_shell : State → Shell → State
of_shell s t = record s {
  phase = if t.is_logged_out then greeting else shell;
  line = t.line;
  written = t.written;
}

abbrev pub shell_chunk : Config → State → List ℕ → State
shell_chunk c s chunk =
    of_shell s
      (type_bytes c (record { line = s.line; written = s.written; is_logged_out = false }) chunk)

abbrev pub on_chunk : Config → Phase → State → List ℕ → State
on_chunk c greeting s chunk = username_chunk c s chunk
on_chunk c username s chunk = username_chunk c s chunk
on_chunk c password s chunk = password_chunk c s chunk
on_chunk c shell s chunk = shell_chunk c s chunk

-- Where the stop event is set: the password's loop ends as after a password.
abbrev pub stopped : Config → Phase → State → State
stopped c greeting s = s
stopped c username s = s
stopped c password s = record s { phase = shell; line = []; written = s.written ++ welcome c }
stopped c shell s = s

-- The outer loop shows the banner and asks for a user name.
abbrev pub greeted : Config → Phase → State → State
greeted c greeting s = record s {
  phase = username;
  written = s.written ++ (c.banner ++ codes "USERNAME: ");
}
greeted c username s = s
greeted c password s = s
greeted c shell s = s

-- A turn of whichever loop the simulation is in.
unfoldable pub turn : Config → State → Moment → Next
turn c s m =
    let t = greeted c s.phase s in
    let here = s.unread ++ m.arrived in
    if m.is_stopped
    then returned (stopped c s.phase s)
    else if is_nil here
    then goes_on (record t { unread = here })
    else if m.fails
    then returned t
    else goes_on (on_chunk c t.phase (record t { unread = drop 1024 here }) (take 1024 here))

unfoldable pub simulate : Config → State → List Moment → State
simulate c s [] = s
simulate c s (m ∷ ms) = elim (turn c s m) [ returned t ↦ t | goes_on t ↦ simulate c t ms ]
