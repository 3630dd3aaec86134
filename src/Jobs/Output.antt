-- ===== src/Jobs/Output.antt =====
-- Reading a job's output file: `read_output_tail` of retrobridge/jobs/utils.py. A file that is not
-- there is `none`; `decode` is UTF-8 with errors="replace".
pub mod Lines
pub mod Blocks
pub mod Tail
use retro_bridge.Prelude.{
  ℕ, zero, suc, ◌+◌, ◌-◌, Bool, true, false, not, ◌&&◌, Option, none, some, List, [], ◌∷◌, ◌++◌,
  ◌==◌, leb, ltb, min, map, if◌then◌else◌, Text, length, take, drop,
}
use retro_bridge.Model.{count}

-- `text.replace("\r\n", "\n").replace("\r", "\n")`
abbrev pub universal : Text → Text
universal [] = []
universal (c ∷ []) = (if c == 13 then 10 else c) ∷ []
universal (c ∷ d ∷ s) =
    if c == 13 && d == 10
    then universal (d ∷ s)
    else (if c == 13 then 10 else c) ∷ universal (d ∷ s)

abbrev pub onto_first : ℕ → List Text → List Text
onto_first c [] = (c ∷ []) ∷ []
onto_first c (line ∷ lines) = (c ∷ line) ∷ lines

-- `text.split("\n")`
abbrev pub split : Text → List Text
split [] = [] ∷ []
split (c ∷ s) = if c == 10 then [] ∷ split s else onto_first c (split s)

abbrev pub ends_newline : Text → Bool
ends_newline [] = false
ends_newline (c ∷ []) = c == 10
ends_newline (c ∷ d ∷ s) = ends_newline (d ∷ s)

-- `lines[-1] == ""`
abbrev pub last_is_empty : List Text → Bool
last_is_empty [] = false
last_is_empty ([] ∷ []) = true
last_is_empty ((_ ∷ _) ∷ []) = false
last_is_empty (_ ∷ line ∷ lines) = last_is_empty (line ∷ lines)

-- `lines.pop()`
abbrev pub pop_last : List Text → List Text
pop_last [] = []
pop_last (_ ∷ []) = []
pop_last (x ∷ y ∷ lines) = x ∷ pop_last (y ∷ lines)

abbrev pub without_end : Text → List Text → List Text
without_end text lines = if last_is_empty lines && ends_newline text then pop_last lines else lines

-- `line.rstrip("\n")`
abbrev pub rstrip_newlines : Text → Text
rstrip_newlines [] = []
rstrip_newlines (c ∷ s) = put c (rstrip_newlines s)
  where
    put : ℕ → Text → Text
    put c [] = if c == 10 then [] else c ∷ []
    put c (d ∷ t) = c ∷ d ∷ t

-- The last `n`: `lines[-n:]` where there are more.
abbrev pub last : ℕ → List Text → List Text
last n lines = if ltb n (length lines) then drop (length lines - n) lines else lines

abbrev pub is_byte : ℕ → ℕ → Bool
is_byte c b = b == c

-- The loop that reads blocks from the end: how far it comes, and what it has read.
unfoldable pub read_blocks : ℕ → ℕ → List ℕ → ℕ → List ℕ → ℕ → ℕ × List ℕ
read_blocks zero tail file pos read newlines = (pos, read)
read_blocks (suc fuel) tail file pos read newlines =
    let step = min 8192 pos in
    let chunk = take step (drop (pos - step) file) in
    let rest =
      read_blocks fuel tail file (pos - step) (chunk ++ read)
        (newlines + count (is_byte 10) chunk) in
    if ltb 0 pos && leb newlines tail then rest else (pos, read)

-- `for line in f`: the lines of a text, of which an empty text has none.
abbrev pub iterate : Text → List Text
iterate [] = []
iterate (c ∷ s) = without_end (c ∷ s) (split (c ∷ s))

module _ (decode : List ℕ → Text) where
  -- A file that is read in text mode.
  abbrev pub all_lines : List ℕ → List Text
  all_lines file = let text = universal (decode file) in map rstrip_newlines (iterate text)

  abbrev pub tail_lines : ℕ → List ℕ → List Text
  tail_lines tail file =
      let (pos, read) = read_blocks (length file) tail file (length file) [] 0 in
      let text = universal (decode read) in
      let lines = if ltb 0 pos then drop 1 (split text) else split text in
      map rstrip_newlines (last tail (without_end text lines))

  abbrev pub read_tail : Option ℕ → List ℕ → List Text
  read_tail none file = all_lines file
  read_tail (some zero) file = all_lines file
  read_tail (some (suc n)) [] = []
  read_tail (some (suc n)) (b ∷ bytes) = tail_lines (suc n) (b ∷ bytes)

  unfoldable pub read_output_tail : Option (List ℕ) → Option ℕ → List Text
  read_output_tail none tail = []
  read_output_tail (some file) tail = read_tail tail file
