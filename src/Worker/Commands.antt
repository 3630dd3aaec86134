-- ===== src/Worker/Commands.antt =====
-- `_resolve_newline_mode`, `_resolve_cmds`, `_apply_newline` and `_fd_write` of worker.py.
pub mod Laws
use retro_bridge.Prelude.{
  ℕ, suc, ◌+◌, ◌-◌, Bool, true, false, ◌||◌, Option, none, some, List, [], ◌∷◌, ◌++◌, ◌==◌, leb,
  length, take, drop, if◌then◌else◌, Text, codes, text_eq, text_or, or_none,
}
use retro_bridge.Model.{Job, DevicePort}

-- `job.override or port.column`
abbrev pub overridden : Option Text → Option Text → Option Text
overridden none port = or_none port
overridden (some []) port = or_none port
overridden (some (c ∷ s)) port = some (c ∷ s)

unfoldable pub resolve_newline_mode : Job → DevicePort → Text
resolve_newline_mode job port =
    text_or (overridden job.override_newline_mode port.newline_mode) (codes "crlf")

-- `_resolve_cmds` is called with "pre" and with "post".
pub data Kind : Type 0 where
  pre post : Kind

abbrev pub raw_cmds : Job → DevicePort → Kind → Option Text
raw_cmds job port pre = overridden job.override_pre_transfer_cmds port.pre_transfer_cmds
raw_cmds job port post = overridden job.override_post_transfer_cmds port.post_transfer_cmds

-- What `json.loads` makes of a text: it raises, or gives a string or a list of strings. (A list of
-- other values, or another value, makes the later `encode` raise.)
pub data Json : Type 0 where
  decode_error : Json
  json_string : Text → Json
  json_list : List Text → Json

module _ (loads : Text → Json) where
  abbrev pub cmds_of : Text → Json → List Text
  cmds_of raw decode_error = raw ∷ []
  cmds_of raw (json_string s) = s ∷ []
  cmds_of raw (json_list cmds) = cmds

  abbrev pub cmds_from : Option Text → List Text
  cmds_from none = []
  cmds_from (some raw) = cmds_of raw (loads raw)

  unfoldable pub resolve_cmds : Job → DevicePort → Kind → List Text
  resolve_cmds job port kind = cmds_from (raw_cmds job port kind)

abbrev pub cr : ℕ
cr = 13

abbrev pub lf : ℕ
lf = 10

-- `_NEWLINE_SEQUENCES.get(mode, "\r\n")`
abbrev pub newline_sequence : Text → Text
newline_sequence mode =
    if text_eq mode (codes "cr")
    then cr ∷ []
    else if text_eq mode (codes "lf")
    then lf ∷ []
    else cr ∷ lf ∷ []

-- `cmd.endswith(("\r\n", "\r", "\n"))`: the last character is one of the two.
abbrev pub ends_line : Text → Bool
ends_line [] = false
ends_line (c ∷ []) = c == cr || c == lf
ends_line (c ∷ d ∷ s) = ends_line (d ∷ s)

unfoldable pub apply_newline : Text → Text → Text
apply_newline [] mode = []
apply_newline (c ∷ s) mode = if ends_line (c ∷ s) then c ∷ s else (c ∷ s) ++ newline_sequence mode

-- How `_fd_write` ends: it returns, it raises, or it still waits where the calls of `os.write` that
-- were made have not taken all.
pub data Written : Type 0 where
  all_written : ℕ → Written
  write_error : Written
  waiting : Written

-- The loop, over the results of `os.write` (0 for one that is not positive): how it ends, and the bytes
-- that have gone out.
unfoldable pub fd_write : List ℕ → ℕ → List ℕ → Written × List ℕ
fd_write bytes total [] = (if leb (length bytes) total then all_written total else waiting, [])
fd_write bytes total (n ∷ ns) =
    let (how, out) = fd_write bytes (total + n) ns in
    if leb (length bytes) total
    then (all_written total, [])
    else if n == 0
    then (write_error, [])
    else (how, take n (drop total bytes) ++ out)
