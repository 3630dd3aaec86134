-- ===== src/Api/Events.antt =====
-- The stream of a job's changes: `job_events` of retrobridge/api/routes.py.
pub mod Stream
use retro_bridge.Prelude.{
  ℕ, zero, suc, ◌+◌, ◌-◌, Bool, true, false, not, ◌&&◌, Option, none, some, List, [], ◌∷◌, ◌++◌,
  ltb, if◌then◌else◌, Text, take, drop,
}
use retro_bridge.Jobs.Output.{universal}
use retro_bridge.Model.{Status, queued, running, completed, failed, canceled, is_finished}

-- What a turn of the loop meets: the row's status behind the refresh, the size of the output file where
-- the job has one and it can be asked for, what the file holds where it can be opened, and that
-- the stream's lifetime is over.
pub record Poll : Type 0 where
  pub status : Status
  pub size : Option ℕ
  pub file : Option (List ℕ)
  pub is_over : Bool

pub data Event : Type 0 where
  status_event : Status → Event
  output_event : Text → Event
  done_event : Status → Bool → Event
  heartbeat : Event

pub record State : Type 0 where
  pub last_status : Status
  pub last_size : ℕ

abbrev pub status_number : Status → ℕ
status_number queued = 0
status_number running = 1
status_number completed = 2
status_number failed = 3
status_number canceled = 4

abbrev pub same_status : Status → Status → Bool
same_status a b =
    not (ltb (status_number a) (status_number b)) && not (ltb (status_number b) (status_number a))

abbrev pub report_status : Status → State → List Event × State
report_status status s =
    if same_status status s.last_status
    then ([], s)
    else (status_event status ∷ [], record s { last_status = status })

module _ (decode : List ℕ → Text) where
  -- `f.seek(last)` and `f.read(size - last)` in text mode: the size counts bytes, `read` the characters
  -- behind the decoding, with each line's end as one newline.
  abbrev pub new_text : ℕ → ℕ → List ℕ → Text
  new_text last size file = take (size - last) (universal (decode (drop last file)))

  abbrev pub read_new : ℕ → State → Option (List ℕ) → List Event × State
  read_new size s none = ([], s)
  read_new size s (some file) =
      (output_event (new_text s.last_size size file) ∷ [], record s { last_size = size })

  abbrev pub report_output : Poll → State → Option ℕ → List Event × State
  report_output p s none = ([], s)
  report_output p s (some size) = if ltb s.last_size size then read_new size s p.file else ([], s)

  -- `generate`, until the polls end.
  unfoldable pub generate : State → List Poll → List Event × State
  generate s [] = ([], s)
  generate s (p ∷ ps) =
      let a = report_status p.status s in
      let b = report_output p a.1 p.size in
      let rest = generate b.1 ps in
      if is_finished p.status
      then (a.0 ++ (b.0 ++ done_event p.status false ∷ []), b.1)
      else if p.is_over
      then (a.0 ++ (b.0 ++ done_event p.status true ∷ []), b.1)
      else (a.0 ++ (b.0 ++ heartbeat ∷ rest.0), rest.1)

  -- `job_events`, for the job as it is when the request comes.
  unfoldable pub job_events : Status → List Poll → List Event
  job_events status ps = (generate (record { last_status = status; last_size = 0 }) ps).0
