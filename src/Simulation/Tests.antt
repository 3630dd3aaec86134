-- ===== src/Simulation/Tests.antt =====
-- A small block that is sent, and a session on the simulated terminal.
use retro_bridge.Prelude.{
  ℕ, suc, zero, ◌≡◌, ◌<◌, refl, true, false, List, [], ◌∷◌, ◌++◌, arith, All, codes,
}
use retro_bridge.Simulation.Receiver.{Moment, nak, judge, strict_chunk, turn, goes_on}
use retro_bridge.Simulation.Receiver.Errors.{block_of, set_at, judge-one_error}
use retro_bridge.Simulation.Receiver.Blocks.{comes, repeat, between, turn-in_one_piece}
use retro_bridge.Simulation.Terminal.{Config, Shell, type_bytes, newline}
use retro_bridge.Simulation.Terminal
use retro_bridge.Simulation.Terminal.Password.{asked, turn-password}

abbrev program : List ℕ
program = repeat 128 65

are_bytes : (n : ℕ) → All (λ x. x < 256) (repeat n 65)
are_bytes zero = tt
are_bytes (suc n) = (omega arith, are_bytes n)

judge-one_error_example : judge 1 (set_at 7 66 (block_of 1 program)) ≡ (nak, 1)
judge-one_error_example =
    judge-one_error 1 1 7 66 program refl (omega arith) (are_bytes 128) (omega arith) (omega arith)
      (λ e. absurd (omega (arith, e)))

abbrev late : Moment
late = record { is_stopped = false; is_late = true; arrived = []; fails = false }

whole_block_lost :
    turn strict_chunk (between 1 []) (comes (1 ∷ block_of 1 program)) (late ∷ [])
    ≡ goes_on (between 1 []) []
whole_block_lost = turn-in_one_piece 1 program [] refl late refl refl

abbrev pdp11 : Config
pdp11 = record {
  name = codes "pdp11";
  banner = codes "RSX-11M";
  prompt = codes "> ";
  commands = (codes "dir", codes "DU0:") ∷ (codes "logout", codes "BYE") ∷ [];
}

abbrev idle : Shell
idle = record { line = []; written = codes "> "; is_logged_out = false }

abbrev keys : List ℕ
keys = codes "dor" ++ (127 ∷ 127 ∷ codes "ir")

are_typed : (type_bytes pdp11 idle keys).line ≡ codes "dir"
unfolding type_bytes
are_typed = refl

runs_dir :
    (type_bytes pdp11 idle (codes " DIR" ++ 13 ∷ [])).written
    ≡ codes ">  DIR" ++ (newline ++ codes "DU0:> ")
unfolding type_bytes
runs_dir = refl

password_hidden :
    Terminal.turn pdp11 (asked [] []) (comes (codes "ab"))
    ≡ Terminal.turn pdp11 (asked [] []) (comes (codes "cd"))
password_hidden = turn-password pdp11 [] [] (codes "ab") (codes "cd") refl (omega arith) refl
