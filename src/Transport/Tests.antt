-- ===== src/Transport/Tests.antt =====
-- The telnet negotiation and the socket wrapper on concrete traffic.
use retro_bridge.Transport.Open.{parsed, parse_host_port}
use retro_bridge.Transport.Open.Address.{parse_host_port-decimal}
use retro_bridge.Prelude.{
  codes, decimal, ◌≡◌, refl, true, false, some, List, [], ◌∷◌, ◌++◌, map, arith,
}
use mathlib.Core.List.{flatten}
use retro_bridge.Transport.Telnet.{
  iac, will, wont, do_, dont, scan, received as got, failed, Poll, poll, telnet_negotiate,
}
use retro_bridge.Transport.Telnet.Render.{
  Item, byte, escaped, request, sub, other, render, meaning, scan-render,
}
use retro_bridge.Transport.Telnet.Chunks.{arrived, telnet_negotiate-escape}
use retro_bridge.Transport.Socket.{
  Wrapper, new, Call, chunk, readable, idle, read_call, in_waiting_call, write_call, call,
}
use retro_bridge.Transport.Socket.Stream.{session, taken_all, session-Stream}

abbrev greeting : List Item
greeting =
    byte 76
    ∷ request will 1
    ∷ escaped
    ∷ sub (24 ∷ 1 ∷ [])
    ∷ other 241
    ∷ request do_ 3
    ∷ request wont 5
    ∷ byte 79
    ∷ []

scan-greeting : (scan (render greeting)).sent ≡ (iac ∷ dont ∷ 1 ∷ []) ∷ (iac ∷ wont ∷ 3 ∷ []) ∷ []
unfolding scan
scan-greeting = refl

scan-render_example : scan (render greeting) ≡ meaning greeting
scan-render_example = scan-render greeting (ground arith)

telnet_negotiate-escape_example :
    telnet_negotiate (map arrived ((1 ∷ 255 ∷ []) ∷ (255 ∷ 7 ∷ []) ∷ [])) ≡ (1 ∷ 255 ∷ 7 ∷ [], [])
unfolding flatten
telnet_negotiate-escape_example =
    telnet_negotiate-escape (1 ∷ 255 ∷ 7 ∷ []) ((1 ∷ 255 ∷ []) ∷ (255 ∷ 7 ∷ []) ∷ [])
      ((λ e. cc), ((λ e. cc), tt)) refl

abbrev polls : List Poll
polls =
    poll true (got (iac ∷ will ∷ 1 ∷ 65 ∷ iac ∷ []))
    ∷ poll false (got (do_ ∷ 3 ∷ []))
    ∷ poll true failed
    ∷ []

negotiate_polls :
    telnet_negotiate polls ≡ (65 ∷ [], (iac ∷ dont ∷ 1 ∷ []) ∷ (iac ∷ wont ∷ 3 ∷ []) ∷ [])
unfolding telnet_negotiate scan
negotiate_polls = refl

abbrev calls : List Call
calls =
    in_waiting_call (readable (chunk (1 ∷ 2 ∷ 3 ∷ [])))
    ∷ read_call 2 idle
    ∷ write_call (9 ∷ []) true
    ∷ read_call 4 (readable (chunk (4 ∷ [])))
    ∷ []

session-calls :
    session calls new
    ≡ some (1 ∷ 2 ∷ 3 ∷ 4 ∷ [], record { buf = []; eof = false; open_ = true; is_open = true })
unfolding new call
session-calls = refl

session-Stream_example : (1 ∷ 2 ∷ 3 ∷ 4 ∷ []) ++ [] ≡ new.buf ++ taken_all calls new
session-Stream_example =
    session-Stream calls new {w' = record { buf = []; eof = false; open_ = true; is_open = true }}
      session-calls

abbrev at_end : Wrapper
at_end = record { buf = []; eof = true; open_ = true; is_open = true }

parse_host_port-decimal_example :
    parse_host_port (codes "fe80::1" ++ b':' ∷ decimal 2323)
    ≡ parsed (codes "fe80::1", (false, 2323))
parse_host_port-decimal_example =
    parse_host_port-decimal (codes "fe80::1") 2323
      (refl, (refl, (refl, (refl, (refl, (refl, (refl, tt)))))))
