-- ===== src/Security/Tests.antt =====
-- The rate limiter on three requests of one client, and a header that a client has begun.
use retro_bridge.Prelude.{
  ℕ, ◌*◌, ◌≤◌, ◌≡◌, refl, Bool, true, false, Option, none, some, List, [], ◌∷◌, arith, Text, codes,
  text_eq, second,
}
use retro_bridge.Model.{count}
use retro_bridge.Security.Store.{no_keys, check_memory, check_sqlite}
use retro_bridge.Security.Store.Window.{check_all, run}
use retro_bridge.Security.Store.Answers.{IsOrdered}
use retro_bridge.Security.Store.Equal.{check_sqlite-eq-check_all}
use retro_bridge.Security.Store.MemoryEqual.{check_memory-eq-check_all}
use retro_bridge.Security.Store.Bound.{let_through, in_span, count-let_through_le}
use retro_bridge.Security.Client.{Request, client_ip, is_trusted_proxy}

abbrev two : Text → ℕ
two k = 2

abbrev minute : Text → ℕ
minute k = 60

abbrev burst : List (Text × ℕ)
burst =
    (codes "a:login", 1 * second)
    ∷ (codes "a:login", 2 * second)
    ∷ (codes "a:login", 3 * second)
    ∷ (codes "a:login", 90 * second)
    ∷ []

burst-IsOrdered : IsOrdered 0 burst
burst-IsOrdered = (omega arith, (omega arith, (omega arith, (omega arith, tt))))

third_is_limited :
    run (λ key now. check_memory 2 60 key now) burst no_keys ≡ false ∷ false ∷ true ∷ false ∷ []
unfolding run check_memory
third_is_limited = refl

check_sqlite-eq-check_all_example :
    run (λ key now. check_sqlite false 2 60 key now) burst (record { rows = []; last_sweep = 0 })
    ≡ run (check_all two minute) burst []
check_sqlite-eq-check_all_example =
    check_sqlite-eq-check_all two minute (λ k t. false) burst (λ k. omega arith) burst-IsOrdered

check_memory-eq-check_all_example :
    run (λ key now. check_memory 2 60 key now) burst no_keys ≡ run (check_all two minute) burst []
check_memory-eq-check_all_example = check_memory-eq-check_all two minute burst burst-IsOrdered

count-let_through_le_example :
    let memory = run (λ key now. check_memory 2 60 key now) burst no_keys in
    let sqlite =
      run
        (λ key now. check_sqlite false 2 60 key now)
        burst
        (record { rows = []; last_sweep = 0 }) in
    (count (in_span two minute (codes "a:login") (5 * second)) (let_through burst memory) ≤ 2)
    × (count (in_span two minute (codes "a:login") (5 * second)) (let_through burst sqlite) ≤ 2)
count-let_through_le_example =
    count-let_through_le two minute (λ k t. false) burst (codes "a:login") (5 * second)
      (λ k. omega arith) burst-IsOrdered

-- Addresses compared as texts; no network contains any.
abbrev as_text : Text → Option Text
as_text s = some s

abbrev no_network : Text → Text → Option Bool
no_network ip net = some false

abbrev proxied : Request
proxied = record {
  endpoint = some (codes "auth.login");
  blueprint = some (codes "auth");
  path = codes "/login";
  remote_addr = some (codes "p");
  forwarded_for = none;
  trusted = codes "p" ∷ codes "q" ∷ [];
}

added_decides :
    client_ip as_text text_eq no_network (record proxied { forwarded_for = some (codes "c, q") })
    ≡ some (codes "c")
unfolding client_ip is_trusted_proxy
added_decides = refl
