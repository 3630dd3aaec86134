-- ===== src/Transport/Open/Address.antt =====
-- Addresses of a host and a port.
use retro_bridge.Prelude.{
  ℕ, ◌≡◌, refl, ap, ◌∙◌, false, none, some, [], ◌∷◌, ◌++◌, ◌==◌, arith, All-append, Text, decimal,
  parse_int-decimal, AllDigits, IsSolid, solid-str_strip, digits-IsSolid, decimal-digits,
}
use retro_bridge.Transport.Open.{
  parsed, rsplit_colon, after_first, parse_address, parse_parts, with_colon, parse_host_port,
  port_number,
}

no_colon : (s : Text) → AllDigits s → rsplit_colon s ≡ none
no_colon [] h = refl
no_colon (c ∷ s) h =
    let digit : (c == b':') ≡ false = ground (arith, h.0) in
    ap (λ o. after_first c o s) (no_colon s h.1) ∙ rw digit refl

rsplit_colon-append :
    (host port : Text) → AllDigits port → rsplit_colon (host ++ b':' ∷ port) ≡ some (host, port)
rsplit_colon-append [] port h = ap (λ o. after_first b':' o port) (no_colon port h)
rsplit_colon-append (c ∷ host) port h =
    ap (λ o. after_first c o (host ++ b':' ∷ port)) (rsplit_colon-append host port h)

parse_address-colon :
    (host port : Text)
    → rsplit_colon (host ++ b':' ∷ port) ≡ some (host, port)
    → parse_address (host ++ b':' ∷ port) ≡ parse_parts (some (host, port))
parse_address-colon [] port h = ap (with_colon (b':' ∷ port)) h
parse_address-colon (c ∷ host) port h = ap (with_colon (c ∷ host ++ b':' ∷ port)) h

-- An address that is written as a host without spaces, a colon and a number is parsed into that host and
-- that number. The host may contain colons itself.
pub parse_host_port-decimal :
    (host : Text) (n : ℕ)
    → IsSolid host
    → parse_host_port (host ++ b':' ∷ decimal n) ≡ parsed (host, (false, n))
unfolding parse_host_port
parse_host_port-decimal host n h =
    let digits = decimal-digits n in
    let solid = All-append _ host (b':' ∷ decimal n) h (refl, digits-IsSolid (decimal n) digits) in
    ap parse_address (solid-str_strip (host ++ b':' ∷ decimal n) solid)
    ∙ (parse_address-colon host (decimal n) (rsplit_colon-append host (decimal n) digits)
        ∙ (ap (port_number host) (parse_int-decimal n)
            ∙ ap (λ t. parsed (t, (false, n))) (solid-str_strip host h)))
