-- ===== src/Transport/Telnet/Chunks.antt =====
-- `_telnet_negotiate` over a stream that `recv` cuts into chunks at arbitrary places.
use retro_bridge.Prelude.{
  ℕ, ◌≡◌, ◌≢◌, refl, sym, ap, ◌⊎◌, inl, inr, Bool, true, false, List, [], ◌∷◌, ◌++◌, map, arith,
  ◌==◌, if◌then◌else◌, All, Bool-cases,
}
use mathlib.Core.List.{flatten}
use retro_bridge.Transport.Telnet.{
  iac, Scan, emit, is_option, scan, command, resume, scan_chunk, received, Poll, poll, poll_all,
  telnet_negotiate,
}

-- A peer sends a data byte 255 as IAC IAC.
abbrev pub escape : List ℕ → List ℕ
escape [] = []
escape (b ∷ p) = if b == iac then iac ∷ iac ∷ escape p else b ∷ escape p

-- A chunk that arrives in time.
abbrev pub arrived : List ℕ → Poll
arrived c = poll true (received c)

-- The code handles the byte behind an IAC in two places; they agree.
pub resume-eq-command : (t : List ℕ) → resume t ≡ command t
unfolding resume scan
resume-eq-command [] = refl
resume-eq-command (b ∷ t) = ground arith

-- The bytes still to come stand for the payload `p`, of which a first IAC may have been read.
abbrev Remains : Bool → List ℕ → List ℕ → Type 0
Remains false rest p = rest ≡ escape p
Remains true rest p = (q : List ℕ) × (p ≡ iac ∷ q) × (rest ≡ iac ∷ escape q)

-- What has been read is a first part of the payload.
abbrev Splits : Scan → List ℕ → List ℕ → Type 0
Splits r rest p = (q : List ℕ) × (p ≡ r.out ++ q) × (r.sent ≡ []) × Remains r.pending rest q

emit-Splits :
    (b : ℕ) (r : Scan) (rest p : List ℕ) → Splits r rest p → Splits (emit b r) rest (b ∷ p)
emit-Splits b r rest p (q, e, s, m) = (q, ap (◌∷◌ b) e, s, m)

scan-iac : (b : ℕ) (t : List ℕ) → b ≡ iac → scan (b ∷ t) ≡ command t
unfolding scan
scan-iac b t h = ground arith

scan_escaped : (b c : ℕ) (t : List ℕ) → b ≡ iac → c ≡ iac → scan (b ∷ c ∷ t) ≡ emit iac (scan t)
unfolding scan
scan_escaped b c t h k = ground arith

scan_data : (b : ℕ) (t : List ℕ) → b ≢ iac → scan (b ∷ t) ≡ emit b (scan t)
unfolding scan
scan_data b t h = ground arith

command-iac : (c : ℕ) (t : List ℕ) → c ≡ iac → command (c ∷ t) ≡ emit iac (scan t)
unfolding scan
command-iac c t h = ground arith

-- The first byte of a payload, escaped.
escape-cases :
    (x : ℕ) (p : List ℕ)
    → (x ≡ iac) × (escape (x ∷ p) ≡ iac ∷ iac ∷ escape p)
      ⊎ (x ≢ iac) × (escape (x ∷ p) ≡ x ∷ escape p)
escape-cases x p = elim (Bool-cases (x == iac)) [
  | inl e ↦ inl (ground arith, ground arith)
  | inr e ↦ inr (ground arith, ground arith)
]

scan-Splits : (t p rest : List ℕ) → t ++ rest ≡ escape p → Splits (scan t) rest p
scan-Splits [] p rest h = unfold scan in (p, refl, refl, h)
scan-Splits (b ∷ t) [] rest h = cc
scan-Splits (b ∷ []) (x ∷ p) rest h = elim (escape-cases x p) [
  | inl (e, k) ↦
      let first : b ≡ iac = cc in
      let later : rest ≡ iac ∷ escape p = cc in
      rw (scan-iac b [] first) (unfold scan in (x ∷ p, refl, refl, (p, cc, later)))
  | inr (e, k) ↦
      let first : b ≡ x = cc in
      let later : rest ≡ escape p = cc in
      rw (first, scan_data x [] e) (unfold scan in (p, refl, refl, later))
]
scan-Splits (b ∷ c ∷ t) (x ∷ p) rest h = elim (escape-cases x p) [
  | inl (e, k) ↦
      let first : b ≡ iac = cc in
      let second : c ≡ iac = cc in
      let later : t ++ rest ≡ escape p = cc in
      rw (scan_escaped b c t first second, e)
        (emit-Splits iac (scan t) rest p (scan-Splits t p rest later))
  | inr (e, k) ↦
      let first : b ≡ x = cc in
      let later : c ∷ (t ++ rest) ≡ escape p = cc in
      rw (first, scan_data x (c ∷ t) e)
        (emit-Splits x (scan (c ∷ t)) rest p (scan-Splits (c ∷ t) p rest later))
]

scan_chunk-Splits :
    (pending : Bool) (b : ℕ) (t p rest : List ℕ)
    → Remains pending (b ∷ (t ++ rest)) p
    → Splits (scan_chunk pending (b ∷ t)) rest p
unfolding scan_chunk
scan_chunk-Splits false b t p rest h = scan-Splits (b ∷ t) p rest h
scan_chunk-Splits true b t p rest (q, e, k) =
    let first : b ≡ iac = cc in
    let later : t ++ rest ≡ escape q = cc in
    rw (resume-eq-command (b ∷ t), command-iac b t first, e)
      (emit-Splits iac (scan t) rest q (scan-Splits t q rest later))

escape-nil : (p : List ℕ) → escape p ≡ [] → p ≡ []
escape-nil [] h = refl
escape-nil (x ∷ p) h = elim (escape-cases x p) [ inl (e, k) ↦ cc | inr (e, k) ↦ cc ]

Remains-nil : (pending : Bool) (p : List ℕ) → Remains pending [] p → p ≡ []
Remains-nil false p h = escape-nil p (sym h)
Remains-nil true p (q, e, k) = cc

poll_all-arrived :
    (pending : Bool) (cs : List (List ℕ)) (p : List ℕ)
    → All (λ c. c ≢ []) cs
    → Remains pending (flatten cs) p
    → ((poll_all pending (map arrived cs)).out ≡ p)
      × ((poll_all pending (map arrived cs)).sent ≡ [])
unfolding poll_all flatten
poll_all-arrived pending [] p h m = (sym (Remains-nil pending p m), refl)
poll_all-arrived pending ([] ∷ cs) p h m = absurd (h.0 refl)
poll_all-arrived pending ((b ∷ t) ∷ cs) p h m =
    let r = scan_chunk pending (b ∷ t) in
    let (q, e, s, k) = scan_chunk-Splits pending b t p (flatten cs) m in
    let (o, u) = poll_all-arrived r.pending cs q h.1 k in (rw (o) (sym e), rw (s) u)

-- Any payload, escaped by the peer and cut into chunks at any places, also between the two bytes of
-- an escaped 255, is returned unchanged, and nothing is sent.
pub telnet_negotiate-escape :
    (p : List ℕ) (cs : List (List ℕ))
    → All (λ c. c ≢ []) cs
    → flatten cs ≡ escape p
    → telnet_negotiate (map arrived cs) ≡ (p, [])
unfolding telnet_negotiate
telnet_negotiate-escape p cs h e = let (o, s) = poll_all-arrived false cs p h e in λ i. (o i, s i)

-- Where a chunk ends between an option command and its option byte, that byte, unless it is 255, is
-- returned as data; in one chunk with its command it is dropped.
pub telnet_negotiate-split_option :
    (cmd opt : ℕ)
    → is_option cmd ≡ true
    → opt ≢ iac
    → ((telnet_negotiate (arrived (iac ∷ cmd ∷ []) ∷ arrived (opt ∷ []) ∷ [])).0 ≡ opt ∷ [])
      × ((telnet_negotiate (arrived (iac ∷ cmd ∷ opt ∷ []) ∷ [])).0 ≡ [])
unfolding telnet_negotiate scan
telnet_negotiate-split_option cmd opt h k = (ground arith, ground arith)
