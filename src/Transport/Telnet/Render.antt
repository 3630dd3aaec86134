-- ===== src/Transport/Telnet/Render.antt =====
-- The telnet protocol as a grammar, and `_telnet_negotiate` on a chunk that follows it.
use retro_bridge.Prelude.{
  ℕ, ◌≡◌, ◌≢◌, refl, true, false, ◌||◌, List, [], ◌∷◌, ◌++◌, arith, ◌==◌, All,
}
use retro_bridge.Transport.Telnet.{iac, sb, se, Scan, done, emit, is_option, answer, scan, skip}

-- What a peer sends: a data byte, an escaped 255, an option request, a subnegotiation and its
-- content, or another command of two bytes.
pub data Item : Type 0 where
  byte : ℕ → Item
  escaped : Item
  request : ℕ → ℕ → Item
  sub : List ℕ → Item
  other : ℕ → Item

-- The bytes of an item.
abbrev pub bytes : Item → List ℕ
bytes (byte b) = b ∷ []
bytes escaped = iac ∷ iac ∷ []
bytes (request c o) = iac ∷ c ∷ o ∷ []
bytes (sub content) = iac ∷ sb ∷ content ++ iac ∷ se ∷ []
bytes (other c) = iac ∷ c ∷ []

-- A data byte is not IAC, a subnegotiation's content holds no IAC, and any other command is none
-- of those that have a meaning here.
abbrev pub IsItem : Item → Type 0
IsItem (byte b) = b ≢ iac
IsItem escaped = Unit
IsItem (request c o) = is_option c ≡ true
IsItem (sub content) = All (λ b. b ≢ iac) content
IsItem (other c) = ((is_option c || c == sb || c == iac) ≡ false)

-- What an item means: the data that it carries, and the answer that it wants.
abbrev pub means : Item → Scan → Scan
means (byte b) r = emit b r
means escaped r = emit iac r
means (request c o) r = answer c o r
means (sub content) r = r
means (other c) r = r

abbrev pub render : List Item → List ℕ
render [] = []
render (x ∷ xs) = bytes x ++ render xs

abbrev pub meaning : List Item → Scan
meaning [] = done false
meaning (x ∷ xs) = means x (meaning xs)

skip-content :
    (content rest : List ℕ)
    → All (λ b. b ≢ iac) content
    → skip ((content ++ iac ∷ se ∷ []) ++ rest) ≡ scan rest
unfolding scan
skip-content [] rest h = refl
skip-content (b ∷ []) rest h = ground arith
skip-content (b ∷ c ∷ content) rest h = ground (arith, skip-content (c ∷ content) rest h.1)

scan-bytes : (x : Item) (rest : List ℕ) → IsItem x → scan (bytes x ++ rest) ≡ means x (scan rest)
unfolding scan
scan-bytes (byte b) rest h = ground arith
scan-bytes escaped rest h = refl
scan-bytes (request c o) rest h = ground arith
scan-bytes (sub content) rest h = skip-content content rest h
scan-bytes (other c) rest h = ground arith

-- A chunk made of whole protocol items, in any order, of which the subnegotiations hold no 255, not
-- even an escaped one, is read back exactly: the data bytes and the escaped 255s are kept in order, each WILL and DO is answered once, in order, subnegotiations and
-- other commands leave nothing, and no IAC is pending at the end.
pub scan-render : (xs : List Item) → All IsItem xs → scan (render xs) ≡ meaning xs
unfolding scan
scan-render [] h = refl
scan-render (x ∷ xs) h = rw (scan-bytes x (render xs) h.0, scan-render xs h.1)
