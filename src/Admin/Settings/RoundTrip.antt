-- ===== src/Admin/Settings/RoundTrip.antt =====
-- What is saved is what the form shows the next time.
use retro_bridge.Prelude.{
  ℕ, ◌*◌, ◌≡◌, refl, ap, ◌∙◌, sym, Bool, true, false, not, ◌&&◌, none, some, List, [], ◌∷◌, ◌++◌,
  if◌then◌else◌, Text, text_eq, text_eq→eq, text_eq_self, decimal, parse_int-decimal, arith,
  Bool-cases, inl, inr,
}
use retro_bridge.Admin.Settings.{
  Kind, Field, megabytes, number, minutes, boolean, plain, optional_number, Entry, setting_map,
  format, reversed, safe_int, or_zero, safe_bool, floor_div, Settings, get, put, is_password,
  is_blank, save_one, save, converted, load,
}

get-put_same : (key value : Text) (t : Settings) → get key (put key value t) ≡ some value
get-put_same key value [] = rw (text_eq_self key) refl
get-put_same key value ((k, v) ∷ t) = elim (Bool-cases (text_eq k key)) [
  | inl e ↦ rw (e, e) refl
  | inr e ↦ rw (e, e) (get-put_same key value t)
]

get-put_other :
    (key other value : Text) (t : Settings)
    → text_eq other key ≡ false
    → get key (put other value t) ≡ get key t
get-put_other key other value [] h = rw h refl
get-put_other key other value ((k, v) ∷ t) h = elim (Bool-cases (text_eq k other)) [
  | inl e ↦ rw e (
      ap (λ b. if b then some value else get key t) (differs e)
      ∙ ap (λ b. if b then some v else get key t) (sym (differs e)))
  | inr e ↦ rw e (ap (λ o. if text_eq k key then some v else o) (get-put_other key other value t h))
]
  where
    differs : text_eq k other ≡ true → text_eq k key ≡ false
    differs e = ap (λ n. text_eq n key) (text_eq→eq k other e) ∙ h

-- No entry has the key.
abbrev pub is_new : Text → List Entry → Bool
is_new key [] = true
is_new key (e ∷ es) = not (text_eq e.key key) && is_new key es

abbrev pub all_new : List Entry → Bool
all_new [] = true
all_new (e ∷ es) = is_new e.key es && all_new es

setting_map-all_new : all_new setting_map ≡ true
unfolding setting_map
setting_map-all_new = refl

get-save_other :
    (es : List Entry) (form : (e : Entry) → Field e.kind) (key : Text) (t : Settings)
    → is_new key es ≡ true
    → get key (save es form t) ≡ get key t
unfolding save
get-save_other [] form key t h = refl
get-save_other (e ∷ es) form key t h =
    get-save_other es form key (save_one e form t) (ground (arith, h))
    ∙ by_test (is_password e && is_blank e.kind (form e))
  where
    by_test :
        (b : Bool)
        → get key (if◌then◌else◌ {A = Settings} b t (put e.key (format e.kind (form e)) t))
          ≡ get key t
    by_test true = refl
    by_test false = get-put_other key e.key (format e.kind (form e)) t (ground (arith, h))

get-save :
    (before after : List Entry) (e : Entry) (form : (e : Entry) → Field e.kind) (t : Settings)
    → all_new (before ++ e ∷ after) ≡ true
    → is_password e ≡ false
    → get e.key (save (before ++ e ∷ after) form t) ≡ some (format e.kind (form e))
unfolding save
get-save [] after e form t h p =
    get-save_other after form e.key (save_one e form t) (ground (arith, h))
    ∙ rw p (get-put_same e.key (format e.kind (form e)) t)
get-save (d ∷ before) after e form t h p =
    get-save before after e form (save_one d form t) (ground (arith, h)) p

-- A number that is not negative, and a port that is given.
abbrev pub IsGiven : (kind : Kind) → Field kind → Type 0
IsGiven megabytes n = n.0 ≡ false
IsGiven number n = n.0 ≡ false
IsGiven minutes n = n.0 ≡ false
IsGiven boolean b = Unit
IsGiven plain s = Unit
IsGiven optional_number n = (k : ℕ) × (n ≡ some (false, k))

safe_int-decimal : (n : ℕ) → safe_int (decimal n) ≡ (false, n)
safe_int-decimal n = ap or_zero (parse_int-decimal n)

reversed-format :
    (kind : Kind) (v : Field kind) → IsGiven kind v → reversed kind (format kind v) ≡ v
unfolding safe_bool
reversed-format megabytes (false, n) h =
    ap (floor_div 1048576) (safe_int-decimal (n * 1048576)) ∙ ap (λ k. (false, k)) (omega arith)
reversed-format megabytes (true, n) h = absurd cc
reversed-format number (false, n) h = safe_int-decimal n
reversed-format number (true, n) h = absurd cc
reversed-format minutes (false, n) h =
    ap (floor_div 60) (safe_int-decimal (n * 60)) ∙ ap (λ k. (false, k)) (omega arith)
reversed-format minutes (true, n) h = absurd cc
reversed-format boolean true h = refl
reversed-format boolean false h = refl
reversed-format plain s h = refl
reversed-format optional_number none (k, e) = absurd cc
reversed-format optional_number (some (false, n)) h = parse_int-decimal n
reversed-format optional_number (some (true, n)) (k, e) = absurd cc

-- Every setting but the password, saved from a valid form with a port, is what the form shows when it
-- is opened again: no field overwrites another, and the units and the texts of numbers and truth values
-- are undone.
pub load-save :
    (before after : List Entry) (e : Entry) (form : (e : Entry) → Field e.kind) (t : Settings)
    → setting_map ≡ before ++ e ∷ after
    → is_password e ≡ false
    → IsGiven e.kind (form e)
    → load e (save setting_map form t) ≡ some (form e)
unfolding load
load-save before after e form t h p g = rw p (
    ap (converted e.kind) (
      ap (λ es. get e.key (save es form t)) h
      ∙ get-save before after e form t (sym (ap all_new h) ∙ setting_map-all_new) p)
    ∙ ap some (reversed-format e.kind (form e) g))
