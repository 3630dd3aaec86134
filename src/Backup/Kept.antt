-- ===== src/Backup/Kept.antt =====
-- What stays behind a pruning.
use retro_bridge.Prelude.{
  ℕ, zero, suc, ◌+◌, ◌≤◌, ◌<◌, ◌≡◌, refl, false, ◌⊎◌, ap, ◌∙◌, inl, inr, Bool, true, not, ◌&&◌,
  List, [], ◌∷◌, ltb, length, take, drop, arith, All, All-append, Bool-cases, length-take,
  take-append-drop,
}
use retro_bridge.Model.{filter, count, count-append}
use retro_bridge.Backup.{
  Backup, Pruned, is_backup, newest_first, is_old, by_age, by_count, prune_backups,
}
use retro_bridge.Backup.Order.{
  IsNewest, IsOrdered, newest_first-IsOrdered, filter-IsOrdered, count-newest_first, drop-IsNewest,
  take-IsOrdered,
}

-- The days are set, and the backup is older.
abbrev pub is_expired : ℕ → ℕ → Backup → Bool
is_expired now days b = ltb 0 days && is_old now days b

-- As many as the number that is set are kept, and none that is older than the one removed.
pub record IsSurplus (limit : ℕ) (kept : List Backup) (r : Backup) : Type 0 where
  pub set : 0 < limit
  pub full : length kept ≡ limit
  pub no_newer : All (λ k. r.modified ≤ k.modified) kept

-- A removed backup is too old, or one too many.
abbrev pub IsFair : ℕ → ℕ → ℕ → List Backup → List Backup → Type 0
IsFair now days limit kept removed =
    All (λ r. (is_expired now days r ≡ true) ⊎ IsSurplus limit kept r) removed

add_newest :
    (b : Backup) (kept removed : List Backup)
    → IsNewest b.modified removed
    → All (λ r. All (λ k. r.modified ≤ k.modified) kept) removed
    → All (λ r. All (λ k. r.modified ≤ k.modified) (b ∷ kept)) removed
add_newest b kept [] n h = tt
add_newest b kept (r ∷ removed) n h = ((n.0, h.0), add_newest b kept removed n.1 h.1)

none_kept :
    (removed : List Backup) → All (λ r. All (λ (k : Backup). r.modified ≤ k.modified) []) removed
none_kept [] = tt
none_kept (r ∷ removed) = (tt, none_kept removed)

drop-oldest :
    (n : ℕ) (backups : List Backup)
    → IsOrdered backups
    → All (λ r. All (λ k. r.modified ≤ k.modified) (take n backups)) (drop n backups)
drop-oldest zero backups o = none_kept backups
drop-oldest (suc n) [] o = tt
drop-oldest (suc n) (b ∷ backups) o =
    add_newest b (take n backups) (drop n backups) (drop-IsNewest n b.modified backups o.0)
      (drop-oldest n backups o.1)

none_newer :
    (now days limit : ℕ) (kept removed : List Backup)
    → 0 < limit
    → length kept ≡ limit
    → All (λ r. All (λ k. r.modified ≤ k.modified) kept) removed
    → IsFair now days limit kept removed
none_newer now days limit kept [] s f h = tt
none_newer now days limit kept (r ∷ removed) s f h = (
  inr (record { set = s; full = f; no_newer = h.0 }),
  none_newer now days limit kept removed s f h.1,
)

all_old :
    (now days limit : ℕ) (kept backups : List Backup)
    → ltb 0 days ≡ true
    → IsFair now days limit kept (filter (is_old now days) backups)
all_old now days limit kept [] e = tt
all_old now days limit kept (b ∷ backups) e = elim (Bool-cases (is_old now days b)) [
  | inl o ↦ rw o (inl (ground (arith, e, o)), all_old now days limit kept backups e)
  | inr y ↦ rw y (all_old now days limit kept backups e)
]

none_expired :
    (now days : ℕ) (backups : List Backup)
    → All (λ b. is_expired now days b ≡ false) (filter (λ b. not (is_old now days b)) backups)
none_expired now days [] = tt
none_expired now days (b ∷ backups) = elim (Bool-cases (is_old now days b)) [
  | inl o ↦ rw o (none_expired now days backups)
  | inr y ↦ rw y (ground (arith, y), none_expired now days backups)
]

no_days :
    (now days : ℕ) (backups : List Backup)
    → ltb 0 days ≡ false
    → All (λ b. is_expired now days b ≡ false) backups
no_days now days [] e = tt
no_days now days (b ∷ backups) e = (ground (arith, e), no_days now days backups e)

All-take {ℓ} : {A : Type ℓ} (P : A → Type 0) (n : ℕ) (xs : List A) → All P xs → All P (take n xs)
All-take P zero xs h = tt
All-take P (suc n) [] h = tt
All-take P (suc n) (x ∷ xs) h = (h.0, All-take P n xs h.1)

count-both :
    (p q : Backup → Bool) (backups : List Backup)
    → count q (filter p backups) ≡ count (λ b. p b && q b) backups
count-both p q [] = refl
count-both p q (b ∷ backups) = ground (arith, count-both p q backups)

count-filter :
    (p q : Backup → Bool) (backups : List Backup)
    → count p (filter (λ b. not (q b)) backups) + count p (filter q backups) ≡ count p backups
count-filter p q [] = omega arith
count-filter p q (b ∷ backups) = ground (arith, count-filter p q backups)

count-take-drop :
    (p : Backup → Bool) (n : ℕ) (backups : List Backup)
    → count p (take n backups) + count p (drop n backups) ≡ count p backups
count-take-drop p n backups = omega (
  arith,
  count-append p (take n backups) (drop n backups),
  ap (count p) (take-append-drop n backups),
)

-- What a pruning promises.
pub record IsPruned (now days limit : ℕ) (files : List Backup) (p : Pruned) : Type 0 where
  pub only_backups :
      (q : Backup → Bool)
      → count q p.kept + count q p.removed ≡ count (λ b. is_backup b && q b) files
  pub ordered : IsOrdered p.kept
  pub fresh : All (λ k. is_expired now days k ≡ false) p.kept
  pub fair : IsFair now days limit p.kept p.removed
  pub bounded : (limit ≡ 0) ⊎ (length p.kept ≤ limit)

-- What the first rule promises: the removed backups are old, whatever is kept in the end.
record IsAged (now days limit : ℕ) (files : List Backup) (p : Pruned) : Type 0 where
  split :
      (q : Backup → Bool)
      → count q p.kept + count q p.removed ≡ count (λ b. is_backup b && q b) files
  young : All (λ k. is_expired now days k ≡ false) p.kept
  in_order : IsOrdered p.kept
  old : (kept : List Backup) → IsFair now days limit kept p.removed

by_age-IsAged :
    (now days limit : ℕ) (files sorted : List Backup)
    → ((q : Backup → Bool) → count q sorted ≡ count (λ b. is_backup b && q b) files)
    → IsOrdered sorted
    → IsAged now days limit files (by_age now days sorted)
by_age-IsAged now days limit files sorted same o = elim (Bool-cases (ltb 0 days)) [
  | inl e ↦ rw e record {
    split = λ q. count-filter q (is_old now days) sorted ∙ same q;
    in_order = filter-IsOrdered (λ b. not (is_old now days b)) sorted o;
    young = none_expired now days sorted;
    old = λ kept. all_old now days limit kept sorted e;
  }
  | inr e ↦ rw e record {
    split = λ q. omega (arith, same q);
    in_order = o;
    young = no_days now days sorted e;
    old = λ kept. tt;
  }
]

by_count-IsPruned :
    (now days limit : ℕ) (files : List Backup) (p : Pruned)
    → IsAged now days limit files p
    → IsPruned now days limit files (by_count limit p)
by_count-IsPruned now days limit files p a = elim (Bool-cases (ltb 0 limit)) [
  | inr e ↦ rw e record {
    only_backups = a.split;
    fresh = a.young;
    ordered = a.in_order;
    fair = a.old p.kept;
    bounded = inl (ground (arith, e));
  }
  | inl e ↦ elim (Bool-cases (ltb limit (length p.kept))) [
    | inr g ↦
        rw (e, g)
          record {
            only_backups = a.split;
            fresh = a.young;
            ordered = a.in_order;
            fair = a.old p.kept;
            bounded = inr (ground (arith, g));
          }
    | inl g ↦
        rw (e, g)
          record {
            fresh = All-take (λ k. is_expired now days k ≡ false) limit p.kept a.young;
            only_backups = λ q. omega (
              arith,
              a.split q,
              count-append q p.removed (drop limit p.kept),
              count-take-drop q limit p.kept,
            );
            ordered = take-IsOrdered limit p.kept a.in_order;
            fair = All-append _ p.removed (drop limit p.kept) (a.old (take limit p.kept)) (
                none_newer now days limit (take limit p.kept) (drop limit p.kept)
                  (ground (arith, e)) (ground (arith, g, length-take limit p.kept))
                  (drop-oldest limit p.kept a.in_order));
            bounded = inr (omega (arith, length-take limit p.kept));
          }
  ]
]

-- Pruning touches only the files that are named as backups, and each of these is kept or removed. What
-- is removed is older than the days that are set allow, or one too many: a number is set, that many
-- are kept, and they are all at least as new. Of what is kept nothing is older than the days allow, and it is no
-- more than the number.
pub prune_backups-IsPruned :
    (now days limit : ℕ) (files : List Backup)
    → IsPruned now days limit files (prune_backups now days limit files)
unfolding prune_backups
prune_backups-IsPruned now days limit files =
    let backups = filter is_backup files in
    by_count-IsPruned now days limit files (by_age now days (newest_first backups)) (
      by_age-IsAged now days limit files (newest_first backups)
        (λ q. count-newest_first q backups ∙ count-both is_backup q files)
        (newest_first-IsOrdered backups))
