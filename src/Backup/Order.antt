-- ===== src/Backup/Order.antt =====
-- The newest backups first.
use retro_bridge.Prelude.{
  ℕ, zero, suc, ◌≤◌, ◌≡◌, refl, ◌∙◌, inl, inr, Bool, List, [], ◌∷◌, ltb, take, drop, arith, All,
  Bool-cases,
}
use retro_bridge.Model.{filter, count}
use retro_bridge.Backup.{Backup, insert_newest, newest_first}

-- Every backup is at least as new as those behind it.
abbrev pub IsNewest : ℕ → List Backup → Type 0
IsNewest t backups = All (λ b. b.modified ≤ t) backups

abbrev pub IsOrdered : List Backup → Type 0
IsOrdered [] = Unit
IsOrdered (b ∷ backups) = IsNewest b.modified backups × IsOrdered backups

weaker : (s t : ℕ) (backups : List Backup) → s ≤ t → IsNewest s backups → IsNewest t backups
weaker s t [] h n = tt
weaker s t (b ∷ backups) h n = (omega (arith, h, n.0), weaker s t backups h n.1)

insert_newest-IsNewest :
    (t : ℕ) (b : Backup) (backups : List Backup)
    → b.modified ≤ t
    → IsNewest t backups
    → IsNewest t (insert_newest b backups)
insert_newest-IsNewest t b [] h n = (h, tt)
insert_newest-IsNewest t b (c ∷ backups) h n = elim (Bool-cases (ltb b.modified c.modified)) [
  | inl e ↦ rw e (n.0, insert_newest-IsNewest t b backups h n.1)
  | inr e ↦ rw e (h, n)
]

insert_newest-IsOrdered :
    (b : Backup) (backups : List Backup) → IsOrdered backups → IsOrdered (insert_newest b backups)
insert_newest-IsOrdered b [] o = (tt, tt)
insert_newest-IsOrdered b (c ∷ backups) o = elim (Bool-cases (ltb b.modified c.modified)) [
  | inl e ↦ rw e (
    insert_newest-IsNewest c.modified b backups (ground (arith, e)) o.0,
    insert_newest-IsOrdered b backups o.1,
  )
  | inr e ↦
      let newer : c.modified ≤ b.modified = ground (arith, e) in
      rw e ((newer, weaker c.modified b.modified backups newer o.0), o)
]

pub newest_first-IsOrdered : (backups : List Backup) → IsOrdered (newest_first backups)
newest_first-IsOrdered [] = tt
newest_first-IsOrdered (b ∷ backups) =
    insert_newest-IsOrdered b (newest_first backups) (newest_first-IsOrdered backups)

filter-IsNewest :
    (p : Backup → Bool) (t : ℕ) (backups : List Backup)
    → IsNewest t backups
    → IsNewest t (filter p backups)
filter-IsNewest p t [] n = tt
filter-IsNewest p t (b ∷ backups) n = elim (Bool-cases (p b)) [
  | inl e ↦ rw e (n.0, filter-IsNewest p t backups n.1)
  | inr e ↦ rw e (filter-IsNewest p t backups n.1)
]

pub filter-IsOrdered :
    (p : Backup → Bool) (backups : List Backup) → IsOrdered backups → IsOrdered (filter p backups)
filter-IsOrdered p [] o = tt
filter-IsOrdered p (b ∷ backups) o = elim (Bool-cases (p b)) [
  | inl e ↦ rw e (filter-IsNewest p b.modified backups o.0, filter-IsOrdered p backups o.1)
  | inr e ↦ rw e (filter-IsOrdered p backups o.1)
]

count-insert_newest :
    (p : Backup → Bool) (b : Backup) (backups : List Backup)
    → count p (insert_newest b backups) ≡ count p (b ∷ backups)
count-insert_newest p b [] = refl
count-insert_newest p b (c ∷ backups) = ground (arith, count-insert_newest p b backups)

pub count-newest_first :
    (p : Backup → Bool) (backups : List Backup) → count p (newest_first backups) ≡ count p backups
count-newest_first p [] = refl
count-newest_first p (b ∷ backups) =
    count-insert_newest p b (newest_first backups) ∙ ground (arith, count-newest_first p backups)

pub drop-IsNewest :
    (n t : ℕ) (backups : List Backup) → IsNewest t backups → IsNewest t (drop n backups)
drop-IsNewest zero t backups h = h
drop-IsNewest (suc n) t [] h = tt
drop-IsNewest (suc n) t (b ∷ backups) h = drop-IsNewest n t backups h.1

take-IsNewest : (n t : ℕ) (backups : List Backup) → IsNewest t backups → IsNewest t (take n backups)
take-IsNewest zero t backups h = tt
take-IsNewest (suc n) t [] h = tt
take-IsNewest (suc n) t (b ∷ backups) h = (h.0, take-IsNewest n t backups h.1)

pub take-IsOrdered :
    (n : ℕ) (backups : List Backup) → IsOrdered backups → IsOrdered (take n backups)
take-IsOrdered zero backups o = tt
take-IsOrdered (suc n) [] o = tt
take-IsOrdered (suc n) (b ∷ backups) o =
    (take-IsNewest n b.modified backups o.0, take-IsOrdered n backups o.1)
