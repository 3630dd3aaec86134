-- ===== src/Jobs/Quota/Tiers.antt =====
-- What a Patreon tier does to a user's limit.
use retro_bridge.Prelude.{
  ℕ, ◌≡◌, ◌⊎◌, inl, inr, refl, Option, none, some, [], ◌∷◌, arith, ltb, Text, Bool-cases, ◌<◌,
}
use retro_bridge.Model.{User}
use retro_bridge.Jobs.Quota.{get_tier_limits, raised, first_of_pair, job_limit, max_jobs}

abbrev pub IsRaised : (Text → ℕ) → Option Text → ℕ → ℕ → Type 0
IsRaised setting tier own limit =
    (limit ≡ own)
    ⊎ ((l : ℕ × ℕ) × (get_tier_limits setting tier ≡ some l) × (limit ≡ l.0) × (own < l.0))

raised-IsRaised :
    (own : ℕ) (o : Option (ℕ × ℕ))
    → (raised (first_of_pair o) own ≡ own)
      ⊎ ((l : ℕ × ℕ) × (o ≡ some l) × (raised (first_of_pair o) own ≡ l.0) × (own < l.0))
raised-IsRaised own none = inl refl
raised-IsRaised own (some (a, b)) = elim (Bool-cases (ltb own a)) [
  | inl e ↦ inr ((a, b), refl, ground arith, ground arith)
  | inr e ↦ inl (ground arith)
]

job_limit-IsRaised :
    (setting : Text → ℕ) (tier : Option Text) (own : ℕ)
    → IsRaised setting tier own (job_limit setting tier own)
job_limit-IsRaised setting none own = inl refl
job_limit-IsRaised setting (some []) own = inl refl
job_limit-IsRaised setting (some (c ∷ s)) own =
    raised-IsRaised own (get_tier_limits setting (some (c ∷ s)))

-- A user's limit is their own, unless their tier has limits and a higher one for jobs: then it is
-- the tier's.
pub max_jobs-raises :
    (setting : Text → ℕ) (user : User)
    → IsRaised setting user.patreon_tier user.max_queued_jobs (max_jobs setting user)
unfolding max_jobs
max_jobs-raises setting user = job_limit-IsRaised setting user.patreon_tier user.max_queued_jobs
