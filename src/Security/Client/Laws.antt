-- ===== src/Security/Client/Laws.antt =====
-- Which address a request is counted under, and that its sender cannot choose another.
use mathlib.Core.List.{reverse, reverse-append}
use retro_bridge.Prelude.{
  ℕ, ◌≡◌, ◌≢◌, refl, ap, ◌∙◌, inl, inr, Bool, not, ◌&&◌, Option, none, some, List, [], ◌∷◌, ◌++◌,
  ◌==◌, arith, Text, strip, or_none, Bool-cases,
}
use retro_bridge.Security.Client.{
  Request, split, cons_head, has_text, is_trusted_proxy, first_untrusted, client_ip, or_remote,
}

cons_head-append :
    (x : ℕ) (ps qs : List Text) → ps ≢ [] → cons_head x (ps ++ qs) ≡ cons_head x ps ++ qs
cons_head-append x [] qs h = absurd (h refl)
cons_head-append x (p ∷ ps) qs h = refl

cons_head-nil : (x : ℕ) (ps : List Text) → cons_head x ps ≢ []
cons_head-nil x [] h = cc
cons_head-nil x (p ∷ ps) h = cc

split-nil : (c : ℕ) (s : Text) → split c s ≢ []
split-nil c [] h = cc
split-nil c (x ∷ s) h = elim (Bool-cases (x == c)) [
  | inl e ↦ cc (rw e at h)
  | inr e ↦ cons_head-nil x (split c s) (rw e at h)
]

-- Splitting at a separator that stands between two texts.
split-append : (c : ℕ) (s t : Text) → split c (s ++ c ∷ t) ≡ split c s ++ split c t
split-append c [] t = ground arith
split-append c (x ∷ s) t = elim (Bool-cases (x == c)) [
  | inl e ↦ rw e (ap (λ r. [] ∷ r) (split-append c s t))
  | inr e ↦ rw e (
      ap (cons_head x) (split-append c s t)
      ∙ cons_head-append x (split c s) (split c t) (split-nil c s))
]

module _ {Ip : Type 0} (ip_address : Text → Option Ip) (ip_eq : Ip → Ip → Bool)
    (in_network : Ip → Text → Option Bool) where
  abbrev trusts : Text → List Text → Bool
  trusts ip trusted = is_trusted_proxy ip_address ip_eq in_network (some ip) trusted

  first_untrusted-append :
      (trusted xs ys : List Text)
      → first_untrusted ip_address ip_eq in_network trusted xs ≢ none
      → first_untrusted ip_address ip_eq in_network trusted (xs ++ ys)
        ≡ first_untrusted ip_address ip_eq in_network trusted xs
  first_untrusted-append trusted [] ys h = absurd (h refl)
  first_untrusted-append trusted (x ∷ xs) ys h =
      elim (Bool-cases (has_text (strip x) && not (trusts (strip x) trusted))) [
        | inl e ↦ rw e refl
        | inr e ↦ rw e (first_untrusted-append trusted xs ys (rw e at h))
      ]

  -- The address that a header gives, where the request comes from a trusted proxy.
  abbrev picked : Request → Text → Option Text
  picked r header =
      first_untrusted ip_address ip_eq in_network r.trusted (reverse (split b',' header))

  picked-append :
      (r : Request) (sent added : Text)
      → picked r added ≢ none
      → picked r (sent ++ b',' ∷ added) ≡ picked r added
  picked-append r sent added h =
      ap (first_untrusted ip_address ip_eq in_network r.trusted) (
        ap reverse (split-append b',' sent added)
        ∙ reverse-append (split b',' sent) (split b',' added))
      ∙ first_untrusted-append r.trusted (reverse (split b',' added)) (reverse (split b',' sent)) h

  or_none-append :
      (sent added : Text) → or_none (some (sent ++ b',' ∷ added)) ≡ some (sent ++ b',' ∷ added)
  or_none-append [] added = refl
  or_none-append (x ∷ sent) added = refl

  or_remote-none :
      (o remote : Option Text) → or_remote ip_address ip_eq in_network o remote ≢ remote → o ≢ none
  or_remote-none none remote h = absurd (h refl)
  or_remote-none (some ip) remote h = λ e. cc

  -- A client behind the proxies cannot choose its address: where the part of `X-Forwarded-For` that the
  -- proxies have added decides the address, whatever the client has put before it does not matter.
  pub client_ip-append :
      (r : Request) (sent added : Text)
      → client_ip ip_address ip_eq in_network (record r { forwarded_for = some added })
        ≢ r.remote_addr
      → client_ip ip_address ip_eq in_network
          (record r { forwarded_for = some (sent ++ b',' ∷ added) })
        ≡ client_ip ip_address ip_eq in_network (record r { forwarded_for = some added })
  unfolding client_ip
  client_ip-append r sent [] h =
      elim (Bool-cases (is_trusted_proxy ip_address ip_eq in_network r.remote_addr r.trusted)) [
        | inl e ↦ absurd ((rw e at h) refl)
        | inr e ↦ rw e refl
      ]
  client_ip-append r sent (c ∷ added) h =
      elim (Bool-cases (is_trusted_proxy ip_address ip_eq in_network r.remote_addr r.trusted)) [
        | inl e ↦
            let found = or_remote-none (picked r (c ∷ added)) r.remote_addr (rw e at h) in
            rw (e, or_none-append sent (c ∷ added))
              (ap (λ o. or_remote ip_address ip_eq in_network o r.remote_addr)
                (picked-append r sent (c ∷ added) found))
        | inr e ↦ rw e refl
      ]
