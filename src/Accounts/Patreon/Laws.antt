-- ===== src/Accounts/Patreon/Laws.antt =====
-- Who can link an account: `patreon_callback` of retrobridge/auth/routes.py.
use retro_bridge.Prelude.{
  ◌≡◌, ◌≢◌, refl, ap, ◌∙◌, sym, Bool, true, false, Option, none, some, if◌then◌else◌, Text, text_eq,
  text_eq→eq, or_none,
}
use retro_bridge.Accounts.Patreon.{
  Tokens, State, Reply, linked, invalid_state, Callback, identified, integrity_error, with_tokens,
  exchanged, checked, no_error, patreon_callback,
}

-- What an account that has been linked says about the callback.
pub record IsLinked (c : Callback) (s s' : State) : Type 0 where
  pub state : Text
  pub given : or_none c.state ≡ some state
  pub expected : or_none s.oauth_state ≡ some state
  pub used_up : s'.oauth_state ≡ none
  pub id : s'.account.patreon_id ≡ c.identity

exchanged-linked :
    (c : Callback) (o : Option Tokens) (s : State)
    → (exchanged c o s).0 ≡ linked
    → ((exchanged c o s).1.oauth_state ≡ s.oauth_state)
      × ((exchanged c o s).1.account.patreon_id ≡ c.identity)
exchanged-linked c none s h = absurd cc
exchanged-linked c (some t) s h = by_identity c.identity h
  where
    with_id : Text → State
    with_id i = record s {
      account =
          with_tokens t c.now (record s.account { patreon_id = some i; patreon_tier = c.tier });
    }

    by_identity :
        (i : Option Text)
        → (identified c t i s).0 ≡ linked
        → ((identified c t i s).1.oauth_state ≡ s.oauth_state)
          × ((identified c t i s).1.account.patreon_id ≡ i)
    by_identity none g = absurd cc
    by_identity (some i) g = by_taken c.is_taken g
      where
        by_taken :
            (b : Bool)
            → (if◌then◌else◌ {A = Reply × State} b (integrity_error, s) (linked, with_id i)).0
              ≡ linked
            → ((if◌then◌else◌ {A = Reply × State} b
                  (integrity_error, s)
                  (linked, with_id i)).1.oauth_state
                ≡ s.oauth_state)
              × ((if◌then◌else◌ {A = Reply × State} b
                    (integrity_error, s)
                    (linked, with_id i)).1.account.patreon_id
                  ≡ some i)
        by_taken true q = absurd cc
        by_taken false q = (refl, refl)

checked-IsLinked :
    (c : Callback) (s t : State) (code state expected : Option Text)
    → or_none c.state ≡ state
    → or_none s.oauth_state ≡ expected
    → t.oauth_state ≡ none
    → (checked c code state expected t).0 ≡ linked
    → IsLinked c s (checked c code state expected t).1
checked-IsLinked c s t none state expected e f u h = absurd cc
checked-IsLinked c s t (some code) none expected e f u h = absurd cc
checked-IsLinked c s t (some code) (some state) none e f u h = absurd cc
checked-IsLinked c s t (some code) (some state) (some expected) e f u h =
    by_test (text_eq state expected) refl h
  where
    by_test :
        (b : Bool)
        → text_eq state expected ≡ b
        → (if◌then◌else◌ {A = Reply × State} b (exchanged c c.tokens t) (invalid_state, t)).0
          ≡ linked
        → IsLinked c s
            (if◌then◌else◌ {A = Reply × State} b (exchanged c c.tokens t) (invalid_state, t)).1
    by_test false q g = absurd cc
    by_test true q g = record {
      state = state;
      given = e;
      expected = f ∙ ap some (sym (text_eq→eq state expected q));
      used_up = (exchanged-linked c c.tokens t g).0 ∙ u;
      id = (exchanged-linked c c.tokens t g).1;
    }

no_state-refused :
    (c : Callback) (code state : Option Text) (s : State) → (checked c code state none s).0 ≢ linked
no_state-refused c none state s h = cc
no_state-refused c (some code) none s h = cc
no_state-refused c (some code) (some state) s h = cc

used_up-refused :
    (c : Callback) (s : State) → s.oauth_state ≡ none → (patreon_callback c s).0 ≢ linked
unfolding patreon_callback
used_up-refused c s u = by_error (or_none c.error)
  where
    by_error : (e : Option Text) → (no_error c e s).0 ≢ linked
    by_error (some e) h = cc
    by_error none h =
        no_state-refused c (or_none c.code) (or_none c.state) (record s { oauth_state = none })
          (ap
              (λ o.
                (checked c (or_none c.code) (or_none c.state) (or_none o)
                  (record s { oauth_state = none })).0)
              (sym u)
            ∙ h)

-- An account is linked only by a callback that brings the state which the same browser was sent away
-- with, to the identity that Patreon answers; and the state is then used up, so that no callback links
-- the account again until the user asks for it.
pub patreon_callback-IsLinked :
    (c again : Callback) (s : State)
    → (patreon_callback c s).0 ≡ linked
    → IsLinked c s (patreon_callback c s).1
      × ((patreon_callback again (patreon_callback c s).1).0 ≢ linked)
unfolding patreon_callback
patreon_callback-IsLinked c again s h =
    let l = by_error (or_none c.error) h in
    (l, used_up-refused again (no_error c (or_none c.error) s).1 l.used_up)
  where
    by_error : (e : Option Text) → (no_error c e s).0 ≡ linked → IsLinked c s (no_error c e s).1
    by_error (some e) g = absurd cc
    by_error none g =
        checked-IsLinked c s (record s { oauth_state = none }) (or_none c.code) (or_none c.state)
          (or_none s.oauth_state) refl refl refl g
