-- ===== src/Session/Laws.antt =====
-- What a navigation does: `Session::navigate` of src/session/mod.rs.
use plasmate.Common.{
  ℕ, ◌+◌, ◌%◌, ◌^◌, ◌≡◌, Option, none, some, List, [], ◌∷◌, ◌++◌, Result, ok, err,
}
use plasmate.Text.{Text}
use plasmate.Intercept.Types.{InterceptAction, proceed, fulfill, fail}
use plasmate.Session.{
  idle, ready, NavigationEntry, NavigateResult, Session, NavigateError, override_url,
  override_headers,
}

-- The request that an action sends, if any.
unfoldable pub sent : InterceptAction → Text → Option (Text × List (Text × Text))
sent (fulfill params) url = none
sent (fail reason) url = none
sent (proceed overrides) url = some (override_url overrides url, override_headers overrides)

module _ {J D R : Type 0} where
  -- A page that was loaded: the session shows what the result and the last entry of its history say.
  pub record Loaded (s : Session J D) (now : ℕ) (s' : Session J D) (r : NavigateResult R)
      : Type 0 where
    pub is_ready : s'.status ≡ ready
    pub shown : s'.url ≡ some r.url
    pub entry : NavigationEntry
    pub recorded : s'.history ≡ s.history ++ entry ∷ []
    pub same_url : entry.url ≡ r.url
    pub same_title : entry.title ≡ r.title
    pub same_status : entry.status ≡ r.status
    pub counted : s'.page_count ≡ (s.page_count + 1) % 2 ^ 64
    pub sized : s'.memory_bytes ≡ r.html_bytes + r.som_bytes
    pub active : s'.last_active ≡ now
    pub same_id : s'.id ≡ s.id

module _ {J D R E : Type 0} where
  -- A session after a navigation; where it failed, all but three fields are as they were.
  unfoldable pub Navigated :
      Session J D → ℕ → ℕ → Session J D × Result (NavigateError E) (NavigateResult R) → Type 0
  Navigated s start now (s', err e) =
      s' ≡ record s { status = idle; last_active = start; interceptor = s'.interceptor }
  Navigated s start now (s', ok r) = Loaded s now s' r
