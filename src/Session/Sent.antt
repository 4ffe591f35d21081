-- ===== src/Session/Sent.antt =====
-- What a navigation does to the network: `Session::navigate` of src/session/mod.rs.
use plasmate.Common.{
  ℕ, ◌≡◌, refl, ap, sym, true, some, List, is_empty, if◌then◌else◌, Result, ok, err,
}
use plasmate.Text.{Text}
use plasmate.Intercept.Kinds.{document}
use plasmate.Intercept.Types.{
  FetchResult, FetchError, InterceptAction, NetworkInterceptor, FulfillParams, proceed, fulfill,
  fail,
}
use plasmate.Intercept.{check_request}
use plasmate.Intercept.Responses.{check_response, fulfill_request}
use plasmate.Session.{
  PageResult, Session, navigating, override_url, override_headers, fetch_document, process,
  after_fetch, navigate,
}
use plasmate.Session.Laws.{sent}

module _ {World : Type 0} (fetch_url : Text → World → World × Result FetchError FetchResult)
    (fetch_url_with_headers : Text
      → List (Text × Text)
      → World
      → World × Result FetchError FetchResult) where
  -- A request of the session for a document.
  abbrev pub ask : Text × List (Text × Text) → World → World × Result FetchError FetchResult
  ask (url, headers) w =
      if is_empty headers then fetch_url url w else fetch_url_with_headers url headers w

  -- The page that the pipeline is given, and the network at that time: what a rule made up, or the
  -- answer to the one request that was sent, as the response rules leave it.
  pub data IsHanded (i : NetworkInterceptor) (action : InterceptAction) (url : Text) (w : World)
      (f : FetchResult) (v : World) : Type 0 where
    made_up :
        (params : FulfillParams)
        → action ≡ fulfill params
        → f ≡ (check_response i url document (fulfill_request params url)).0
        → v ≡ w
        → IsHanded i action url w f v
    answered :
        (r : Text × List (Text × Text)) (g : FetchResult)
        → sent action url ≡ some r
        → ask r w ≡ (v, ok g)
        → f ≡ (check_response i url document g).0
        → IsHanded i action url w f v

module _ {J D R E World : Type 0} (fetch_url : Text → World → World × Result FetchError FetchResult)
    (fetch_url_with_headers : Text
      → List (Text × Text)
      → World
      → World × Result FetchError FetchResult)
    (process_page : Text → Text → World → World × Result E (PageResult J D R)) where
  after_fetch-Kept :
      (Kept : World → Type 0) (i : NetworkInterceptor) (action : InterceptAction) (s : Session J D)
      (url : Text) (start now : ℕ) (w v : World) (o : Result FetchError FetchResult)
      → s.interceptor ≡ i
      → ((g : FetchResult)
          → o ≡ ok g
          → IsHanded fetch_url fetch_url_with_headers i action url w
              (check_response i url document g).0
              v)
      → ((f : FetchResult) (u : World)
          → IsHanded fetch_url fetch_url_with_headers i action url w f u
          → Kept u
          → Kept (process_page f.html f.url u).0)
      → Kept v
      → Kept (after_fetch fetch_url fetch_url_with_headers process_page s url o start now v).0
  unfolding after_fetch process
  after_fetch-Kept Kept i action s url start now w v (err e) q handed pipeline k = k
  after_fetch-Kept Kept i action s url start now w v (ok g) q handed pipeline k =
      rw q (pipeline (check_response i url document g).0 v (handed g refl) k)

  fetched-Kept :
      (Kept : World → Type 0) (i : NetworkInterceptor) (action : InterceptAction) (s : Session J D)
      (url : Text) (start now : ℕ) (w : World)
      → s.interceptor ≡ i
      → ((r : Text × List (Text × Text))
          → sent action url ≡ some r
          → Kept (ask fetch_url fetch_url_with_headers r w).0)
      → ((f : FetchResult) (u : World)
          → IsHanded fetch_url fetch_url_with_headers i action url w f u
          → Kept u
          → Kept (process_page f.html f.url u).0)
      → Kept w
      → (let out = fetch_document fetch_url fetch_url_with_headers process_page action url w in
          Kept
            (after_fetch fetch_url fetch_url_with_headers process_page s url out.1 start now
              out.0).0)
  unfolding fetch_document sent
  fetched-Kept Kept i (fail reason) s url start now w q request pipeline k =
      after_fetch-Kept Kept i (fail reason) s url start now w w (err _) q (λ g e. cc) pipeline k
  fetched-Kept Kept i (fulfill params) s url start now w q request pipeline k =
      after_fetch-Kept Kept i (fulfill params) s url start now w w (ok (fulfill_request params url))
        q
        (λ g e.
          let same : fulfill_request params url ≡ g = cc in
          made_up params refl (ap (λ x. (check_response i url document x).0) (sym same)) refl)
        pipeline k
  fetched-Kept Kept i (proceed overrides) s url start now w q request pipeline k =
      let r : Text × List (Text × Text) =
        (override_url overrides url, override_headers overrides) in
      after_fetch-Kept Kept i (proceed overrides) s url start now w
        (ask fetch_url fetch_url_with_headers r w).0 (ask fetch_url fetch_url_with_headers r w).1 q
        (λ g e.
          answered r g refl (ap (λ x. ((ask fetch_url fetch_url_with_headers r w).0, x)) e) refl)
        pipeline (request r refl)

  -- Whatever holds of the network (say, that some host was asked for nothing) still holds after a
  -- navigation, if it holds after the one request that the interceptor lets through, where it lets one
  -- through, and the pipeline keeps it on the page it is given: the page that a rule made up, or the
  -- answer to that request, as the response rules leave it. Where a rule refuses the request there is
  -- neither a request nor a page, and everything that held still holds.
  pub navigate-Kept :
      (Kept : World → Type 0) (counter : ℕ) (s : Session J D) (url : Text) (start now : ℕ)
      (w : World)
      → ((r : Text × List (Text × Text))
          → sent (check_request counter s.interceptor url document true).action url ≡ some r
          → Kept (ask fetch_url fetch_url_with_headers r w).0)
      → ((f : FetchResult) (v : World)
          → IsHanded fetch_url fetch_url_with_headers
              (check_request counter s.interceptor url document true).interceptor
              (check_request counter s.interceptor url document true).action
              url
              w
              f
              v
          → Kept v
          → Kept (process_page f.html f.url v).0)
      → Kept w
      → Kept (navigate fetch_url fetch_url_with_headers process_page counter s url start now w).0
  unfolding navigate
  navigate-Kept Kept counter s url start now w request pipeline k =
      let checked = check_request counter s.interceptor url document true in
      let under_way : Session J D = record s {
        status = navigating;
        last_active = start;
        interceptor = checked.interceptor;
      } in
      fetched-Kept Kept checked.interceptor checked.action under_way url start now w refl request
        pipeline k
