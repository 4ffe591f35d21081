-- ===== src/Session.antt =====
-- Sessions and their navigation: `Session` of src/session/mod.rs.
--
-- The calls of the HTTP client and the page pipeline, which fetches scripts and modules with the same
-- client, are arguments on a state of the network; so are the types of what the model only passes on:
-- structured data, the report of the scripts and the pipeline's error. Times are numbers of
-- milliseconds, read before and after the page is loaded; the cookie jar and the configuration of a
-- session, which nothing changes, are left out.
pub mod Laws
pub mod Sent
pub mod Limits
pub mod Parallel
pub mod Manager
mod Tests
use plasmate.Common.{
  ℕ, ◌+◌, ◌-◌, ◌/◌, ◌%◌, ◌^◌, Bool, true, false, Option, none, some, List, [], ◌∷◌, ◌++◌, is_empty,
  if◌then◌else◌, Result, ok, err,
}
use plasmate.Text.{Text}
use plasmate.Intercept.Kinds.{ResourceType, document}
use plasmate.Intercept.Types.{
  FetchResult, FetchError, RequestOverrides, InterceptAction, proceed, fulfill, fail,
  NetworkInterceptor,
}
use plasmate.Intercept.{init, check_request}
use plasmate.Intercept.Responses.{check_response, fulfill_request, fail_request}
use plasmate.Som.Types.{Som}

pub data SessionStatus : Type 0 where
  idle navigating ready closed : SessionStatus

pub record NavigationEntry : Type 0 where
  pub url : Text
  pub title : Text
  pub status : ℕ
  pub html_bytes : ℕ
  pub som_bytes : ℕ
  pub fetch_ms : ℕ
  pub pipeline_ms : ℕ
  pub timestamp_ms : ℕ

-- What the pipeline makes of a page: structured data `D`, a report of its scripts `R`, and attributes `J`.
pub record PageResult (J D R : Type 0) : Type 0 where
  pub som : Som J
  pub structured_data : Option D
  pub effective_html : Text
  pub total_us : ℕ
  pub js_report : Option R

pub record NavigateResult (R : Type 0) : Type 0 where
  pub url : Text
  pub status : ℕ
  pub content_type : Text
  pub html_bytes : ℕ
  pub som_bytes : ℕ
  pub fetch_ms : ℕ
  pub pipeline_ms : ℕ
  pub title : Text
  pub js_report : Option R

pub record Session (J D : Type 0) : Type 0 where
  pub id : Text
  pub url : Option Text
  pub html : Option Text
  pub effective_html : Option Text
  pub som : Option (Som J)
  pub structured_data : Option D
  pub created_at : ℕ
  pub last_active : ℕ
  pub status : SessionStatus
  pub interceptor : NetworkInterceptor
  pub memory_bytes : ℕ
  pub page_count : ℕ
  pub history : List NavigationEntry

-- The error, where the source has its text.
pub data NavigateError (E : Type 0) : Type 0 where
  not_fetched : FetchError → NavigateError E
  not_processed : E → NavigateError E

abbrev pub override_url : Option RequestOverrides → Text → Text
override_url none url = url
override_url (some o) url = elim o.url [ none ↦ url | some u ↦ u ]

abbrev pub override_headers : Option RequestOverrides → List (Text × Text)
override_headers none = []
override_headers (some o) = elim o.headers [ none ↦ [] | some hs ↦ hs ]

module _ {J D : Type 0} where
  -- `Session::new_with_options`, where the client can be built.
  unfoldable pub new_session : Text → ℕ → Session J D
  unfolding init
  new_session id now = record {
    id = id;
    url = none;
    html = none;
    effective_html = none;
    som = none;
    structured_data = none;
    created_at = now;
    last_active = now;
    status = idle;
    interceptor = init;
    memory_bytes = 0;
    page_count = 0;
    history = [];
  }

module _ {J D R E : Type 0} where
  -- The page is shown: the session's fields, the history and the result.
  unfoldable pub show_page :
      Session J D
      → FetchResult
      → PageResult J D R
      → ℕ
      → ℕ
      → Session J D × Result (NavigateError E) (NavigateResult R)
  show_page s f p start now = (
    record s {
      url = some f.url;
      html = some f.html;
      effective_html = some p.effective_html;
      structured_data = p.structured_data;
      som = some p.som;
      status = ready;
      last_active = now;
      page_count = (s.page_count + 1) % 2 ^ 64;
      memory_bytes = f.html_bytes + p.som.meta.som_bytes;
      history =
          s.history
          ++ record {
            url = f.url;
            title = p.som.title;
            status = f.status;
            html_bytes = f.html_bytes;
            som_bytes = p.som.meta.som_bytes;
            fetch_ms = f.load_ms;
            pipeline_ms = p.total_us / 1000;
            timestamp_ms = now - start;
          }
            ∷ [];
    },
    ok (record {
      url = f.url;
      status = f.status;
      content_type = f.content_type;
      html_bytes = f.html_bytes;
      som_bytes = p.som.meta.som_bytes;
      fetch_ms = f.load_ms;
      pipeline_ms = p.total_us / 1000;
      title = p.som.title;
      js_report = p.js_report;
    }),
  )

  unfoldable pub give_up :
      Session J D → NavigateError E → Session J D × Result (NavigateError E) (NavigateResult R)
  give_up s e = (record s { status = idle }, err e)

  unfoldable pub after_process :
      Session J D
      → FetchResult
      → Result E (PageResult J D R)
      → ℕ
      → ℕ
      → Session J D × Result (NavigateError E) (NavigateResult R)
  unfolding show_page give_up
  after_process s f (err e) start now = give_up s (not_processed e)
  after_process s f (ok p) start now = show_page s f p start now

  -- `World` is the state of the HTTP client and of what it talks to: the calls of the client, by the
  -- session or by the pipeline for a page's scripts and modules, take it and give it back.
  module _ {World : Type 0} (fetch_url : Text → World → World × Result FetchError FetchResult)
      (fetch_url_with_headers : Text
        → List (Text × Text)
        → World
        → World × Result FetchError FetchResult)
      (process_page : Text → Text → World → World × Result E (PageResult J D R)) where
    -- The document that a request gets: made up, refused, or fetched.
    unfoldable pub fetch_document :
        InterceptAction → Text → World → World × Result FetchError FetchResult
    unfolding fulfill_request fail_request
    fetch_document (fulfill params) url w = (w, ok (fulfill_request params url))
    fetch_document (fail reason) url w = (w, err (fail_request reason url))
    fetch_document (proceed overrides) url w =
        if is_empty (override_headers overrides)
        then fetch_url (override_url overrides url) w
        else fetch_url_with_headers (override_url overrides url) (override_headers overrides) w

    unfoldable pub process :
        Session J D
        → FetchResult
        → ℕ
        → ℕ
        → World
        → World × (Session J D × Result (NavigateError E) (NavigateResult R))
    unfolding after_process
    process s f start now w =
        let (w', p) = process_page f.html f.url w in (w', after_process s f p start now)

    unfoldable pub after_fetch :
        Session J D
        → Text
        → Result FetchError FetchResult
        → ℕ
        → ℕ
        → World
        → World × (Session J D × Result (NavigateError E) (NavigateResult R))
    unfolding process give_up check_response
    after_fetch s url (err e) start now w = (w, give_up s (not_fetched e))
    after_fetch s url (ok f) start now w =
        process s (check_response s.interceptor url document f).0 start now w

    -- The counter of request ids goes in and out.
    unfoldable pub navigate :
        ℕ
        → Session J D
        → Text
        → ℕ
        → ℕ
        → World
        → World × (ℕ × (Session J D × Result (NavigateError E) (NavigateResult R)))
    unfolding check_request fetch_document after_fetch
    navigate counter s url start now w =
        let checked = check_request counter s.interceptor url document true in
        let under_way = record s {
          status = navigating;
          last_active = start;
          interceptor = checked.interceptor;
        } in
        let (fetched, document_result) = fetch_document checked.action url w in
        let (done, out) = after_fetch under_way url document_result start now fetched in
        (done, (checked.counter, out))
