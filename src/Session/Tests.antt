-- ===== src/Session/Tests.antt =====
-- A table with room for one session, on which the theorems about sessions are applied.
use plasmate.Common.{
  ℕ, ◌≡◌, refl, ap, sym, ◌∙◌, arith, subst, map, zero, suc, ◌<◌, inl, inr, if◌then◌else◌,
  eq_of_some, true, false, none, some, List, [], ◌∷◌, ◌++◌, Result, ok, All,
}
use plasmate.Text.{Text, codes, text_eq, starts_with}
use plasmate.Assoc.{get}
use plasmate.Intercept.Types.{FetchResult, FetchError}
use plasmate.Intercept.{init, check_request}
use plasmate.Intercept.Responses.{check_response}
use plasmate.Intercept.Kinds.{document}
use plasmate.Som.Types.{Som}
use plasmate.Session.{PageResult, Session, new_session, navigate}
use plasmate.Session.Laws.{sent}
use plasmate.Session.Sent.{ask, IsHanded, made_up, answered, navigate-Kept}
use plasmate.Session.Manager.{
  ResourceLimits, SessionManager, session_count, put_back, create_session, take_out, close_session,
  session_exists,
}
use plasmate.Session.Limits.{
  Bounded, create, cleanup, run_calls, run_calls-Bounded, create_session-over_limit,
  close_session-undone,
}
use plasmate.Session.Manager.{new_manager}
use plasmate.Session.Parallel.{at, Written, collect_results, collect_results-in_order}

abbrev document_of : Text → FetchResult
document_of url = record {
  url = url;
  status = 200;
  content_type = codes "text/html";
  html = codes "<p>";
  html_bytes = 3;
  load_ms = 5;
  set_cookies = [];
}

-- The network as the list of the URLs that were asked for, the newest first.
abbrev plain : Text → List Text → List Text × Result FetchError FetchResult
plain url asked = (url ∷ asked, ok (document_of url))

abbrev with_headers :
    Text → List (Text × Text) → List Text → List Text × Result FetchError FetchResult
with_headers url headers asked = (url ∷ asked, ok (document_of url))

abbrev compiled : Som ℕ
compiled = record {
  som_version = codes "1.0";
  url = codes "https://a.example/";
  title = codes "A";
  lang = codes "en";
  regions = [];
  meta = record { html_bytes = 3; som_bytes = 20; element_count = 0; interactive_count = 0 };
}

-- A pipeline that fetches one script, from the page's own URL.
abbrev compile : Text → Text → List Text → List Text × Result ℕ (PageResult ℕ ℕ ℕ)
compile html url asked = (
  (url ++ codes "a.js") ∷ asked,
  ok (record {
    som = compiled;
    structured_data = none;
    effective_html = html;
    total_us = 4000;
    js_report = none;
  }),
)

fresh : Session ℕ ℕ
fresh = new_session (codes "s1") 10

-- Nothing but URLs below https://a.example/ was asked for.
abbrev OnlyA : List Text → Type 0
OnlyA asked = All (λ url. starts_with url (codes "https://a.example/") ≡ true) asked

-- No rule applies, so that the request is for the URL itself.
request_to_a :
    (r : Text × List (Text × Text))
    → sent
        (check_request 1 init (codes "https://a.example/") document true).action
        (codes "https://a.example/")
      ≡ some r
    → OnlyA (ask plain with_headers r []).0
unfolding init check_request sent starts_with
request_to_a r e = subst (λ q. OnlyA (ask plain with_headers q []).0) (eq_of_some e) (refl, tt)

page_of_a :
    (f : FetchResult) (v : List Text)
    → IsHanded plain with_headers init
        (check_request 1 init (codes "https://a.example/") document true).action
        (codes "https://a.example/")
        []
        f
        v
    → OnlyA v
    → OnlyA (compile f.html f.url v).0
unfolding init check_request sent starts_with check_response
page_of_a f v (made_up params action made q) k = cc
page_of_a f v (answered r g request answer given) k =
    let home : Text = codes "https://a.example/" in
    let same_request : (home, []) ≡ r = eq_of_some request in
    let got : ask plain with_headers (home, []) [] ≡ (v, ok g) =
      ap (λ q. ask plain with_headers q []) same_request ∙ answer in
    let same_page : document_of home ≡ g = cc in
    subst (λ x. OnlyA (compile x.html x.url v).0) (same_page ∙ sym given) (refl, k)

navigate-Kept_example :
    OnlyA
      (navigate plain with_headers compile 1
        (new_session (codes "s1") 10)
        (codes "https://a.example/")
        20
        30
        []).0
unfolding new_session check_request
navigate-Kept_example =
    navigate-Kept plain with_headers compile OnlyA 1 (new_session (codes "s1") 10)
      (codes "https://a.example/") 20 30 [] request_to_a page_of_a tt

abbrev one_session : ResourceLimits
one_session = record { max_sessions = 1; idle_timeout = 100; total_memory_budget = 0 }

run_calls-Bounded_example : Bounded (
    run_calls
      (new_manager one_session)
      (create (codes "s1") (ok fresh) ∷ create (codes "s2") (ok fresh) ∷ cleanup 500 ∷ []))
run_calls-Bounded_example =
    run_calls-Bounded one_session
      (create (codes "s1") (ok fresh) ∷ create (codes "s2") (ok fresh) ∷ cleanup 500 ∷ [])

abbrev full_table : SessionManager ℕ ℕ
full_table = record { sessions = (codes "s1", fresh) ∷ []; limits = one_session }

full_table-Bounded : Bounded full_table
full_table-Bounded = record { is_map = (tt, tt); in_limit = omega arith }

create_session-over_limit_example :
    session_count (
      put_back
        (create_session (take_out full_table (codes "s1")).0 (codes "s2") (ok fresh)).0
        (codes "s1")
        fresh)
    ≡ 2
unfolding session_count get text_eq
create_session-over_limit_example =
    create_session-over_limit full_table (codes "s1") (codes "s2") fresh fresh fresh
      full_table-Bounded refl refl refl refl

close_session-undone_example :
    ((close_session (take_out full_table (codes "s1")).0 (codes "s1")).1 ≡ false)
    × (session_exists
          (put_back
            (close_session (take_out full_table (codes "s1")).0 (codes "s1")).0
            (codes "s1")
            fresh)
          (codes "s1")
        ≡ true)
unfolding get text_eq
close_session-undone_example =
    close_session-undone full_table (codes "s1") fresh fresh full_table-Bounded refl

both-Written : (i : ℕ) → i < 2 → Written {A = ℕ} i ((1, 8) ∷ (0, 7) ∷ [])
both-Written zero h = inr (inl refl)
both-Written (suc zero) h = inl refl
both-Written (suc (suc i)) h = absurd (omega arith)

-- The second fetch ends first.
collect_results-in_order_example :
    collect_results {A = ℕ} 2 0 ((1, 8) ∷ (0, 7) ∷ [])
    ≡ map (λ u. if text_eq u (codes "a") then 7 else 8) (codes "a" ∷ codes "b" ∷ [])
unfolding at text_eq
collect_results-in_order_example =
    collect_results-in_order {A = ℕ} (λ u. if text_eq u (codes "a") then 7 else 8)
      (codes "a" ∷ codes "b" ∷ []) 0 ((1, 8) ∷ (0, 7) ∷ []) (refl, (refl, tt)) both-Written
