-- ===== src/Intercept/Tests.antt =====
-- Runs of the interceptor on concrete requests: src/network/intercept.rs.
use plasmate.Common.{◌≤◌, ◌≡◌, ◌↔◌, refl, true, false, some, List, [], ◌∷◌, length}
use plasmate.Text.{Text, codes}
use plasmate.Wildcard.{Matches}
use plasmate.Intercept.Glob.{url_glob_match}
use plasmate.Intercept.Glob.Laws.{url_glob_match_iff}
use plasmate.Intercept.Kinds.{document, image, request, blocked_by_client}
use plasmate.Intercept.Types.{
  RequestPattern, InterceptRule, NetworkInterceptor, FetchResult, ResponseRule, fail,
}
use plasmate.Intercept.{check_request}
use plasmate.Intercept.Rules.{watch_all, Decided, check_request-Decided}
use plasmate.Intercept.Log.{
  Call, enables, adds_rule, checks, clears_log, start, run, history, newest, run-log,
}

url_glob_match_iff_example :
    (url_glob_match (codes "http*//a*.js") (codes "http://ab.js") ≡ true)
    ↔ Matches (codes "http*//a*.js") (codes "http://ab.js")
url_glob_match_iff_example = url_glob_match_iff (codes "http*//a*.js") (codes "http://ab.js")

abbrev images : RequestPattern
images = record {
  url_pattern = some (codes "*.png");
  resource_type = some image;
  request_stage = request;
}

abbrev block_images : InterceptRule
block_images = record { pattern = images; action = fail blocked_by_client }

abbrev teapot : ResponseRule
teapot = record {
  pattern = images;
  overrides = record {
    status = some 418;
    headers = some ((codes "x-tea", codes "yes") ∷ []);
    body = some (codes "tea");
  };
}

abbrev blocking : NetworkInterceptor
blocking = record {
  enabled = true;
  patterns = [];
  rules = block_images ∷ [];
  response_rules = teapot ∷ [];
  intercepted_log = [];
  max_log_entries = 1000;
}

abbrev picture : Text
picture = codes "http://a/b.png"

check_request-Decided_example :
    Decided (block_images ∷ []) picture image (check_request 1 blocking picture image false).action
check_request-Decided_example =
    check_request-Decided 1 blocking picture image false refl (watch_all refl)

abbrev calls : List Call
calls =
    enables []
    ∷ checks picture image false
    ∷ clears_log
    ∷ adds_rule block_images
    ∷ checks picture image false
    ∷ checks (codes "http://a/") document true
    ∷ []

run-log_example :
    ((run (start 1) calls).interceptor.intercepted_log ≡ newest 1000 (history [] (start 1) calls))
    × (length (run (start 1) calls).interceptor.intercepted_log ≤ 1000)
run-log_example = run-log 1 calls

abbrev response : FetchResult
response = record {
  url = picture;
  status = 200;
  content_type = codes "image/png";
  html = [];
  html_bytes = 0;
  load_ms = 3;
  set_cookies = [];
}
