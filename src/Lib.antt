-- ===== src/Lib.antt =====
-- Verification of parts of Plasmate, a headless browser that compiles web pages to a semantic object
-- model (SOM) for agents.
--
-- The program's parts, and where they are modelled:
--   * src/network/intercept.rs, the interceptor of network requests: Intercept. `NetworkInterceptor`
--     is the record of the same name; its methods are functions that take and return it, and those
--     that take an id also take and return the counter of the process. Intercept/Glob is
--     `url_glob_match`, Intercept/Patterns `pattern_matches`, Intercept/Kinds the names of resource
--     types and error reasons, Intercept/Responses `check_response`, `fulfill_request` and
--     `fail_request`. Intercept/Log and Intercept/Ids run any sequence of calls.
--   * src/crawl_policy.rs, the evaluation of robots.txt: CrawlPolicy. The parts in the order in which
--     a report is made are Robots (`parse_robots`, line by line over the record `Parsing` of the loop's
--     variables), Normalize (`normalize_path`), Match (`pattern_matches`, `pattern_specificity`),
--     Decide (`decide`, with the sort of the candidates), Bound (`bound_string`) and Report
--     (`evaluate_document`, `evaluate_fetch_failure`, the checks of the arguments, and
--     `enforce_serialized_output_limit`). It reads the results of the fetch layer, whose types stand
--     in Intercept/Types.
--   * src/cache/store.rs, the cache of compiled pages: Cache. `SomCache` holds the entries and the
--     statistics that the source keeps behind two locks. A lookup or a store looks at the entries and
--     changes them under one lock, so that a history of such calls is a sequence (Cache/History).
--     Cache/Api holds the public calls by URL and selector; the filter of a page, with JSON on both
--     sides, is an argument there.
--   * src/cdp/cookies.rs, the cookies of the CDP layer: Cookies. Jar is `CookieJar`, with the order of
--     times as an argument; Matching is `domain_matches`, `path_matches` and `get_default_path`;
--     Header the parser of `Set-Cookie`; Dates the conversions between seconds and dates, against the
--     calendar of Cookies/Dates/Calendar.
--   * src/network/security.rs, the policy for outbound addresses: Security. `OutboundUrlPolicy` is the
--     record of the same name; the parser of URLs and the resolver are arguments. Security/Blocks lists
--     the reserved blocks of addresses.
--   * src/auth/capability.rs, the tokens of the local control services: Capability.
--   * src/mcp/trace.rs, the trace of the actions of a browser session: Trace (`TraceLog`).
--   * src/som, the semantic object model: Som. Types is src/som/types.rs, Filter src/som/filter.rs
--     (`apply_selector`), ElementId src/som/element_id.rs (the tracker of collisions), and Diff
--     src/som/diff.rs: Diff/Elements compares elements and attributes, Diff/Pages regions and pages. A
--     JSON value is an argument, with its test of equality and the pairs of an object.
--   * src/som/css_visibility.rs, style sheets: Css. How `parse_css` splits a sheet into rules; the
--     tests of a rule's declarations (`process_rule`) are not modelled.
--   * src/session/mod.rs, sessions: Session. `Session.navigate` composes the interceptor's
--     `check_request`, `fulfill_request`, `fail_request` and `check_response` with the HTTP client
--     and the page pipeline, which are arguments. Both take and return the state of the network, since
--     the pipeline fetches scripts and modules with the same client. Session/Manager is the table of sessions, where a
--     navigation is two steps; Session/Parallel the results of `fetch_parallel`.
--
-- Shared: Wildcard says what a pattern with stars matches, for the interceptor's globs and for the
-- rules of robots.txt alike; Text holds the functions on strings that the sources call; Assoc the hash
-- maps; Common the lists, the Boolean tests and the names of the library.
--
-- How the source is read:
--   * A string is the list of its UTF-8 bytes. `trim`, `to_ascii_lowercase` and the like act on bytes.
--     The tests of cookies number the characters of a text and slice it by bytes, as the source does; a
--     slice within a character panics, which is `none`.
--   * A 64-bit counter of the cache wraps (`% 2 ^ 64`); those of the trace saturate. Lengths are
--     natural numbers: the lists of the source are bounded by memory.
--   * A `HashMap` is an association list with distinct keys; where the source picks one entry of several
--     (the eviction of entries with equal times), the model picks the first.
--   * The time of a call on the cache is an argument, and a length of time the difference of two times.
--   * The URL parser of the cache is a record of functions (`UrlApi`) of which nothing is assumed; of
--     that of the cookies it is assumed, where a theorem says so, that the host and the path it gives
--     are ASCII. The size of a serialised report is a function argument that may fail.
--
-- Fuel: the loop of the robots matcher runs on `enough` rounds, which is the length of the target plus
-- one, times the length of the pattern plus one, and the pattern once more; a round shortens the
-- pattern that is left or moves the saved star on by one byte. The reduction of a report runs on as many
-- rounds as the report has advisories and user agents, and one. In both, enough is proved.
--
-- Not modelled: the copy of each cookie in the jar of the HTTP client, and times as floating-point
-- numbers; fetching robots.txt and the checks of the target URL, which are calls of the HTTP client
-- and the URL parser; the constant fields of the crawl report; the prefetch list of the cache, a walk
-- of JSON values; the hash of an element's id, the text that a difference of pages is printed as, and
-- the regular expression of prices; and the other parts of the program (the JavaScript runtime, the
-- SOM compiler, the servers of the protocols, the store of profiles, plugins, the command line).
pub mod Common
pub mod Text
pub mod Wildcard
pub mod Assoc
pub mod Intercept
pub mod CrawlPolicy
pub mod Cache
pub mod Cookies
pub mod Security
pub mod Som
pub mod Session
pub mod Capability
pub mod Trace
pub mod Css
