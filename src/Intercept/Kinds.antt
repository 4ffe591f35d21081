-- ===== src/Intercept/Kinds.antt =====
-- The enums of src/network/intercept.rs with their names in the DevTools protocol.
pub mod Names
use plasmate.Common.{◌≡◌, Bool, true, false, List, [], ◌∷◌, if◌then◌else◌}
use plasmate.Text.{Text, codes, text_eq}

pub data ResourceType : Type 0 where
  document stylesheet image media font script text_track xhr fetch prefetch : ResourceType
  event_source web_socket manifest signed_exchange ping csp_violation_report : ResourceType
  preflight other : ResourceType

pub data RequestStage : Type 0 where
  request response : RequestStage

pub data ErrorReason : Type 0 where
  failed aborted timed_out access_denied connection_closed connection_reset : ErrorReason
  connection_refused connection_aborted connection_failed name_not_resolved : ErrorReason
  internet_disconnected address_unreachable blocked_by_client blocked_by_response : ErrorReason

-- `match s { "A" => a, "B" => b, _ => d }`: the arms are tried in order.
unfoldable pub match_str : {A : Type 0} → Text → List (Text × A) → A → A
match_str s [] d = d
match_str s ((name, a) ∷ arms) d = if text_eq s name then a else match_str s arms d

abbrev pub resource_type_arms : List (Text × ResourceType)
resource_type_arms =
    (codes "Document", document)
    ∷ (codes "Stylesheet", stylesheet)
    ∷ (codes "Image", image)
    ∷ (codes "Media", media)
    ∷ (codes "Font", font)
    ∷ (codes "Script", script)
    ∷ (codes "TextTrack", text_track)
    ∷ (codes "XHR", xhr)
    ∷ (codes "Fetch", fetch)
    ∷ (codes "Prefetch", prefetch)
    ∷ (codes "EventSource", event_source)
    ∷ (codes "WebSocket", web_socket)
    ∷ (codes "Manifest", manifest)
    ∷ (codes "SignedExchange", signed_exchange)
    ∷ (codes "Ping", ping)
    ∷ (codes "CSPViolationReport", csp_violation_report)
    ∷ (codes "Preflight", preflight)
    ∷ []

-- `ResourceType::from_cdp_str`
unfoldable pub resource_type_of : Text → ResourceType
unfolding match_str
resource_type_of s = match_str s resource_type_arms other

-- `ResourceType::as_str`
unfoldable pub resource_type_name : ResourceType → Text
resource_type_name document = codes "Document"
resource_type_name stylesheet = codes "Stylesheet"
resource_type_name image = codes "Image"
resource_type_name media = codes "Media"
resource_type_name font = codes "Font"
resource_type_name script = codes "Script"
resource_type_name text_track = codes "TextTrack"
resource_type_name xhr = codes "XHR"
resource_type_name fetch = codes "Fetch"
resource_type_name prefetch = codes "Prefetch"
resource_type_name event_source = codes "EventSource"
resource_type_name web_socket = codes "WebSocket"
resource_type_name manifest = codes "Manifest"
resource_type_name signed_exchange = codes "SignedExchange"
resource_type_name ping = codes "Ping"
resource_type_name csp_violation_report = codes "CSPViolationReport"
resource_type_name preflight = codes "Preflight"
resource_type_name other = codes "Other"

abbrev pub error_reason_arms : List (Text × ErrorReason)
error_reason_arms =
    (codes "Failed", failed)
    ∷ (codes "Aborted", aborted)
    ∷ (codes "TimedOut", timed_out)
    ∷ (codes "AccessDenied", access_denied)
    ∷ (codes "ConnectionClosed", connection_closed)
    ∷ (codes "ConnectionReset", connection_reset)
    ∷ (codes "ConnectionRefused", connection_refused)
    ∷ (codes "ConnectionAborted", connection_aborted)
    ∷ (codes "ConnectionFailed", connection_failed)
    ∷ (codes "NameNotResolved", name_not_resolved)
    ∷ (codes "InternetDisconnected", internet_disconnected)
    ∷ (codes "AddressUnreachable", address_unreachable)
    ∷ (codes "BlockedByClient", blocked_by_client)
    ∷ (codes "BlockedByResponse", blocked_by_response)
    ∷ []

-- `ErrorReason::from_cdp_str`
unfoldable pub error_reason_of : Text → ErrorReason
unfolding match_str
error_reason_of s = match_str s error_reason_arms failed

-- `ErrorReason::as_str`
unfoldable pub error_reason_name : ErrorReason → Text
error_reason_name failed = codes "Failed"
error_reason_name aborted = codes "Aborted"
error_reason_name timed_out = codes "TimedOut"
error_reason_name access_denied = codes "AccessDenied"
error_reason_name connection_closed = codes "ConnectionClosed"
error_reason_name connection_reset = codes "ConnectionReset"
error_reason_name connection_refused = codes "ConnectionRefused"
error_reason_name connection_aborted = codes "ConnectionAborted"
error_reason_name connection_failed = codes "ConnectionFailed"
error_reason_name name_not_resolved = codes "NameNotResolved"
error_reason_name internet_disconnected = codes "InternetDisconnected"
error_reason_name address_unreachable = codes "AddressUnreachable"
error_reason_name blocked_by_client = codes "BlockedByClient"
error_reason_name blocked_by_response = codes "BlockedByResponse"

-- `ResourceType`'s derived equality
pub resource_type_discrete : Discrete ResourceType
resource_type_discrete = hlevel

unfoldable pub resource_type_eq : ResourceType → ResourceType → Bool
unfolding resource_type_discrete
resource_type_eq a b = elim (resource_type_discrete a b) [ yes _ ↦ true | no _ ↦ false ]

unfoldable pub is_request_stage : RequestStage → Bool
is_request_stage request = true
is_request_stage response = false
