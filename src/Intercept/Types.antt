-- ===== src/Intercept/Types.antt =====
-- The data of src/network/intercept.rs, with the results of src/network/fetch.rs that it handles.
-- Maps of headers are association lists.
use plasmate.Common.{ℕ, Bool, Option, List}
use plasmate.Text.{Text}
use plasmate.Intercept.Kinds.{ResourceType, RequestStage, ErrorReason}

-- src/network/fetch.rs
pub record FetchResult : Type 0 where
  pub url : Text
  pub status : ℕ
  pub content_type : Text
  pub html : Text
  pub html_bytes : ℕ
  pub load_ms : ℕ
  pub set_cookies : List Text

pub data FetchError : Type 0 where
  navigation_failed : Text → FetchError
  timeout : ℕ → FetchError
  http_error : ℕ → Text → FetchError
  url_blocked : Text → FetchError
  too_many_redirects : ℕ → FetchError
  body_too_large : ℕ → FetchError

pub record RequestPattern : Type 0 where
  pub url_pattern : Option Text
  pub resource_type : Option ResourceType
  pub request_stage : RequestStage

pub record RequestOverrides : Type 0 where
  pub url : Option Text
  pub method : Option Text
  pub headers : Option (List (Text × Text))
  pub post_data : Option Text

pub record FulfillParams : Type 0 where
  pub status : ℕ
  pub headers : List (Text × Text)
  pub body : Option Text

pub data InterceptAction : Type 0 where
  proceed : Option RequestOverrides → InterceptAction
  fulfill : FulfillParams → InterceptAction
  fail : ErrorReason → InterceptAction

pub record InterceptRule : Type 0 where
  pub pattern : RequestPattern
  pub action : InterceptAction

pub data RequestId : Type 0 where
  intercept : ℕ → RequestId

pub record InterceptedRequestInfo : Type 0 where
  pub request_id : RequestId
  pub url : Text
  pub method : Text
  pub resource_type : Text
  pub is_navigation : Bool

pub record ResponseOverrides : Type 0 where
  pub status : Option ℕ
  pub headers : Option (List (Text × Text))
  pub body : Option Text

pub record ResponseRule : Type 0 where
  pub pattern : RequestPattern
  pub overrides : ResponseOverrides

pub record NetworkInterceptor : Type 0 where
  pub enabled : Bool
  pub patterns : List RequestPattern
  pub rules : List InterceptRule
  pub response_rules : List ResponseRule
  pub intercepted_log : List InterceptedRequestInfo
  pub max_log_entries : ℕ
