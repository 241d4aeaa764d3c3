-- ===== src/Db/Roulette/Backend.antt =====
-- What src/db/dbquery.cpp uses of libcurl and jsoncpp.
use ironhide.Base.{ℕ, Bool, List, Option}
use ironhide.Base.Result.{Result}
use ironhide.Base.Text.{Text}
use ironhide.Db.Query.{JsonObject}

-- One transfer: CURLOPT_CUSTOMREQUEST, CURLOPT_URL and, where there is one, CURLOPT_POSTFIELDS,
-- which goes with the header "Content-Type: application/json".
pub record Request : Type 0 where
  pub method : Text
  pub url : Text
  pub body : Option Text

-- The transfers of the process, and the handles that curl_easy_init made and curl_easy_cleanup did
-- not release.
pub record Net : Type 0 where
  pub sent : List Request
  pub open_handles : ℕ

-- `easy_init` tells whether curl_easy_init gives a handle. `perform` is curl_easy_perform with the
-- service behind it: whether it returns CURLE_OK, and the chunks that it hands to the callback;
-- both may depend on what was sent before. The rest is jsoncpp: CharReader::parse, `value[key]`,
-- `value == text`, asString, asUInt, iteration, and toStyledString of the members assigned.
pub record Backend : Type 1 where
  pub Value : Type 0
  pub easy_init : List Request → Bool
  pub perform : List Request → Request → Bool × List Text
  pub parse : Text → Option Value
  pub member : Value → Text → Result Value
  pub equals : Value → Text → Bool
  pub as_string : Value → Result Text
  pub as_uint : Value → Result ℕ
  pub elements : Value → List Value
  pub styled : JsonObject → Text
