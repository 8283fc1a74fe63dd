-- ===== src/Notify/Send.antt =====
-- `Send` of internal/notify/notify.go. The HTTP client is a parameter: `post` delivers a request to a
-- world, and answers with a status code, or with none where the transport failed; `valid_url` says
-- which URLs make a request.
use Prim.Native.String.{◌++◌}
use poddoctor.Prelude.{
  ℕ, String, Bool, not, Option, none, some, ◌==◌, pos, leb_ℤ, leb, if◌then◌else◌,
}
use poddoctor.Text.{decimal}
use poddoctor.Json.{Json, str, obj, end, field}
use poddoctor.Notify.Router.{Format, format_slack}
use poddoctor.Notify.Payload.{Payload, Notification, payload_of, marshal}

-- A request as the server reads it: no Authorization header is the empty text, as Header.Get says.
pub record Request : Type 0 where
  pub method : String
  pub url : String
  pub content_type : String
  pub authorization : String
  pub body : Option Json

pub data SendError : Type 0 where
  bad_request : SendError
  transport : SendError
  bad_status : ℕ → SendError

pub record HttpClient (W : Type 0) : Type 0 where
  pub valid_url : String → Bool
  pub post : Request → W → Option ℕ × W

-- The text for Slack.
unfoldable pub slack_text : Payload → String
slack_text p =
    let text : String =
      "*PodDoctor*: `"
      ++ (p.namespace
          ++ ("/"
              ++ (p.pod
                  ++ ("` ("
                      ++ (p.container
                          ++ (") — "
                              ++ (p.root_cause
                                  ++ ("/"
                                      ++ (p.confidence
                                          ++ ("\n"
                                              ++ (p.summary
                                                  ++ ("\n_Recommendation:_ "
                                                      ++ p.recommendation)))))))))))) in
    if leb_ℤ p.suppressed_count (pos 0)
    then text
    else text
      ++ ("\n_(+" ++ (decimal p.suppressed_count ++ " more like this since the last alert)_"))

unfoldable pub body_of : Format → Payload → Json
unfolding slack_text
body_of format p =
    if format == format_slack then obj (field "text" (str (slack_text p)) end) else marshal p

unfoldable pub request_of : String → Format → String → Notification → Request
request_of url format token n = record {
  method = "POST";
  url = url;
  content_type = "application/json";
  authorization = if not (token == "") then "Bearer " ++ token else "";
  body = some (body_of format (payload_of n));
}

-- The status test; none is success.
unfoldable pub status_error : Option ℕ → Option SendError
status_error none = some transport
status_error (some code) = if leb 300 code then some (bad_status code) else none

unfoldable pub send :
    {W : Type 0} → HttpClient W → String → Format → String → Notification → W → Option SendError × W
send client url format token n w =
    if client.valid_url url
    then (let (answer, w') = client.post (request_of url format token n) w in
        (status_error answer, w'))
    else (some bad_request, w)
