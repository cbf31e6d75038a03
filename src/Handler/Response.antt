-- ===== src/Handler/Response.antt =====
-- internal/handler/response.go
use zzte.Prelude.{
  Bool, Option, String, false, int_eq, leb, ltb, nat_eq, none, some, text_eq, true, ℕ, ◌&&◌,
}

-- The status line and the body of a response.
pub record Response (A : Type 0) : Type 0 where
  pub status : ℕ
  pub success : Bool
  pub body : Option A
  pub error : String
  pub message : String

module _ {A : Type 0} where
  -- `JSON`
  unfoldable pub json : ℕ → A → Response A
  json status a = record {
    status = status;
    success = leb 200 status && ltb status 300;
    body = some a;
    error = "";
    message = "";
  }

  -- `Error`
  unfoldable pub error_response : ℕ → String → Response A
  error_response status text = record {
    status = status;
    success = false;
    body = none;
    error = text;
    message = "";
  }

  -- `MessageResponse`
  unfoldable pub message_response : String → Response A
  message_response text = record {
    status = 200;
    success = true;
    body = none;
    error = "";
    message = text;
  }

  unfoldable pub success : A → Response A
  unfolding json
  success a = json 200 a

  unfoldable pub created : A → Response A
  unfolding json
  created a = json 201 a

  unfoldable pub bad_request : String → Response A
  unfolding error_response
  bad_request text = error_response 400 text

  unfoldable pub unauthorized : String → Response A
  unfolding error_response
  unauthorized text = error_response 401 text

  unfoldable pub forbidden : String → Response A
  unfolding error_response
  forbidden text = error_response 403 text

  unfoldable pub not_found : String → Response A
  unfolding error_response
  not_found text = error_response 404 text

  unfoldable pub conflict : String → Response A
  unfolding error_response
  conflict text = error_response 409 text

  unfoldable pub too_many_requests : String → Response A
  unfolding error_response
  too_many_requests text = error_response 429 text

  unfoldable pub internal_error : String → Response A
  unfolding error_response
  internal_error text = error_response 500 text
