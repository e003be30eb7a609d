-- ===== src/Api/Http.antt =====
-- internal/pkg/middleware/response_writer.go, and what net/http gives a handler.
use fraud_detection_lite.Prelude.{
  ℕ, String, Bool, false, List, [], ◌∷◌, ◌++◌, Option, none, some, if◌then◌else◌,
}
use fraud_detection_lite.Prelude.Int.{ℤ}
use fraud_detection_lite.Specs.Error.{Error, Result}
use fraud_detection_lite.Specs.Txn.{
  CreateTransactionRequest, CreateTransactionResponse, BulkProcessResponse,
}
use fraud_detection_lite.Specs.User.{
  UserSignupRequest, UserSignupResponse, UserLoginRequest, UserLoginResponse,
}
use fraud_detection_lite.Repository.Models.{Transaction}
use fraud_detection_lite.Service.Environment.{Upload}

-- What r.FormFile("file") gives.
pub data FormFile : Type 0 where
  uploaded : Upload → String → FormFile
  missing_file : FormFile
  bad_form : FormFile

-- A request; `path` holds the segments of the URL's path, and `query` its parameters, where a missing
-- one is the empty text. `context_user_id` is the value of "user_id" in the context, if it is an int32.
pub record Request : Type 0 where
  pub method : String
  pub path : List String
  pub query : String → String
  pub authorization : String
  pub context_user_id : Option ℤ
  pub body : String
  pub form : FormFile

-- The data of the responses.
pub data Payload : Type 0 where
  signed_up : UserSignupResponse → Payload
  logged_in : UserLoginResponse → Payload
  message : String → Payload
  created : CreateTransactionResponse → Payload
  listed : List CreateTransactionResponse → Payload
  found : Transaction → Payload
  processed : BulkProcessResponse → Payload

-- A piece of a response's body: {"data": …}, {"error_code": …, "error_message": …}, or the fixed
-- text of a server error.
pub data Chunk : Type 0 where
  data_chunk : Payload → Chunk
  error_chunk : ℕ → Error → Chunk
  server_error_chunk : Chunk

-- encoding/json and strconv, the writing to the connection, and the trimming of texts.
pub record Codec : Type 0 where
  pub decode_signup : String → Result UserSignupRequest
  pub decode_login : String → Result UserLoginRequest
  pub decode_transaction : String → Result CreateTransactionRequest
  pub matches_email : String → Bool
  pub atoi : String → Result ℤ
  pub parse_int32 : String → Result ℤ
  pub trim_space : String → String
  pub marshals : Chunk → Bool
  pub writes : Chunk → Bool

-- A response in the making: the status that was sent, which the first call of WriteHeader decides,
-- the status that the logger's recorder holds, which is that of the last, the body, and whether the
-- handler panicked.
pub record Writer : Type 0 where
  pub sent : Option ℕ
  pub recorded : ℕ
  pub body : List Chunk
  pub panicked : Bool

-- The writer that LoggerMiddleware passes on.
abbrev pub fresh : Writer
fresh = record { sent = none; recorded = 200; body = []; panicked = false }

abbrev pub or_first : Option ℕ → ℕ → Option ℕ
or_first none n = some n
or_first (some m) n = some m

-- statusRecorder.WriteHeader around net/http's, which ignores a second call.
abbrev pub write_header : ℕ → Writer → Writer
write_header n w = record w { sent = or_first w.sent n; recorded = n }

-- Write, which sends the status 200 if none was sent.
abbrev pub write : Chunk → Writer → Writer
write c w = record w { sent = or_first w.sent 200; body = w.body ++ c ∷ [] }

module _ (codec : Codec) where
  unfoldable pub write_server_error_response : Writer → Writer
  write_server_error_response w =
      let v = write_header 500 w in
      if codec.writes server_error_chunk then write server_error_chunk v else v

  -- SuccessResponse
  unfoldable pub success_response : ℕ → Payload → Writer → Writer
  unfolding write_server_error_response
  success_response status payload w =
      let v = write_header status w in
      let c = data_chunk payload in
      if codec.marshals c
      then if codec.writes c then write c v else write_server_error_response v
      else write_server_error_response v

  -- ErrorResponse
  unfoldable pub error_response : ℕ → Error → Writer → Writer
  unfolding write_server_error_response
  error_response status e w =
      let v = write_header status w in
      let c = error_chunk status e in
      if codec.marshals c
      then if codec.writes c then write c v else write_server_error_response v
      else v
