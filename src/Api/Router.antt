-- ===== src/Api/Router.antt =====
-- internal/api/router.go, with AuthMiddleware of internal/pkg/middleware/auth.go and LoggerMiddleware of
-- log.go: which handler serves a request, and behind which middleware.
use fraud_detection_lite.Prelude.{
  ℕ, String, Option, none, some, List, [], ◌∷◌, str_eq, if◌then◌else◌,
}
use fraud_detection_lite.Specs.Error.{Error, Result, ok, err, auth_service_unavailable}
use fraud_detection_lite.Specs.User.{UserTokenClaims}
use fraud_detection_lite.Repository.Queries.{TransactionQueries}
use fraud_detection_lite.Service.Session.{Security, authenticate}
use fraud_detection_lite.Api.Http.{Request, Codec, Writer, fresh, error_response}
use fraud_detection_lite.Api.Users.{
  UserServiceInterface, handle_signup, handle_login, handle_logout,
}
use fraud_detection_lite.Api.Transactions.{
  TransactionServiceInterface, handle_post_transaction, handle_get_transactions,
  handle_get_transaction, handle_upload,
}

-- The routes behind AuthMiddleware.
pub data Protected : Type 0 where
  post_transactions : Protected
  get_transactions : Protected
  get_transaction : String → Protected
  post_upload : Protected
  post_logout : Protected

pub data Route : Type 0 where
  post_signup : Route
  post_login : Route
  protected : Protected → Route

-- The protected routes of a method, below /api; a variable of a path is not empty.
abbrev pub route_get : List String → Option Protected
route_get (a ∷ []) = if str_eq a "transactions" then some get_transactions else none
route_get (a ∷ id ∷ []) =
    if str_eq a "transactions"
    then if str_eq id "" then none else some (get_transaction id)
    else none
route_get _ = none

abbrev pub route_post : List String → Option Protected
route_post (a ∷ []) =
    if str_eq a "transactions"
    then some post_transactions
    else if str_eq a "logout"
    then some post_logout
    else none
route_post (a ∷ b ∷ []) =
    if str_eq a "transactions" then if str_eq b "upload" then some post_upload else none else none
route_post _ = none

abbrev pub protect : Option Protected → Option Route
protect (some p) = some (protected p)
protect none = none

abbrev pub route_open : List String → Option Route
route_open (a ∷ []) =
    if str_eq a "signup"
    then some post_signup
    else if str_eq a "login"
    then some post_login
    else none
route_open _ = none

-- The routes of POST, of which those outside /api have one segment.
abbrev pub route_posted : List String → Option Route
route_posted (a ∷ b ∷ path) =
    let inner = protect (route_post (b ∷ path)) in if str_eq a "api" then inner else none
route_posted path = route_open path

abbrev pub route_gotten : List String → Option Route
route_gotten (a ∷ path) =
    let inner = protect (route_get path) in if str_eq a "api" then inner else none
route_gotten [] = none

-- NewRouter: the route of a method and a path, if there is one.
unfoldable pub route : String → List String → Option Route
route method path =
    let posted = route_posted path in
    let gotten = route_gotten path in
    if str_eq method "POST" then posted else if str_eq method "GET" then gotten else none

-- The status of an error of AuthMiddleware.
abbrev pub refusal : Error → ℕ
refusal auth_service_unavailable = 500
refusal e = 401

module _ {S : Type 0} (codec : Codec) (security : Security S) (users : UserServiceInterface S)
    (transactions : TransactionServiceInterface S) (db : TransactionQueries S) where
  unfoldable pub handle_protected : Protected → Request → Writer → S → Writer × S
  handle_protected post_transactions r w s =
      handle_post_transaction codec security transactions db r w s
  handle_protected get_transactions r w s =
      handle_get_transactions codec security transactions db r w s
  handle_protected (get_transaction id) r w s =
      handle_get_transaction codec security transactions db id r w s
  handle_protected post_upload r w s = handle_upload codec security transactions db r w s
  handle_protected post_logout r w s = handle_logout codec security users r w s

  -- AuthMiddleware around a handler, once the request is judged.
  abbrev pub admitted : Result UserTokenClaims × S → Protected → Request → Writer → Writer × S
  admitted (ok claims, s) p r w = handle_protected p r w s
  admitted (err e, s) p r w = (error_response codec (refusal e) e w, s)

  unfoldable pub serve_route : Route → Request → Writer → S → Writer × S
  unfolding handle_protected
  serve_route post_signup r w s = handle_signup codec security users r w s
  serve_route post_login r w s = handle_login codec security users r w s
  serve_route (protected p) r w s = admitted (authenticate security r.authorization s) p r w

  -- The response to a routed request, through LoggerMiddleware's recorder.
  unfoldable pub serve : Route → Request → S → Writer × S
  unfolding serve_route
  serve to r s = serve_route to r fresh s
