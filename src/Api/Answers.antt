-- ===== src/Api/Answers.antt =====
-- The chunks that a response consists of, and what a refused request is answered.
use mathlib.Core.Path.{subst}
use fraud_detection_lite.Prelude.{ℕ, ◌≡◌, refl, Bool-cases, inl, inr, Every, Every-append_one, some}
use fraud_detection_lite.Specs.Error.{Error, Result, ok, err}
use fraud_detection_lite.Specs.User.{UserTokenClaims}
use fraud_detection_lite.Repository.Queries.{TransactionQueries}
use fraud_detection_lite.Service.Session.{Security, authenticate}
use fraud_detection_lite.Api.Http.{
  Request, Payload, Chunk, data_chunk, error_chunk, server_error_chunk, Codec, Writer, fresh,
  write_header, write_server_error_response, success_response, error_response,
}
use fraud_detection_lite.Api.Users.{UserServiceInterface}
use fraud_detection_lite.Api.Transactions.{TransactionServiceInterface}
use fraud_detection_lite.Api.Router.{Protected, protected, refusal, admitted, serve_route, serve}

abbrev pub HasNoData : Chunk → Type 0
HasNoData (data_chunk payload) = ⊥
HasNoData (error_chunk status e) = Unit
HasNoData server_error_chunk = Unit

module _ {ℓ} (P : Chunk → Type ℓ) (codec : Codec) (at_failure : P server_error_chunk) where
  write_server_error_response-Every :
      (w : Writer) → Every P w.body → Every P (write_server_error_response codec w).body
  unfolding write_server_error_response
  write_server_error_response-Every w h = elim (Bool-cases (codec.writes server_error_chunk)) [
    | inl written ↦ rw written (Every-append_one P w.body server_error_chunk h at_failure)
    | inr lost ↦ rw lost h
  ]

  pub success_response-Every :
      (status : ℕ) (payload : Payload) (w : Writer)
      → P (data_chunk payload)
      → Every P w.body
      → Every P (success_response codec status payload w).body
  unfolding success_response
  success_response-Every status payload w p h =
      let v = write_header status w in
      elim (Bool-cases (codec.marshals (data_chunk payload))) [
        | inr failed ↦ rw failed (write_server_error_response-Every v h)
        | inl marshalled ↦ elim (Bool-cases (codec.writes (data_chunk payload))) [
          | inl written ↦
              rw (marshalled, written) (Every-append_one P w.body (data_chunk payload) h p)
          | inr lost ↦ rw (marshalled, lost) (write_server_error_response-Every v h)
        ]
      ]

  pub error_response-Every :
      (status : ℕ) (e : Error) (w : Writer)
      → P (error_chunk status e)
      → Every P w.body
      → Every P (error_response codec status e w).body
  unfolding error_response
  error_response-Every status e w p h =
      let v = write_header status w in
      elim (Bool-cases (codec.marshals (error_chunk status e))) [
        | inr failed ↦ rw failed h
        | inl marshalled ↦ elim (Bool-cases (codec.writes (error_chunk status e))) [
          | inl written ↦
              rw (marshalled, written) (Every-append_one P w.body (error_chunk status e) h p)
          | inr lost ↦ rw (marshalled, lost) (write_server_error_response-Every v h)
        ]
      ]

error_response-sent :
    (codec : Codec) (status : ℕ) (e : Error)
    → (error_response codec status e fresh).sent ≡ some status
unfolding error_response write_server_error_response
error_response-sent codec status e = elim (Bool-cases (codec.marshals (error_chunk status e))) [
  | inr failed ↦ rw failed refl
  | inl marshalled ↦ elim (Bool-cases (codec.writes (error_chunk status e))) [
    | inl written ↦ rw (marshalled, written) refl
    | inr lost ↦ elim (Bool-cases (codec.writes server_error_chunk)) [
      | inl last ↦ rw (marshalled, lost, last) refl
      | inr never ↦ rw (marshalled, lost, never) refl
    ]
  ]
]

module _ {S : Type 0} (codec : Codec) (security : Security S) (users : UserServiceInterface S)
    (transactions : TransactionServiceInterface S) (db : TransactionQueries S) where
  admitted-refuses :
      (judged : Result UserTokenClaims × S) (p : Protected) (r : Request) (e : Error)
      → judged.0 ≡ err e
      → let (response, s) = admitted codec security users transactions db judged p r fresh in
        (response.sent ≡ some (refusal e)) × Every HasNoData response.body × (s ≡ judged.1)
  admitted-refuses (ok claims, s) p r e h = cc
  admitted-refuses (err f, s) p r e h =
      subst
        (λ g.
          ((error_response codec (refusal f) f fresh).sent ≡ some (refusal g))
          × Every HasNoData (error_response codec (refusal f) f fresh).body
          × (s ≡ s))
        (error_path (err f) refl h)
        (
          error_response-sent codec (refusal f) f,
          error_response-Every HasNoData codec tt (refusal f) f fresh tt tt,
          refl,
        )
    where
      error_path :
          {x y : Error} (judged : Result UserTokenClaims) → judged ≡ err x → judged ≡ err y → x ≡ y
      error_path judged hx hy = cc

  -- A request to a protected route that AuthMiddleware refuses with an error is answered with the
  -- status of that error and no data, and its handler changes nothing: the state is that of the
  -- middleware's own look at the token.
  pub serve-refuses :
      (p : Protected) (r : Request) (s : S) (e : Error)
      → (authenticate security r.authorization s).0 ≡ err e
      → let (response, after) = serve codec security users transactions db (protected p) r s in
        (response.sent ≡ some (refusal e))
        × Every HasNoData response.body
        × (after ≡ (authenticate security r.authorization s).1)
  unfolding serve serve_route
  serve-refuses p r s e h = admitted-refuses (authenticate security r.authorization s) p r e h
