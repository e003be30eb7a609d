-- ===== src/System/Private.antt =====
-- What a user reads: transactions of that user only.
use mathlib.Core.Path.{subst}
use fraud_detection_lite.Prelude.{
  ℕ, ◌≡◌, refl, Bool, true, false, ◌&&◌, Bool-cases, inl, inr, List, [], ◌∷◌, map, first_of, take,
  drop, Every, Every-mono, zero, suc, Option, some, if◌then◌else◌,
}
use fraud_detection_lite.Prelude.Int.{eqb→path, ℤ, pos, negsuc, eqb_ℤ}
use fraud_detection_lite.Specs.Error.{Result, ok, err, invalid_body}
use fraud_detection_lite.Specs.User.{UserTokenClaims}
use fraud_detection_lite.Repository.Models.{Transaction}
use fraud_detection_lite.Service.Environment.{Environment}
use fraud_detection_lite.Service.Session.{Security, authenticate}
use fraud_detection_lite.Api.Http.{Request, listed, found, Chunk, data_chunk, Codec, Writer, fresh}
use fraud_detection_lite.Api.Answers.{success_response-Every, error_response-Every}
use fraud_detection_lite.Api.Transactions.{
  get_id_from_request, listed_transaction, list_answer, get_answer, get_parsed,
  handle_get_transactions, handle_get_transaction,
}
use fraud_detection_lite.Api.Router.{
  Protected, protected, post_transactions, get_transactions, get_transaction, post_upload,
  post_logout, refusal, admitted, handle_protected, serve_route, serve,
}
use fraud_detection_lite.Store.Tables.{World, Engine}
use fraud_detection_lite.Store.Transactions.{
  of_user, page, get_all_transactions_by_user_id, get_transaction_by_txn_id, or_no_rows,
}
use fraud_detection_lite.Store.Interfaces.{user_service, transaction_service, transaction_queries}
use fraud_detection_lite.System.{serve_world}

-- A row of the table.
pub data IsAmong (t : Transaction) : List Transaction → Type 0 where
  first_row : {ts : List Transaction} → IsAmong t (t ∷ ts)
  later_row : {s : Transaction} {ts : List Transaction} → IsAmong t ts → IsAmong t (s ∷ ts)

-- A row of the table that belongs to the user.
abbrev pub IsOf : List Transaction → ℤ → Transaction → Type 0
IsOf table u t = (t.user_id ≡ u) × IsAmong t table

-- A chunk that shows no transaction but those of the user in the table.
abbrev pub IsPrivate : List Transaction → ℤ → Chunk → Type 0
IsPrivate table u (data_chunk (found t)) = IsOf table u t
IsPrivate table u (data_chunk (listed rs)) =
    (ts : List Transaction) × (rs ≡ map listed_transaction ts) × Every (IsOf table u) ts
IsPrivate table u chunk = Unit

-- The routes of GET.
abbrev pub IsRead : Protected → Type 0
IsRead get_transactions = Unit
IsRead (get_transaction id) = Unit
IsRead route = ⊥

-- The order of a listing brings in no other rows.
abbrev pub OrdersOnly : Engine → Type 1
OrdersOnly engine =
    (P : Transaction → Type 0) (ts : List Transaction)
    → Every P ts
    → Every P (engine.newest_first ts)

of_user-IsOf :
    (table : List Transaction) (u : ℤ) (ts : List Transaction)
    → Every (λ t. IsAmong t table) ts
    → Every (IsOf table u) (of_user u ts)
of_user-IsOf table u [] h = tt
of_user-IsOf table u (t ∷ ts) (ht, h) = elim (Bool-cases (eqb_ℤ t.user_id u)) [
  | inl own ↦ rw own ((eqb→path t.user_id u own, ht), of_user-IsOf table u ts h)
  | inr other ↦ rw other (of_user-IsOf table u ts h)
]

-- Every row of the table is among its rows.
rows-IsAmong : (ts : List Transaction) → Every (λ t. IsAmong t ts) ts
rows-IsAmong [] = tt
rows-IsAmong (t ∷ ts) = (
  first_row,
  Every-mono (λ (s : Transaction). IsAmong s ts) (λ s. IsAmong s (t ∷ ts)) ts (λ s h. later_row h)
      (rows-IsAmong ts),
)

Every-take :
    (P : Transaction → Type 0) (n : ℕ) (ts : List Transaction) → Every P ts → Every P (take n ts)
Every-take P zero ts h = tt
Every-take P (suc n) [] h = tt
Every-take P (suc n) (t ∷ ts) (ht, h) = (ht, Every-take P n ts h)

Every-drop :
    (P : Transaction → Type 0) (n : ℕ) (ts : List Transaction) → Every P ts → Every P (drop n ts)
Every-drop P zero ts h = h
Every-drop P (suc n) [] h = tt
Every-drop P (suc n) (t ∷ ts) (ht, h) = Every-drop P n ts h

page-IsOf :
    (engine : Engine) (P : Transaction → Type 0) (limit offset : ℤ) (ts rows : List Transaction)
    → Every P ts
    → page engine limit offset ts ≡ ok rows
    → Every P rows
page-IsOf engine P (pos n) (pos m) ts rows h e =
    subst (Every P) (rows_path e) (Every-take P n (drop m ts) (Every-drop P m ts h))
  where
    rows_path : {x y : List Transaction} → ok x ≡ ok y → x ≡ y
    rows_path q = cc
page-IsOf engine P (negsuc n) m ts rows h e = cc
page-IsOf engine P (pos n) (negsuc m) ts rows h e = cc

first_of-IsOf :
    (table : List Transaction) (n u : ℤ) (ts : List Transaction) (t : Transaction)
    → Every (λ s. IsAmong s table) ts
    → or_no_rows (first_of (λ (x : Transaction). eqb_ℤ x.id n && eqb_ℤ x.user_id u) ts) ≡ ok t
    → IsOf table u t
first_of-IsOf table n u [] t k h = cc
first_of-IsOf table n u (x ∷ ts) t (hx, k) h =
    pick (eqb_ℤ x.id n) (eqb_ℤ x.user_id u) refl h (λ e. first_of-IsOf table n u ts t k e)
  where
    later : Option Transaction
    later = first_of (λ (y : Transaction). eqb_ℤ y.id n && eqb_ℤ y.user_id u) ts

    same : {y z : Transaction} → ok y ≡ ok z → y ≡ z
    same q = cc

    pick :
        (a b : Bool)
        → eqb_ℤ x.user_id u ≡ b
        → or_no_rows (if a && b then some x else later) ≡ ok t
        → (or_no_rows later ≡ ok t → IsOf table u t)
        → IsOf table u t
    pick true true own e further = subst (IsOf table u) (same e) (eqb→path x.user_id u own, hx)
    pick true false own e further = further e
    pick false b own e further = further e

module _ (env : Environment World) (security : Security World) (codec : Codec)
    (engine : Engine) where
  abbrev listing : Result (List Transaction) → World → Writer × World
  listing rows w =
      list_answer codec security (transaction_service env engine) (transaction_queries engine)
        (rows, w) fresh

  listing-IsPrivate :
      (table : List Transaction) (u : ℤ) (rows : Result (List Transaction)) (w : World)
      → ((ts : List Transaction) → rows ≡ ok ts → Every (IsOf table u) ts)
      → Every (IsPrivate table u) (listing rows w).0.body
  listing-IsPrivate table u (ok ts) w f =
      success_response-Every (IsPrivate table u) codec tt 200 (listed (map listed_transaction ts))
        fresh (ts, refl, f ts refl) tt
  listing-IsPrivate table u (err e) w f =
      error_response-Every (IsPrivate table u) codec tt 500 e fresh tt tt

  abbrev lookup : Result Transaction → World → Writer × World
  lookup row w =
      get_answer codec security (transaction_service env engine) (transaction_queries engine)
        (row, w) fresh

  lookup-IsPrivate :
      (table : List Transaction) (u : ℤ) (row : Result Transaction) (w : World)
      → ((t : Transaction) → row ≡ ok t → IsOf table u t)
      → Every (IsPrivate table u) (lookup row w).0.body
  lookup-IsPrivate table u (ok t) w f =
      success_response-Every (IsPrivate table u) codec tt 200 (found t) fresh (f t refl) tt
  lookup-IsPrivate table u (err e) w f =
      error_response-Every (IsPrivate table u) codec tt 500 e fresh tt tt

  parsed-IsPrivate :
      (id : Result ℤ) (u : ℤ) (w : World)
      → Every
          (IsPrivate w.transactions u)
          (get_parsed codec security
            (transaction_service env engine)
            (transaction_queries engine)
            id
            u
            fresh
            w).0.body
  unfolding get_transaction_by_txn_id
  parsed-IsPrivate (ok id) u w =
      lookup-IsPrivate w.transactions u _ w
        (λ t e. first_of-IsOf w.transactions id u w.transactions t (rows-IsAmong w.transactions) e)
  parsed-IsPrivate (err e) u w =
      error_response-Every (IsPrivate w.transactions u) codec tt 400 invalid_body fresh tt tt

  handled-IsPrivate :
      (p : Protected) (r : Request) (w : World) (u : ℤ)
      → IsRead p
      → OrdersOnly engine
      → get_id_from_request security r w ≡ ok u
      → Every
          (IsPrivate w.transactions u)
          (handle_protected codec security
            (user_service security)
            (transaction_service env engine)
            (transaction_queries engine)
            p
            r
            fresh
            w).0.body
  unfolding handle_protected handle_get_transactions handle_get_transaction
      get_all_transactions_by_user_id
  handled-IsPrivate get_transactions r w u read orders own = rw own (
      listing-IsPrivate w.transactions u _ w (λ ts e.
        page-IsOf engine (IsOf w.transactions u) _ _
          (engine.newest_first (of_user u w.transactions)) ts
          (orders (IsOf w.transactions u) (of_user u w.transactions)
            (of_user-IsOf w.transactions u w.transactions (rows-IsAmong w.transactions)))
          e))
  handled-IsPrivate (get_transaction id) r w u read orders own =
      rw own (parsed-IsPrivate (codec.parse_int32 id) u w)
  handled-IsPrivate post_transactions r w u read orders own = absurd read
  handled-IsPrivate post_upload r w u read orders own = absurd read
  handled-IsPrivate post_logout r w u read orders own = absurd read

  admitted-IsPrivate :
      (judged : Result UserTokenClaims × World) (p : Protected) (r : Request) (u : ℤ)
      → IsRead p
      → OrdersOnly engine
      → get_id_from_request security r judged.1 ≡ ok u
      → Every
          (IsPrivate judged.1.transactions u)
          (admitted codec security
            (user_service security)
            (transaction_service env engine)
            (transaction_queries engine)
            judged
            p
            r
            fresh).0.body
  admitted-IsPrivate (ok claims, w) p r u read orders own =
      handled-IsPrivate p r w u read orders own
  admitted-IsPrivate (err e, w) p r u read orders own =
      error_response-Every (IsPrivate w.transactions u) codec tt (refusal e) e fresh tt tt

  -- Where the order of a listing brings in no other rows: whatever the tables hold, a response to a GET
  -- shows nothing but rows of the table, as it is when the handler runs, that belong to the user whose
  -- identifier the handler reads from the request.
  pub serve_world-IsPrivate :
      (p : Protected) (r : Request) (w : World) (u : ℤ)
      → IsRead p
      → OrdersOnly engine
      → get_id_from_request security r (authenticate security r.authorization w).1 ≡ ok u
      → Every
          (IsPrivate (authenticate security r.authorization w).1.transactions u)
          (serve_world env security codec engine (protected p) r w).0.body
  unfolding serve_world serve serve_route
  serve_world-IsPrivate p r w u read orders own =
      admitted-IsPrivate (authenticate security r.authorization w) p r u read orders own
