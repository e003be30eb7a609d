-- ===== src/Startup/Types.antt =====
-- The types that a new connection learns.
use fraud_detection_lite.Prelude.{
  ℕ, ◌≡◌, refl, ap, ◌∙◌, ◌⊎◌, inl, inr, String, List, ◌∷◌, some, none,
}
use fraud_detection_lite.Specs.Error.{Error, Result, ok, err}
use fraud_detection_lite.Startup.Database.{
  PgType, Conn, mode_type, mode_array_type, register_modes, read_array_oid, after_connect,
}

-- What pgx does with the types of a connection: a query leaves them, RegisterType adds one.
pub record KeepsTypes {S : Type 0} (conn : Conn S) (types : S → List PgType) : Type 0 where
  pub kept : (text : String) (s : S) → types (conn.query_oid text s).1 ≡ types s
  pub added : (t : PgType) (s : S) → types (conn.register_type t s) ≡ t ∷ types s

-- Both numbers were read, by these queries, and the two types were registered with them.
abbrev pub BothRegistered : {S : Type 0} → Conn S → S → List PgType → List PgType → Type 0
BothRegistered conn s before after =
    (mode_oid : ℕ) × (array_oid : ℕ) × ((conn.query_oid "SELECT 'mode'::regtype::oid" s).0
      ≡ ok mode_oid)
    × ((conn.query_oid "SELECT '_mode'::regtype::oid"
          (conn.query_oid "SELECT 'mode'::regtype::oid" s).1).0
        ≡ ok array_oid)
    × (after
        ≡ record { name = "_mode"; oid = array_oid; element_type = some ("mode", mode_oid) }
          ∷ record { name = "mode"; oid = mode_oid; element_type = none }
          ∷ before)

-- One of the queries failed, with this error.
abbrev pub OneFailed : {S : Type 0} → Conn S → S → Error → Type 0
OneFailed conn s e =
    ((conn.query_oid "SELECT 'mode'::regtype::oid" s).0 ≡ err e)
    ⊎ ((conn.query_oid "SELECT '_mode'::regtype::oid"
          (conn.query_oid "SELECT 'mode'::regtype::oid" s).1).0
        ≡ err e)

module _ {S : Type 0} (conn : Conn S) (types : S → List PgType) (keeps : KeepsTypes conn types)
    (s : S) where
  abbrev s1 : S
  s1 = (conn.query_oid "SELECT 'mode'::regtype::oid" s).1

  abbrev s2 : S
  s2 = (conn.query_oid "SELECT '_mode'::regtype::oid" s1).1

  abbrev Registers : Result (Unit {0}) × S → Type 0
  Registers made =
      ((e : Error) × (made.0 ≡ err e) × (types made.1 ≡ types s) × OneFailed conn s e)
      ⊎ ((made.0 ≡ ok tt) × BothRegistered conn s (types s) (types made.1))

  unchanged : types s2 ≡ types s
  unchanged =
      keeps.kept "SELECT '_mode'::regtype::oid" s1 ∙ keeps.kept "SELECT 'mode'::regtype::oid" s

  register_modes-Registers :
      (mode_oid : ℕ) (read : Result ℕ)
      → (conn.query_oid "SELECT 'mode'::regtype::oid" s).0 ≡ ok mode_oid
      → (conn.query_oid "SELECT '_mode'::regtype::oid" s1).0 ≡ read
      → Registers (register_modes conn mode_oid read s2)
  register_modes-Registers mode_oid (err e) first second = inl (e, refl, unchanged, inr second)
  register_modes-Registers mode_oid (ok array_oid) first second = inr (
    refl,
    (
      mode_oid,
      array_oid,
      first,
      second,
      keeps.added (mode_array_type mode_oid array_oid) _
          ∙ ap (λ ts. mode_array_type mode_oid array_oid ∷ ts)
              (keeps.added (mode_type mode_oid) s2 ∙ ap (λ ts. mode_type mode_oid ∷ ts) unchanged),
    ),
  )

  read_array_oid-Registers :
      (read : Result ℕ)
      → (conn.query_oid "SELECT 'mode'::regtype::oid" s).0 ≡ read
      → Registers (read_array_oid conn read s1)
  read_array_oid-Registers (err e) first =
      inl (e, refl, keeps.kept "SELECT 'mode'::regtype::oid" s, inl first)
  read_array_oid-Registers (ok mode_oid) first = register_modes-Registers mode_oid _ first refl

  -- Where a query leaves the types of a connection alone, and RegisterType adds one: a new connection
  -- either is refused with the error of one of the two queries and has learned no type, or has learned
  -- exactly two: mode, with the number that the first query gave, and _mode, with that of the second
  -- and with elements of the type mode and the first number.
  pub after_connect-Registers :
      let (answer, after) = after_connect conn s in
      ((e : Error) × (answer ≡ err e) × (types after ≡ types s) × OneFailed conn s e)
      ⊎ ((answer ≡ ok tt) × BothRegistered conn s (types s) (types after))
  unfolding after_connect
  after_connect-Registers =
      read_array_oid-Registers (conn.query_oid "SELECT 'mode'::regtype::oid" s).0 refl
