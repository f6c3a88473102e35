-- ===== src/Bytes/Result.antt =====
-- `nom::IResult` and `nom::Err`, with the error kinds that the code raises. `incomplete n` asks for
-- `n` more bytes; an `error` or a `failure` keeps the input at which it was raised. `stuck` is no value
-- of the code: a loop of the model has used up its fuel.
use ddns.Prelude.{ℕ, List, ◌≡◌, refl, ◌⊎◌, inl, inr}

pub data ErrorKind : Type 0 where
  verify alt eof too_large length_value : ErrorKind

pub data NomError : Type 0 where
  incomplete : ℕ → NomError
  error : List ℕ → ErrorKind → NomError
  failure : List ℕ → ErrorKind → NomError
  stuck : NomError

pub data IResult {ℓ} (A : Type ℓ) : Type ℓ where
  ok : List ℕ × A → IResult A
  err : NomError → IResult A

-- The operator `?`.
infixl 5 ◌>>=◌
abbrev pub ◌>>=◌ {ℓ κ} :
    {A : Type ℓ} {B : Type κ} → IResult A → (List ℕ × A → IResult B) → IResult B
ok p >>= f = f p
err e >>= f = err e

-- To split on a parser's answer and keep the equation.
pub IResult-cases {ℓ} :
    {A : Type ℓ} (r : IResult A) → ((p : List ℕ × A) × (r ≡ ok p)) ⊎ ((e : NomError) × (r ≡ err e))
IResult-cases (ok p) = inl (p, refl)
IResult-cases (err e) = inr (e, refl)
