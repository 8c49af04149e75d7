-- ===== src/Shared/Results.antt =====
-- Python code that may raise returns a `Result`; a `do` block stops at the first exception.
use mathlib.Core.Path.{◌≡◌, refl, ap}
use mathlib.Core.Logic.{◌≢◌, ◌⊎◌, inl, inr}
use mathlib.Core.Bool.{Bool, true, false}

-- The exceptions that the modelled code raises, or that the code it calls raises.
pub data Exception : Type 0 where
  overflow_error value_error runtime_error file_not_found assertion_error key_error index_error :
      Exception
  database_error http_error import_error : Exception

pub data Result {ℓ} (A : Type ℓ) : Type ℓ where
  ok : A → Result A
  raise : Exception → Result A

-- `if not condition: raise e`
abbrev pub ensure : Bool → Exception → Result (Unit {0})
ensure holds e = elim holds [ true ↦ ok tt | false ↦ raise e ]

pub Result-cases {ℓ} :
    {A : Type ℓ} (r : Result A) → ((a : A) × (r ≡ ok a)) ⊎ ((e : Exception) × (r ≡ raise e))
Result-cases (ok a) = inl (a, refl)
Result-cases (raise e) = inr (e, refl)

infixl 5 ◌>>=◌ ◌>>◌
abbrev pub ◌>>=◌ {ℓ κ} :
    {A : Type ℓ} {B : Type κ} (first : Result A) (next : A → Result B) → Result B
raise e >>= next = raise e
ok a >>= next = next a

-- A statement whose value is not used.
abbrev pub ◌>>◌ {ℓ} : {B : Type ℓ} (first : Result (Unit {0})) (next : Result B) → Result B
first >> next = first >>= (λ done. next)

-- A chain that ends well has both of its parts end well.
pub >>=-eq-ok {ℓ κ} :
    {A : Type ℓ} {B : Type κ} (first : Result A) (next : A → Result B) {b : B}
    → (first >>= next) ≡ ok b
    → (a : A) × (first ≡ ok a) × (next a ≡ ok b)
>>=-eq-ok (raise e) next ends = cc
>>=-eq-ok (ok a) next ends = (a, refl, ends)

pub ok-inj {ℓ} : {A : Type ℓ} {a b : A} → ok a ≡ ok b → a ≡ b
ok-inj {a = a} h = ap (λ r. elim r [ ok x ↦ x | raise _ ↦ a ]) h

pub raise≢ok {ℓ} : {A : Type ℓ} {e : Exception} {a : A} → raise e ≢ ok a
raise≢ok h = cc
