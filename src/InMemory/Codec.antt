-- ===== src/InMemory/Codec.antt =====
-- A text form of refresh-token records with its parser, in the place of encoding/json.
use Prim.Native.Char.{Char, char, code}
use Prim.Native.String.{[], ◌∷◌}
use auth_login_load_balancin.Prelude.{
  ℕ, zero, suc, ◌+◌, ◌-◌, ◌*◌, ◌/◌, ◌%◌, ◌<◌, String, ◌≡◌, refl, Bool, false, Option, none, some,
  nat_eq, if◌then◌else◌, arith, inl, inr, Bool-cases, Option-cases,
}
use auth_login_load_balancin.Prelude.Exec.{Result, ok, err}
use auth_login_load_balancin.Errors.{Error, other, IsForeign}
use auth_login_load_balancin.Platform.{RefreshTokenRecord}
use auth_login_load_balancin.Go.Strings.{IsScalar-of_lt}

abbrev stop : Char
stop = char 46 tt

abbrev mark : Char
mark = char 120 tt

-- A text, each character marked, and a full stop.
abbrev put_text : String → String → String
put_text [] rest = stop ∷ rest
put_text (c ∷ s) rest = mark ∷ c ∷ put_text s rest

abbrev is_stop : Char → Bool
is_stop c = nat_eq (code c) 46

abbrev prepend : Char → Option (String × String) → Option (String × String)
prepend c none = none
prepend c (some (s, rest)) = some (c ∷ s, rest)

abbrev take_text : String → Option (String × String)
take_text [] = none
take_text (m ∷ []) = if is_stop m then some ([], []) else none
take_text (m ∷ c ∷ r) =
    let more = take_text r in if is_stop m then some ([], c ∷ r) else prepend c more

take_text-put_text : (s rest : String) → take_text (put_text s rest) ≡ some (s, rest)
take_text-put_text [] [] = refl
take_text-put_text [] (c ∷ r) = refl
take_text-put_text (c ∷ s) rest = rw (take_text-put_text s rest) refl

-- A number, its last digit first, and a full stop. More digits than the fuel do not fit.
pub digit_lt : (n : ℕ) → 48 + n % 10 < 55296
digit_lt n = omega arith

abbrev digit : ℕ → Char
digit n = char (48 + n % 10) (IsScalar-of_lt _ (digit_lt n))

abbrev write : Char → Option String → Option String
write c none = none
write c (some s) = some (c ∷ s)

abbrev put_number : ℕ → ℕ → String → Option String
put_number zero n rest = none
put_number (suc fuel) n rest =
    let more = put_number fuel (n / 10) rest in
    if nat_eq n 0 then some (stop ∷ rest) else write (digit n) more

abbrev read : ℕ → Option (ℕ × String) → Option (ℕ × String)
read d none = none
read d (some (n, rest)) = some (d + 10 * n, rest)

abbrev take_number : String → Option (ℕ × String)
take_number [] = none
take_number (m ∷ r) =
    let more = take_number r in if is_stop m then some (0, r) else read (code m - 48) more

some_inj : {a b : String} → some a ≡ some b → a ≡ b
some_inj h = cc

write-eq-some :
    (c : Char) (o : Option String) {text : String}
    → write c o ≡ some text
    → (s : String) × (o ≡ some s) × (text ≡ c ∷ s)
write-eq-some c none h = cc
write-eq-some c (some s) h = (s, refl, cc)

take_number-digit :
    (n : ℕ) (s rest : String)
    → take_number s ≡ some (n / 10, rest)
    → take_number (digit n ∷ s) ≡ some (n, rest)
take_number-digit n s rest h =
    let goes_on : nat_eq (48 + n % 10) 46 ≡ false = ground arith in
    let value : (48 + n % 10 - 48) + 10 * (n / 10) ≡ n = omega arith in rw (goes_on, h, value) refl

take_number-put_number :
    (fuel n : ℕ) (rest : String) {text : String}
    → put_number fuel n rest ≡ some text
    → take_number text ≡ some (n, rest)
take_number-put_number zero n rest h = cc
take_number-put_number (suc fuel) n rest h = elim (Bool-cases (nat_eq n 0)) [
  | inl none_left ↦
      let zero_is : n ≡ 0 = ground (arith, none_left) in
      rw (← (some_inj (rw none_left at h)), zero_is) refl
  | inr more ↦
      let (s, puts, is) = write-eq-some (digit n) _ (rw more at h) in
      let back = take_number-put_number fuel (n / 10) rest puts in
      rw is (take_number-digit n _ rest back)
]

-- The fields one after the other.
abbrev two_numbers : RefreshTokenRecord → Option String → Option String
two_numbers r none = none
two_numbers r (some ends) = put_number 24 r.created_at ends

abbrev fields : RefreshTokenRecord → String
fields r = put_text r.user_id (put_text r.session_id (put_text r.status []))

abbrev serialized : RefreshTokenRecord → Option String
serialized r = two_numbers r (put_number 24 r.expires_at (fields r))

abbrev after : {A B : Type 0} → Option (A × String) → (A → String → Option B) → Option B
after none f = none
after (some (a, rest)) f = f a rest

abbrev deserialized : String → Option RefreshTokenRecord
deserialized text = after (take_number text) (λ created rest.
    after (take_number rest) (λ expires rest. after (take_text rest) (λ user rest.
      after (take_text rest) (λ session rest. after (take_text rest) (λ status rest. some (record {
        user_id = user;
        session_id = session;
        status = status;
        created_at = created;
        expires_at = expires;
      }))))))

abbrev or_error : {A : Type 0} → Option A → Result A
or_error none = err (other "the text does not fit")
or_error (some a) = ok a

abbrev pub marshal_record : RefreshTokenRecord → Result String
marshal_record r = or_error (serialized r)

abbrev pub unmarshal_record : String → Result RefreshTokenRecord
unmarshal_record text = or_error (deserialized text)

or_error-eq-ok : {A : Type 0} (o : Option A) {a : A} → or_error o ≡ ok a → o ≡ some a
or_error-eq-ok none h = cc
or_error-eq-ok (some b) h = cc

pub or_error-IsForeign : {A : Type 0} (o : Option A) (e : Error) → or_error o ≡ err e → IsForeign e
or_error-IsForeign none e h = cc
or_error-IsForeign (some b) e h = cc

pub roundtrip :
    (r : RefreshTokenRecord) {text : String}
    → marshal_record r ≡ ok text
    → unmarshal_record text ≡ ok r
roundtrip r {text} h = elim (Option-cases (put_number 24 r.expires_at (fields r))) [
  | inl none_fits ↦ absurd (cc (rw none_fits at (or_error-eq-ok _ h)))
  | inr (ends, fits) ↦
      let puts : put_number 24 r.created_at ends ≡ some text = rw fits at (or_error-eq-ok _ h) in
      rw
        (
          take_number-put_number 24 r.created_at ends puts,
          take_number-put_number 24 r.expires_at (fields r) fits,
          take_text-put_text r.user_id (put_text r.session_id (put_text r.status [])),
          take_text-put_text r.session_id (put_text r.status []),
          take_text-put_text r.status [],
        )
        refl
]

pub marshal-IsForeign :
    (r : RefreshTokenRecord) (e : Error) → marshal_record r ≡ err e → IsForeign e
marshal-IsForeign r = or_error-IsForeign _

pub unmarshal-IsForeign : (text : String) (e : Error) → unmarshal_record text ≡ err e → IsForeign e
unmarshal-IsForeign text = or_error-IsForeign _
