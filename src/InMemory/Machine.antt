-- ===== src/InMemory/Machine.antt =====
-- A clock that moves by a nanosecond with each reading, identifiers and random bytes that count on,
-- and texts in the place of hashes and signatures.
use Prim.Native.Char.{Char, char}
use Prim.Native.String.{◌++◌}
use auth_login_load_balancin.Prelude.{
  ℕ, zero, suc, String, List, [], ◌∷◌, some, ◌==◌, ◌&&◌, true, false, arith, Bool, if◌then◌else◌,
}
use auth_login_load_balancin.Prelude.Exec.{Result, ok, err}
use auth_login_load_balancin.Errors.{other}
use auth_login_load_balancin.Platform.{Os, Libraries, text, ParsedToken, ParseOptions, hmac}
use auth_login_load_balancin.Platform.Laws.{OsLaws, JsonLaws}
use auth_login_load_balancin.InMemory.Codec.{
  marshal_record, unmarshal_record, roundtrip, marshal-IsForeign, unmarshal-IsForeign,
}

abbrev strokes : ℕ → String
strokes zero = ""
strokes (suc n) = "i" ++ strokes n

abbrev pub os : Os ℕ
os = record {
  now = λ o. (o, suc o);
  new_uuid = λ o. ("id-" ++ strokes o, suc o);
  rand_read = λ n o. (ok (o ∷ []), suc o);
  generate_from_password = λ password o. (ok ("hash of " ++ password), suc o);
}

-- Strokes in front of a text.
abbrev stroke : Char
stroke = char 105 tt

abbrev before : ℕ → String → String
before zero s = s
before (suc n) s = String.◌∷◌ stroke (before n s)

abbrev encoded : List ℕ → String
encoded [] = "-"
encoded (n ∷ ns) = before n (encoded ns)

abbrev listed : List (String × String) → String
listed [] = ""
listed ((k, x) ∷ rest) = k ++ "=" ++ x ++ ";" ++ listed rest

abbrev checked : Bool → Result (Unit {0})
checked true = ok tt
checked false = err (other "the password does not match")

abbrev pub compare_hash_and_password : String → String → Result (Unit {0})
compare_hash_and_password hash password = checked (hash == ("hash of " ++ password))

-- A signature that carries no claims: a token with the right secret is that of one user.
abbrev pub signature : String → String
signature secret = "signed with " ++ secret

abbrev pub among : String → List String → Bool
among x [] = false
among x (y ∷ ys) = let rest = among x ys in if x == y then true else rest

abbrev pub parsed_with : String → ParseOptions → Result String → Result ParsedToken
parsed_with token options (err e) = err e
parsed_with token options (ok secret) = ok (record {
  valid = token == signature secret && among "HS256" options.valid_methods;
  claims = some (
      ("sub", text "user-1")
      ∷ ("email", text "a@b.c")
      ∷ ("iss", text options.issuer)
      ∷ ("aud", text options.audience)
      ∷ []);
})

abbrev pub lib : Libraries
lib = record {
  marshal_record = marshal_record;
  unmarshal_record = unmarshal_record;
  marshal_extra = λ extra. ok (listed extra);
  raw_url_encode = encoded;
  compare_hash_and_password = compare_hash_and_password;
  signed_string = λ claims secret. ok (signature secret);
  jwt_parse = λ now token keyfunc options. parsed_with token options (keyfunc (hmac "HS256"));
  lower_table = λ c. c;
  upper_table = λ c. c;
  fold_table = λ c. c;
}

pub json-laws : JsonLaws lib
json-laws = record {
  roundtrip = roundtrip;
  marshal_foreign = marshal-IsForeign;
  unmarshal_foreign = unmarshal-IsForeign;
  signed_foreign = λ claims secret e h. absurd cc;
}

pub os-laws : OsLaws os (λ o. o)
os-laws = record {
  now_after = λ o. omega arith;
  now_before = λ o. omega arith;
  new_uuid_time = λ o. omega arith;
  rand_read_time = λ n o. omega arith;
  rand_read_foreign = λ n. record { at = λ s e t h. absurd cc };
  generate_foreign = λ p. record { at = λ s e t h. absurd cc };
  generate_time = λ p o. omega arith;
}
