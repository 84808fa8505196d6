-- ===== src/Middleware/Carried.antt =====
-- Headers on a response that is being written, and the writes that pass them on.
use auth_login_load_balancin.Prelude.{
  ℕ, ◌<◌, String, ◌≡◌, refl, false, ◌==◌, eq_iff, List, [], ◌∷◌, ◌++◌, Option, none, some, arith,
  inl, inr, Bool-cases, nat_eq, eq_refl, if◌then◌else◌,
}
use auth_login_load_balancin.Http.{Reply}
use auth_login_load_balancin.Http.Headers
use auth_login_load_balancin.Http.Headers.{Header, canonical, values_of, values_of-put}
use auth_login_load_balancin.Http.Response.{Writer, is_refused, write_header, write}
use auth_login_load_balancin.Middleware.Response.{write_encoded}
use auth_login_load_balancin.Middleware.Timeout.{copy_header, add_values, release}

-- The first value of a header.
abbrev pub Leads : String → String → Header → Type 0
Leads key x h = (xs : List String) × (values_of key h ≡ x ∷ xs)

pub Leads-get : (key x : String) (h : Header) → Leads (canonical key) x h → Headers.get key h ≡ x
unfolding Headers.get
Leads-get key x h (xs, e) = rw e refl

Leads-add :
    (key x : String) (h : Header) (j y : String) → Leads key x h → Leads key x (Headers.add j y h)
unfolding Headers.add
Leads-add key x h j y (xs, e) = elim (Bool-cases (canonical j == key)) [
  | inl same ↦
      let named = (eq_iff (canonical j) key).0 same in
      let at : values_of (canonical j) h ≡ x ∷ xs = rw named e in
      (xs ++ y ∷ [], rw (values_of-put (canonical j) key _ h) (rw same (rw at refl)))
  | inr differ ↦ (xs, rw (values_of-put (canonical j) key _ h) (rw differ e))
]

Leads-set :
    (key x : String) (h : Header) (j y : String)
    → (canonical j == key) ≡ false
    → Leads key x h
    → Leads key x (Headers.set j y h)
unfolding Headers.set
Leads-set key x h j y differ (xs, e) = (xs, rw (values_of-put (canonical j) key _ h) (rw differ e))

Leads-set_same : (j y : String) (h : Header) → Leads (canonical j) y (Headers.set j y h)
unfolding Headers.set
Leads-set_same j y h =
    ([], rw (values_of-put (canonical j) (canonical j) _ h) (rw (eq_refl (canonical j)) refl))

add_values-Leads :
    (key x j : String) (ys : List String) (h : Header)
    → Leads key x h
    → Leads key x (add_values j ys h)
add_values-Leads key x j [] h leads = leads
add_values-Leads key x j (y ∷ ys) h leads =
    add_values-Leads key x j ys _ (Leads-add key x h j y leads)

copy_header-Leads :
    (key x : String) (src h : Header) → Leads key x h → Leads key x (copy_header h src)
unfolding copy_header
copy_header-Leads key x [] h leads = leads
copy_header-Leads key x ((j, ys) ∷ src) h leads =
    copy_header-Leads key x src (add_values j ys h) (add_values-Leads key x j ys h leads)

-- A writer whose headers begin with the value, those that are sent too.
pub record Carries (key x : String) (w : Writer) : Type 0 where
  pub header : Leads key x w.header
  pub sent : 0 < w.status → Leads key x w.sent

module _ (key x : String) where
  pub write_header-Carries :
      (code : ℕ) (w : Writer) → Carries key x w → Carries key x (write_header code w)
  unfolding write_header
  write_header-Carries code w c = elim (Bool-cases (nat_eq w.status 0)) [
    | inl fresh ↦ rw fresh (record { header = c.header; sent = λ k. c.header })
    | inr old ↦ rw old (record { header = c.header; sent = c.sent })
  ]

  pub write-Carries : (text : String) (w : Writer) → Carries key x w → Carries key x (write text w)
  unfolding write
  write-Carries text w c = elim (Bool-cases (nat_eq w.status 0)) [
    | inl fresh ↦ rw fresh (record { header = c.header; sent = λ k. c.header })
    | inr old ↦ rw old (record { header = c.header; sent = c.sent })
  ]

  pub set-Carries :
      (j y : String) (w : Writer)
      → (canonical j == key) ≡ false
      → Carries key x w
      → Carries key x (record w { header = Headers.set j y w.header })
  set-Carries j y w differ c = record {
    header = Leads-set key x w.header j y differ c.header;
    sent = c.sent;
  }

  pub write_encoded-Carries :
      (code : ℕ) (o : Option String) (w : Writer)
      → (canonical "Content-Type" == key) ≡ false
      → Carries key x w
      → Carries key x (write_encoded code o w)
  unfolding write_encoded
  write_encoded-Carries code none w differ c =
      write-Carries _ _ (write_header-Carries 500 _ (set-Carries _ _ w differ c))
  write_encoded-Carries code (some text) w differ c =
      write-Carries _ _ (write_header-Carries code _ (set-Carries _ _ w differ c))

  pub release-Carries :
      {W : Type 0} (buffered : Writer) (a : Reply W)
      → Carries key x a.writer
      → Carries key x (release buffered a).writer
  unfolding release
  release-Carries buffered a c =
      let w = record a.writer { header = copy_header a.writer.header buffered.header } in
      let status = if nat_eq buffered.status 0 then 200 else buffered.status in
      let copied : Carries key x w = record {
        header = copy_header-Leads key x buffered.header a.writer.header c.header;
        sent = c.sent;
      } in
      elim (Bool-cases (is_refused status w)) [
        | inl refused ↦ rw refused (record { header = copied.header; sent = copied.sent })
        | inr sends ↦ rw sends (write-Carries _ _ (write_header-Carries _ _ copied))
      ]

-- Where the status is not yet written, a header that is set is carried.
pub set_same-Carries :
    (j y : String) (w : Writer)
    → w.status ≡ 0
    → Carries (canonical j) y (record w { header = Headers.set j y w.header })
set_same-Carries j y w fresh = record {
  header = Leads-set_same j y w.header;
  sent = λ k. absurd (omega (arith, k, fresh));
}
