-- ===== src/Middleware/Guards.antt =====
-- Which requests Auth lets through.
use go_microservice.Prelude.{
  String, ◌≡◌, refl, sym, ap, ◌∙◌, ◌⊎◌, inl, inr, Option, none, some, arith, ◌==◌, eq_iff,
  Bool-cases,
}
use go_microservice.Prelude.Int.{ℤ, pos, ◌<ℤ◌, ltb_ℤ, IsInt64}
use go_microservice.Prelude.Strconv.{atoi, itoa, atoi-itoa, NumError}
use go_microservice.Apperror.{app, unauthorized}
use go_microservice.Http.{Request, get_header, Handler, Conn, returned}
use go_microservice.Response
use go_microservice.Middleware.{auth, auth_id}

-- the text of a positive `int`
abbrev pub Identifies : String → ℤ → Type 0
Identifies s id = (atoi s ≡ (id, none)) × (pos 0 <ℤ id)

abbrev pub as_user : Request → ℤ → Request
as_user r id = record r { ctx = record (r.ctx) { user_id = some id } }

pub not-Identifies_empty : (s : String) (id : ℤ) → s ≡ "" → ¬ Identifies s id
unfolding atoi
not-Identifies_empty s id e h =
    let empty : atoi "" ≡ (id, none) = rw e at h.0 in
    cc (ap (λ (p : ℤ × Option NumError). p.1) empty)

module _ {W : Type 0} (next : Handler W) (r : Request) (c : Conn W) where
  auth_id-cases :
      (p : ℤ × Option NumError)
      → ((id : ℤ) × ((p ≡ (id, none)) × (pos 0 <ℤ id))
          × (auth_id next r p c ≡ next (as_user r id) c))
        ⊎ (((id : ℤ) → p ≡ (id, none) → ¬ (pos 0 <ℤ id))
            × (auth_id next r p c
                ≡ (returned, Response.error r (app (unauthorized "invalid user ID")) c)))
  unfolding auth_id
  auth_id-cases (id, some e) = inr (λ id' q _. cc (ap (λ (p : ℤ × Option NumError). p.1) q), refl)
  auth_id-cases (id, none) = elim (Bool-cases (ltb_ℤ (pos 0) id)) [
    | inl more ↦ inl (id, (refl, ground arith), rw more)
    | inr less ↦ inr (
      λ id' q h. let same : id ≡ id' = ap (λ (p : ℤ × Option NumError). p.0) q in ground arith,
      rw less,
    )
  ]

  -- Auth calls the next handler exactly when X-User-ID is the text of a positive int, and then
  -- hands it that id in the context; otherwise it answers Unauthorized and calls nothing.
  pub auth_cases :
      ((id : ℤ) × Identifies (get_header r "X-User-ID") id
        × (auth next r c ≡ next (as_user r id) c))
      ⊎ (((id : ℤ) → ¬ Identifies (get_header r "X-User-ID") id)
          × (msg : String) × (auth next r c
              ≡ (returned, Response.error r (app (unauthorized msg)) c)))
  unfolding auth
  auth_cases = elim (Bool-cases (get_header r "X-User-ID" == "")) [
    | inl missing ↦ inr (
      λ id h. not-Identifies_empty _ id ((eq_iff _ _).0 missing) h,
      "missing or invalid authorization header",
      rw missing,
    )
    | inr given ↦ elim (auth_id-cases (atoi (get_header r "X-User-ID"))) [
      | inl (id, h, e) ↦ inl (id, h, rw given e)
      | inr (h, e) ↦ inr (λ id (a, b). h id a b, "invalid user ID", rw given e)
    ]
  ]

  -- The id that the gateway prints is the id that the handler gets.
  pub auth-itoa :
      (id : ℤ)
      → IsInt64 id
      → pos 0 <ℤ id
      → get_header r "X-User-ID" ≡ itoa id
      → auth next r c ≡ next (as_user r id) c
  auth-itoa id h p e = elim auth_cases [
    | inl (id', same, q) ↦
        let equal : (id', none) ≡ (id, none) = sym same.0 ∙ ap atoi e ∙ atoi-itoa id h in
        q ∙ ap (λ (k : ℤ × Option NumError). next (as_user r k.0) c) equal
    | inr (refused, _, _) ↦ absurd (refused id (ap atoi e ∙ atoi-itoa id h, p))
  ]

pub auth_of_known :
    {W : Type 0} (next : Handler W) (r : Request) (c : Conn W) (id : ℤ)
    → Identifies (get_header r "X-User-ID") id
    → auth next r c ≡ next (as_user r id) c
auth_of_known next r c id known = elim (auth_cases next r c) [
  | inl (id', same, q) ↦
      q ∙ ap (λ (k : ℤ × Option NumError). next (as_user r k.0) c) (sym same.0 ∙ known.0)
  | inr (refused, _, _) ↦ absurd (refused id known)
]

module _ {W : Type 0} (f g : Handler W) (r : Request) (c : Conn W) where
  auth_id_of_anonymous :
      (p : ℤ × Option NumError)
      → ((id : ℤ) → p ≡ (id, none) → ¬ (pos 0 <ℤ id))
      → auth_id f r p c ≡ auth_id g r p c
  unfolding auth_id
  auth_id_of_anonymous (id, some e) h = refl
  auth_id_of_anonymous (id, none) h = elim (Bool-cases (ltb_ℤ (pos 0) id)) [
    | inl more ↦ absurd (h id refl (ground arith))
    | inr less ↦ rw less refl
  ]

  pub auth_of_anonymous :
      ((id : ℤ) → ¬ Identifies (get_header r "X-User-ID") id) → auth f r c ≡ auth g r c
  unfolding auth
  auth_of_anonymous n = elim (Bool-cases (get_header r "X-User-ID" == "")) [
    | inl missing ↦ rw missing refl
    | inr given ↦
        rw given (auth_id_of_anonymous (atoi (get_header r "X-User-ID")) (λ id e p. n id (e, p)))
  ]
