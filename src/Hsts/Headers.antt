-- ===== src/Hsts/Headers.antt =====
-- The headers of a response after backend/middleware/hsts.py.
use minima_pi_net_os.Prelude.{
  str_eq, str_beq, nat_eq, ◌≡◌, refl, ap, ◌∙◌, Str, Bool, true, false, Option, none, some, [], ◌∷◌,
  beq_iff, ◌==◌, Bool-cases, Option-cases, subst, inl, inr, if◌then◌else◌,
}
use minima_pi_net_os.Dict.{get, put, has, get-put}
use minima_pi_net_os.Dict.Distinct.{IsDistinct}
use minima_pi_net_os.Hsts.{
  HstsMiddleware, Request, HeaderDict, is_secure, build_hsts_value, always, sts, put_all, dispatch,
}

abbrev pub or_else : Option Str → Option Str → Option Str
or_else none other = other
or_else (some v) other = some v

get_absent : (k : Str) (d : HeaderDict) → has k d ≡ false → get k d ≡ none
unfolding has
get_absent k d h = elim (Option-cases (get k d)) [
  | inl gone ↦ gone
  | inr (v, at) ↦ absurd (let clash : true ≡ false = rw at at h in cc)
]

-- Names that are set once: each has the value it was given, and every other name is as before.
pub get-put_all :
    (j : Str) (new headers : HeaderDict)
    → IsDistinct new
    → get j (put_all new headers) ≡ or_else (get j new) (get j headers)
unfolding put_all get
get-put_all j [] headers h = refl
get-put_all j ((name, value) ∷ more) headers h = elim (Bool-cases (name == j)) [
  | inl same ↦
      let absent : get j more ≡ none =
        subst (λ k. get k more ≡ none) ((beq_iff name j).0 same) (get_absent name more h.0) in
      rw (same, get-put_all j more (put name value headers) h.1, absent, get-put, same) refl
  | inr other ↦ rw (other, get-put_all j more (put name value headers) h.1, get-put, other) refl
]

always-IsDistinct : IsDistinct always
unfolding has get str_beq
always-IsDistinct =
    (refl, (refl, (refl, (refl, (refl, (refl, (refl, (refl, (refl, (refl, tt))))))))))

-- Whatever the application answers, a header of the response is: the one value that the middleware
-- has for it, where it is one of the ten security headers; for HSTS the configured value where the
-- request came over HTTPS or a proxy says so; and the application's own in every other case.
pub dispatch-headers :
    (m : HstsMiddleware) (request : Request) (response : HeaderDict) (name : Str)
    → get name (dispatch m request response)
      ≡ or_else (get name always) (
          if is_secure request
          then if sts == name then some (build_hsts_value m) else get name response
          else get name response)
unfolding dispatch
dispatch-headers m request response name =
    get-put_all name always
      (if is_secure request then put sts (build_hsts_value m) response else response)
      always-IsDistinct
    ∙ ap (or_else (get name always)) (secured (is_secure request))
  where
    secured :
        (secure : Bool)
        → get name (if secure then put sts (build_hsts_value m) response else response) ≡ (
            if secure
            then if sts == name then some (build_hsts_value m) else get name response
            else get name response)
    secured true = get-put sts name (build_hsts_value m) response
    secured false = refl
