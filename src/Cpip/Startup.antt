-- ===== src/Cpip/Startup.antt =====
-- The self-tests and the initialisation of backend/cpip_provider.py. `kats` is how the known-answer
-- tests end, which run the packages and raise where one of them fails.
use minima_pi_net_os.Prelude.{
  ◌≡◌, refl, Str, Bool, true, false, ◌&&◌, not, none, runtime_error, Result, ok, raise,
  if◌then◌else◌,
}
use minima_pi_net_os.Cpip.Token.{TokenSettings, init_secret}

pub record Provider : Type 0 where
  pub fips_self_tests_passed : Bool
  pub secret : Str

module _ (crypto_available fips_mode : Bool) where
  abbrev pub tested : Result (Unit {0}) → Provider → Result Bool × Provider
  tested (ok done) p = (ok true, record p { fips_self_tests_passed = true })
  tested (raise e) p = ((if fips_mode then raise runtime_error else ok false), p)

  unfoldable pub run_fips_self_tests : Result (Unit {0}) → Provider → Result Bool × Provider
  run_fips_self_tests kats p = if crypto_available then tested kats p else (ok false, p)

  unfoldable pub fips_assert : Provider → Result (Unit {0})
  fips_assert p = if fips_mode && not p.fips_self_tests_passed then raise runtime_error else ok tt

  module _ (cpip_enabled : Bool) (c : TokenSettings) where
    abbrev with_secret : Provider → Provider
    with_secret p = record p { secret = init_secret c none }

    abbrev after_tests : Result Bool × Provider → Result (Unit {0}) × Provider
    after_tests (ok passed, p) = (ok tt, with_secret p)
    after_tests (raise e, p) = (raise e, p)

    unfoldable pub initialize_cpip : Result (Unit {0}) → Provider → Result (Unit {0}) × Provider
    initialize_cpip kats p =
        if cpip_enabled
        then (if crypto_available
            then after_tests (run_fips_self_tests kats p)
            else (ok tt, with_secret p))
        else (ok tt, p)

    -- In FIPS mode, with the provider enabled and the package there, an initialisation that ends well
    -- has passed the self-tests, and has the secret: later assertions succeed.
    pub initialize_cpip-asserts :
        (kats : Result (Unit {0})) (p : Provider)
        → cpip_enabled ≡ true
        → crypto_available ≡ true
        → fips_mode ≡ true
        → (initialize_cpip kats p).0 ≡ ok tt
        → (fips_assert (initialize_cpip kats p).1 ≡ ok tt)
          × ((initialize_cpip kats p).1.secret ≡ c.covert_key)
    unfolding initialize_cpip run_fips_self_tests fips_assert init_secret
    initialize_cpip-asserts (ok done) p on there fips h = rw (on, there, fips) (refl, refl)
    initialize_cpip-asserts (raise e) p on there fips h =
        let clash : raise runtime_error ≡ ok tt = rw (on, there, fips) at h in absurd (cc)
