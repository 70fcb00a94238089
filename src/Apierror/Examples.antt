-- ===== src/Apierror/Examples.antt =====
-- apierror/apierror.go: runs of the code.
use fibr.Prelude.{◌≡◌, refl, some}
use fibr.Apierror.{opaque, wrapped, not_found, wrap, unwrap, with_code, with_details, new, handler}

-- The message of an unknown error stays inside.
masked : (handler (wrapped "db" (opaque "password is 1234"))).message ≡ "internal server error"
unfolding handler
masked = refl

kept :
    unwrap (wrap (opaque "cause") (with_details "d" (with_code "gone" (not_found "x"))))
    ≡ some (opaque "cause")
unfolding unwrap wrap with_details with_code new
kept = refl
