-- ===== src/Context/Verified.antt =====
-- When a user counts as one whose address is verified: context.go and user.go of internal/handler.
use crater_backend.Prelude.{
  ℕ, ◌*◌, ◌≡◌, refl, ap, ◌∙◌, true, false, not, ◌&&◌, none, some, List, [], ◌∷◌, String,
  if◌then◌else◌, ◌==◌, nat_eq, string_eq, Bool-cases, inl, inr, arith,
}
use crater_backend.Prelude.Int.{ℤ, pos, ◌+ℤ◌, ltb_ℤ, eqb_ℤ}
use crater_backend.Prelude.Dict.{Dict, get}
use crater_backend.Lock.{hour}
use crater_backend.Server.{State, ok, err, first, ask, found, write, attempt, require, pure}
use crater_backend.Directory.{Directory, User, find_user}
use crater_backend.Token.{JwtMessage}
use crater_backend.Auth.{change_user}
use crater_backend.Users.{check_if_email_verified, check_email_verified}
use crater_backend.Context.{Session, dated, update_user_email, compare_code, verify_code}

find-dated :
    (now : ℤ) (id : ℕ) (us : List User) {u : User}
    → find_user id us ≡ some u
    → find_user id (change_user (dated now) id us) ≡ some (dated now u)
unfolding change_user
find-dated now id [] h = absurd (ground arith)
find-dated now id (x ∷ us) {u} h = elim (Bool-cases (x.id == id && not x.deleted)) [
  | inl e ↦ let it : x ≡ u = ground arith in rw (e, e) (ap (λ u. some (dated now u)) it)
  | inr e ↦ rw (e, e) (find-dated now id us {u = u} (ground arith))
]

abbrev pub on : Session → State Session
on w = record { faults = []; tables = w }

abbrev pub rows : State Session → State Directory
rows s = record { faults = []; tables = s.tables.directory }

module _ (zero_time now later : ℤ) (token : JwtMessage) (email code : String) (w : Session) where
  checked :
      (d : Directory) (u : User)
      → find_user token.user_id d.users ≡ some u
      → (check_if_email_verified zero_time later token (record { faults = []; tables = d })).0
        ≡ ok (check_email_verified zero_time later u.last_email_verified_at)
  unfolding check_if_email_verified first ask found pure
  checked d u h = rw h refl

  counted :
      eqb_ℤ now zero_time ≡ false
      → ok (check_email_verified zero_time later (some now))
        ≡ ok (ltb_ℤ later (now +ℤ pos (180 * (24 * hour))), some now)
  unfolding check_email_verified
  counted past = rw past refl

  -- If the user of the token is in the database and the queries succeed, UpdateUserEmail answers ok
  -- exactly if the code is the one that is stored for the address, and empty if none is; then the user
  -- counts as verified for 180 days, and otherwise exactly as before.
  pub update_user_email-verified :
      {u : User}
      → find_user token.user_id w.directory.users ≡ some u
      → eqb_ℤ now zero_time ≡ false
      → ((update_user_email now token email code (on w)).0 ≡ (
          if code == verify_code email w.verify_code_cache
          then ok tt
          else err "Wrong verification Code"))
        × ((check_if_email_verified zero_time later token
              (rows (update_user_email now token email code (on w)).1)).0
            ≡ ok (
                if code == verify_code email w.verify_code_cache
                then (ltb_ℤ later (now +ℤ pos (180 * (24 * hour))), some now)
                else check_email_verified zero_time later u.last_email_verified_at))
  unfolding update_user_email compare_code first ask found require write attempt pure
  update_user_email-verified {u} known past =
      elim (Bool-cases (code == verify_code email w.verify_code_cache)) [
        | inl e ↦
            rw (known, e)
              (
                refl,
                checked
                      (record w.directory {
                        users = change_user (dated now) token.user_id w.directory.users;
                      })
                      (dated now u) (find-dated now token.user_id w.directory.users known)
                    ∙ counted past,
              )
        | inr e ↦ rw (known, e) (refl, checked w.directory u known)
      ]

no_code :
    (email : String) (cache : Dict String String)
    → get email cache ≡ none
    → ("" == verify_code email cache) ≡ true
unfolding verify_code
no_code email cache h =
    let empty : "" ≡ verify_code email cache = rw (verify_code, h) refl in
    (string_eq.beq_iff "" (verify_code email cache)).1 empty

-- If no code was sent to an address, a user in the database who gives no code for it counts as verified
-- for 180 days, provided the queries succeed.
pub unsent_code :
    (zero_time now later : ℤ) (token : JwtMessage) (email : String) (w : Session) {u : User}
    → find_user token.user_id w.directory.users ≡ some u
    → eqb_ℤ now zero_time ≡ false
    → get email w.verify_code_cache ≡ none
    → ((update_user_email now token email "" (on w)).0 ≡ ok tt)
      × ((check_if_email_verified zero_time later token
            (rows (update_user_email now token email "" (on w)).1)).0
          ≡ ok (ltb_ℤ later (now +ℤ pos (180 * (24 * hour))), some now))
unsent_code zero_time now later token email w known past unsent =
    let (answer, verified) =
      update_user_email-verified zero_time now later token email "" w known past in
    let accepted = no_code email w.verify_code_cache unsent in
    (rw accepted at answer, rw accepted at verified)
