-- ===== src/Accounts/Doubled.antt =====
-- AddUserProject of internal/handler/account.go for a user who is in the account.
use crater_backend.Prelude.{ℕ, suc, if◌then◌else◌, List, [], ◌∷◌, nat_eq}
use crater_backend.Directory.{UserAccount, is_membership}

-- How many memberships a user has in an account.
unfoldable pub memberships : ℕ → ℕ → List UserAccount → ℕ
memberships user account [] = 0
memberships user account (m ∷ ms) =
    let rest = memberships user account ms in
    if is_membership user account m then suc rest else rest
