-- ===== src/Model/Roles.antt =====
-- dao/model/const.go: the roles of users in the platform and in accounts, their status and the modes
-- of access to a space, as numbers of 8 bits that start at 1.
use crater_backend.Prelude.{ℕ}

abbrev pub role_guest : ℕ
role_guest = 1

abbrev pub role_user : ℕ
role_user = 2

abbrev pub role_admin : ℕ
role_admin = 3

abbrev pub status_pending : ℕ
status_pending = 1

abbrev pub status_active : ℕ
status_active = 2

abbrev pub status_inactive : ℕ
status_inactive = 3

abbrev pub access_mode_na : ℕ
access_mode_na = 1

abbrev pub access_mode_ro : ℕ
access_mode_ro = 2

abbrev pub access_mode_rw : ℕ
access_mode_rw = 3

abbrev pub access_mode_ao : ℕ
access_mode_ao = 4

-- DefaultAccountID of dao/model/account.go
abbrev pub default_account_id : ℕ
default_account_id = 1
