-- ===== src/Dashboard/Session/Access.antt =====
-- Who gets a session, and what a session opens.
use calude_proxy.Base.{
  ◌≡◌, ◌⊎◌, ◌↔◌, refl, String, Bool, true, false, ◌&&◌, ◌||◌, Option, none, some, List, is_blank,
  ◌=?◌, eq_iff, arith, Bool-cases, Option-cases, inl, inr,
}
use calude_proxy.Dashboard.{DbError, attempt, done}
use calude_proxy.Dashboard.Tables.{AuthUser, find_row}
use calude_proxy.Dashboard.Session.{
  LoginRequest, redirected, html, Cookie, user_key, opened, login_user, login_handler,
  logout_handler, is_authenticated, dashboard_index,
}

module _ (verify : (password_hash password : String) → Bool) (admin_secret : String)
    (fault : Option String) (payload : LoginRequest) (users : List AuthUser) where
  -- The administrator with the secret of the process, or a user of the table with the password.
  abbrev pub Knows : Type 0
  Knows =
      ((payload.username ≡ "admin") × (payload.password ≡ admin_secret))
      ⊎ ((fault ≡ none)
          × (user : AuthUser) × (find_row user_key payload.username users ≡ some user)
          × (verify user.password_hash payload.password ≡ true))

  pub record IsGranted : Type 0 where
    pub named : is_blank payload.username ≡ false
    pub keyed : is_blank payload.password ≡ false
    pub knows : Knows

module _ (db_text : DbError → String) (verify : (password_hash password : String) → Bool) where
  login_user-Knows :
      (admin_secret : String) (fault : Option String) (payload : LoginRequest)
      (users : List AuthUser)
      → is_authenticated
          (login_user db_text verify payload.password
            (attempt fault (done (find_row user_key payload.username users)))
            none).1
        ≡ true
      → Knows verify admin_secret fault payload users
  unfolding login_user
  login_user-Knows admin_secret (some message) payload users h = cc
  login_user-Knows admin_secret none payload users h =
      elim (Option-cases (find_row user_key payload.username users)) [
        | inl missing ↦ absurd (ground (arith, missing))
        | inr (user, found) ↦ elim (Bool-cases (verify user.password_hash payload.password)) [
          | inl right ↦ inr (refl, user, found, right)
          | inr wrong ↦ absurd (ground (arith, found, wrong))
        ]
      ]

  Knows-login_user :
      (payload : LoginRequest) (users : List AuthUser) (user : AuthUser)
      → find_row user_key payload.username users ≡ some user
      → verify user.password_hash payload.password ≡ true
      → login_user db_text verify payload.password
          (attempt none (done (find_row user_key payload.username users)))
          none
        ≡ opened
  unfolding login_user
  Knows-login_user payload users user found right = rw (found, login_user) (rw right refl)

  or_false : (a b : Bool) → (a || b) ≡ false → (a ≡ false) × (b ≡ false)
  or_false true b h = cc
  or_false false b h = (refl, h)

  and_true : (a b : Bool) → (a && b) ≡ true → (a ≡ true) × (b ≡ true)
  and_true true b h = (refl, h)
  and_true false b h = cc

  index_opens :
      (index_html : String) (cookie : Cookie)
      → dashboard_index index_html cookie ≡ html index_html
      → is_authenticated cookie ≡ true
  unfolding dashboard_index
  index_opens index_html cookie h = elim (Bool-cases (is_authenticated cookie)) [
    | inl inside ↦ inside
    | inr outside ↦ absurd (ground (arith, outside))
  ]

  granted :
      (admin_secret : String) (fault : Option String) (payload : LoginRequest)
      (users : List AuthUser)
      → is_authenticated (login_handler db_text verify admin_secret fault payload users none).1
        ≡ true
      → IsGranted verify admin_secret fault payload users
  unfolding login_handler
  granted admin_secret fault payload users h =
      elim (Bool-cases (is_blank payload.username || is_blank payload.password)) [
        | inl blank ↦ absurd (ground (arith, blank))
        | inr filled ↦
            let (named, keyed) = or_false _ _ filled in
            elim (Bool-cases (payload.username =? "admin" && (payload.password =? admin_secret))) [
              | inl both ↦
                  let (admin, secret) = and_true _ _ both in
                  record {
                    named = named;
                    keyed = keyed;
                    knows = inl (
                      (eq_iff payload.username "admin").0 admin,
                      (eq_iff payload.password admin_secret).0 secret,
                    );
                  }
              | inr other ↦ record {
                named = named;
                keyed = keyed;
                knows = login_user-Knows admin_secret fault payload users (rw (filled, other) at h);
              }
            ]
      ]

  let_in :
      (admin_secret : String) (fault : Option String) (payload : LoginRequest)
      (users : List AuthUser)
      → IsGranted verify admin_secret fault payload users
      → login_handler db_text verify admin_secret fault payload users none ≡ opened
  unfolding login_handler
  let_in admin_secret fault payload users g =
      elim (Bool-cases (payload.username =? "admin" && (payload.password =? admin_secret))) [
        | inl both ↦ rw (g.named, g.keyed, both) refl
        | inr other ↦ elim g.knows [
          | inl (admin, secret) ↦
              let left = (eq_iff payload.username "admin").1 admin in
              let right = (eq_iff payload.password admin_secret).1 secret in
              absurd (ground (arith, left, right, other))
          | inr (works, user, found, right) ↦
              rw (g.named, g.keyed, other, works) (Knows-login_user payload users user found right)
        ]
      ]

  -- Starting without a session, a login leads to the dashboard exactly if the name and the password
  -- are not empty and either they are `admin` and the secret of the process, or the database
  -- answers and has a user of that name whose password this is. After a logout the dashboard
  -- redirects to the login page.
  pub session_iff :
      (index_html admin_secret : String) (fault : Option String) (payload : LoginRequest)
      (users : List AuthUser) (cookie : Cookie)
      → ((dashboard_index index_html
              (login_handler db_text verify admin_secret fault payload users none).1
            ≡ html index_html)
          ↔ IsGranted verify admin_secret fault payload users)
        × (dashboard_index index_html (logout_handler cookie).1 ≡ redirected "/dashboard/login")
  unfolding dashboard_index logout_handler
  session_iff index_html admin_secret fault payload users cookie = (
    (
      λ h. granted admin_secret fault payload users (
          index_opens index_html
            (login_handler db_text verify admin_secret fault payload users none).1 h),
      λ g. rw (let_in admin_secret fault payload users g) refl,
    ),
    refl,
  )
