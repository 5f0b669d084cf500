-- ===== src/DbHelper/SameAccounts.antt =====
-- What seeding leaves on the server, twice: the second time changes nothing.
use mariadb_ctrl.Prelude.{
  String, ◌==◌, ◌≡◌, refl, sym, ap, ◌∙◌, ◌⊎◌, inl, inr, Bool, true, false, Option, none, some, List,
  [], ◌∷◌, if◌then◌else◌, arith,
}
use mariadb_ctrl.Config.{PreseededDatabase, SeededUser}
use mariadb_ctrl.DbHelper.Accounts.{Accounts, any_host}
use mariadb_ctrl.DbHelper.Converging.{Seeds, last_password, or_else}
use mariadb_ctrl.DbHelper.UserAccounts.{is_admin}
use mariadb_ctrl.DbHelper.UsersConverging.{UsersSeeded, given_password, last_admin, is_account}

-- The same databases, users, passwords and privileges.
pub record SameAccounts (a b : Accounts) : Type 0 where
  pub databases : (n : String) → b.has_database n ≡ a.has_database n
  pub users : (x : String) → b.known x ≡ a.known x
  pub passwords : (x k : String) → b.password x k ≡ a.password x k
  pub privileges : (x k n : String) → b.privileges x k n ≡ a.privileges x k n
  pub everything : (x k : String) → b.everything x k ≡ a.everything x k
  pub grant_option : (x k : String) → b.grant_option x k ≡ a.grant_option x k

-- The entries for an account decide whether it is an administrator, or leave it as it is.
last_admin_cases :
    (x k : String) (us : List SeededUser)
    → ((e : Bool) → last_admin x k e us ≡ e) ⊎ ((b : Bool) × ((e : Bool) → last_admin x k e us ≡ b))
last_admin_cases x k [] = inl (λ e. refl)
last_admin_cases x k (u ∷ us) = by_head (is_account u x k) refl (last_admin_cases x k us)
  where
    by_head :
        (c : Bool)
        → is_account u x k ≡ c
        → ((e : Bool) → last_admin x k e us ≡ e)
          ⊎ ((b : Bool) × ((e : Bool) → last_admin x k e us ≡ b))
        → ((e : Bool) → last_admin x k e (u ∷ us) ≡ e)
          ⊎ ((b : Bool) × ((e : Bool) → last_admin x k e (u ∷ us) ≡ b))
    by_head c p (inr (b, h)) = inr (b, λ e. h _)
    by_head true p (inl h) = inr (is_admin u, λ e. rw p (h (is_admin u)))
    by_head false p (inl h) = inl (λ e. rw p (h e))

last_admin_twice :
    (x k : String) (us : List SeededUser) (e : Bool)
    → last_admin x k (last_admin x k e us) us ≡ last_admin x k e us
last_admin_twice x k us e = elim (last_admin_cases x k us) [
  | inl same ↦ same (last_admin x k e us)
  | inr (b, h) ↦ h (last_admin x k e us) ∙ sym (h e)
]

password_twice :
    (here : Bool) (l g a : Option String)
    → or_else g (
        if here
        then or_else l (or_else g (if here then or_else l a else a))
        else or_else g (if here then or_else l a else a))
      ≡ or_else g (if here then or_else l a else a)
password_twice here l (some p) a = refl
password_twice true (some p) none a = refl
password_twice true none none a = refl
password_twice false l none a = refl

module _ (ds : List PreseededDatabase) (us : List SeededUser) (a m b m' c : Accounts)
    (s : Seeds ds a m) (r : UsersSeeded us m b) (s' : Seeds ds b m')
    (r' : UsersSeeded us m' c) where
  same_password : (x k : String) → c.password x k ≡ b.password x k
  same_password x k =
      let g = given_password x k us in
      let here = any_host == k in
      let next =
        λ (p : Option String). or_else g (if here then or_else (last_password x ds) p else p) in
      let before : b.password x k ≡ next (a.password x k) =
        r.passwords x k ∙ ap (or_else g) (s.passwords x k) in
      r'.passwords x k
      ∙ ap (or_else g) (s'.passwords x k)
      ∙ ap next before
      ∙ password_twice here (last_password x ds) g (a.password x k)
      ∙ sym before

  same_everything : (x k : String) → c.everything x k ≡ b.everything x k
  same_everything x k =
      let after = λ (e : Bool). last_admin x k e us in
      r'.everything x k
      ∙ ap after (ap (λ f. f x k) s'.everything)
      ∙ ap after (r.everything x k)
      ∙ last_admin_twice x k us (m.everything x k)
      ∙ sym (r.everything x k)

  pub seeded_twice : SameAccounts b c
  seeded_twice = record {
    databases = λ n. ground (
      arith,
      ap (λ f. f n) r'.databases,
      s'.databases n,
      ap (λ f. f n) r.databases,
      s.databases n,
    );
    users = λ x. ground (arith, r'.users x, s'.users x, r.users x, s.users x);
    passwords = same_password;
    privileges = λ x k n. ground (
      arith,
      ap (λ f. f x k n) r'.privileges,
      s'.privileges x k n,
      ap (λ f. f x k n) r.privileges,
      s.privileges x k n,
    );
    everything = same_everything;
    grant_option = λ x k. ground (
      arith,
      r'.grant_option x k,
      ap (λ f. f x k) s'.grant_option,
      r.grant_option x k,
      ap (λ f. f x k) s.grant_option,
    );
  }
