-- ===== src/Accounts/Sort/Laws.antt =====
-- The order of the accounts: frontend/src/pages/admin/accounts.ts, lines 64 to 129.
use Prim.Native.Nat.Ordering.{gt}
use mathlib.Core.List.{Perm}
use mathlib.Core.Option
use rmm_rxf_sys_de.Base.{
  ℕ, ◌<◌, ◌≡◌, ◌≢◌, refl, String, Option, none, some, List, arith, compare, if◌then◌else◌,
}
use rmm_rxf_sys_de.Base.Compare.{
  IsOrder-of_eq, compare-IsOrder, on-IsOrder, missing_last-IsOrder, both,
}
use rmm_rxf_sys_de.Base.Sort.{sort, sort-perm, sort-IsSorted}
use rmm_rxf_sys_de.Base.Table.{MayPrecede, InOrder, InOrder-of_IsSorted}
use rmm_rxf_sys_de.Base.Text.{Collator}
use rmm_rxf_sys_de.Fleet.People.{Account}
use rmm_rxf_sys_de.Patches.Sort.{SortDir, asc, desc, num, signed}
use rmm_rxf_sys_de.Patches.Sort.Laws.{signed-IsOrder}
use rmm_rxf_sys_de.Accounts.Sort.{
  SortKey, name, role, mail, totp, login, Sort, value, role_rank, by_name, compare_known,
  compare_accounts, sort_accounts, parse_sort, format_sort,
}

-- The number in a column, for the columns of numbers.
abbrev pub number : SortKey → Account → Option ℕ
number role a = some (role_rank a.role)
number totp a = some (if a.totp_enabled then 1 else 0)
number login a = a.last_login_at
number name a = none
number mail a = none

abbrev pub Earlier : SortDir → ℕ → ℕ → Type 0
Earlier asc v w = v < w
Earlier desc v w = w < v

module _ (collator names : Collator) (lower : String → String) where
  known-eq :
      (dir : SortDir) (a b : Account) (v w : Option ℕ)
      → compare_known collator names lower dir a (Option.map num v) b (Option.map num w)
        ≡ both (λ x y. signed dir (compare x y)) (by_name names) a v b w
  known-eq dir a b none none = refl
  known-eq dir a b none (some w) = refl
  known-eq dir a b (some v) none = refl
  known-eq asc a b (some v) (some w) = ground arith
  known-eq desc a b (some v) (some w) = ground arith

  columns :
      (dir : SortDir) (key : SortKey) (a b : Account)
      → key ≢ name
      → key ≢ mail
      → compare_accounts collator names lower (record { key = key; dir = dir }) a b
        ≡ both (λ x y. signed dir (compare x y)) (by_name names) a (number key a) b (number key b)
  unfolding compare_accounts value
  columns dir name a b h k = absurd (h refl)
  columns dir mail a b h k = absurd (k refl)
  columns dir role a b h k = known-eq dir a b (some (role_rank a.role)) (some (role_rank b.role))
  columns dir totp a b h k =
      known-eq dir a b (some (if a.totp_enabled then 1 else 0))
        (some (if b.totp_enabled then 1 else 0))
  columns dir login a b h k = known-eq dir a b a.last_login_at b.last_login_at

  may_precede :
      (dir : SortDir) (a b : Account) (v w : Option ℕ)
      → both (λ x y. signed dir (compare x y)) (by_name names) a v b w ≢ gt
      → MayPrecede (Earlier dir) (λ x y. x ≡ y) (by_name names) a v b w
  may_precede dir a b none none h = h
  may_precede dir a b none (some w) h = absurd (h refl)
  may_precede dir a b (some v) none h = tt
  may_precede asc a b (some v) (some w) h = ground arith
  may_precede desc a b (some v) (some w) h = ground arith

  -- Sorted by role, second factor or last login, the accounts are the given ones, each as often as
  -- it was given: those with a value first, in the direction chosen, whatever that is, and by name
  -- where the values tie.
  pub sort_accounts-InOrder :
      (dir : SortDir) (key : SortKey) (accounts : List Account)
      → key ≢ name
      → key ≢ mail
      → Perm
          (sort_accounts collator names lower accounts (record { key = key; dir = dir }))
          accounts
        × InOrder
            (Earlier dir)
            (λ x y. x ≡ y)
            (by_name names)
            (number key)
            (sort_accounts collator names lower accounts (record { key = key; dir = dir }))
  unfolding sort_accounts
  sort_accounts-InOrder dir key accounts h k =
      let cmp = compare_accounts collator names lower (record { key = key; dir = dir }) in
      let o =
        IsOrder-of_eq (λ a b. columns dir key a b h k)
          (missing_last-IsOrder (signed-IsOrder dir compare-IsOrder)
            (on-IsOrder (λ (a : Account). a.username) names.order) (number key)) in
      (
        sort-perm cmp accounts,
        InOrder-of_IsSorted (Earlier dir) (λ x y. x ≡ y) (by_name names) (number key) cmp
            (λ a b g.
              may_precede dir a b (number key a) (number key b) (rw (columns dir key a b h k) at g))
            (sort cmp accounts) (sort-IsSorted o accounts),
      )

parse_column :
    (k : SortKey) (d : SortDir)
    → parse_sort (format_sort (record { key = k; dir = d })) ≡ record { key = k; dir = d }
unfolding parse_sort format_sort
parse_column name asc = refl
parse_column name desc = refl
parse_column role asc = refl
parse_column role desc = refl
parse_column mail asc = refl
parse_column mail desc = refl
parse_column totp asc = refl
parse_column totp desc = refl
parse_column login asc = refl
parse_column login desc = refl

-- Every sort of the accounts survives its address form, the default included.
pub account_sort_roundtrip : (s : Sort) → parse_sort (format_sort s) ≡ s
account_sort_roundtrip s = parse_column s.key s.dir
