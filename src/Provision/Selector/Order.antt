-- ===== src/Provision/Selector/Order.antt =====
-- The order of `sortServers` in server/internal/provision/selector.go against its documented rules.
use mathlib.Core.List.{Perm}
use mathlib.Core.Path.{fun_ext}
use proxify_vpn.Base.{
  All, Bool, List, String, ap, arith, false, not, subst, sym, ◌&&◌, ◌=?◌, ◌∙◌, ◌∷◌, ◌≡◌,
}
use proxify_vpn.Base.Orders.{
  IsWeakOrder, by_flag, by_flag-IsWeakOrder, by_number, by_number-IsWeakOrder, lex, lex-IsWeakOrder,
}
use proxify_vpn.Base.Sorting.{IsOrdered, IsOrdered-head, IsOrdered-sort_by, sort_by, sort_by-perm}
use proxify_vpn.Base.Text.{equal_fold, text_before, text_before-asym, text_before_trans, trim_space}
use proxify_vpn.Model.{Server}
use proxify_vpn.Provision.Selector.{at_capacity, comes_first, sort_servers}

-- The rules of the comment on `candidates`, in priority order: below capacity first, then the lower
-- priority number, then the caller's own country if it is known, then the least loaded; and the code
-- to make the order total.
abbrev pub documented : String → Server → Server → Bool
documented cc = lex (by_flag (λ s. not (at_capacity s))) (
    lex (by_number (λ s. s.priority)) (
      lex (by_flag (λ s. not (cc =? "") && equal_fold s.country_code cc))
        (lex (by_number (λ s. s.live_peers)) (λ a b. text_before a.code b.code))))

-- The comparison decides by the documented rules, in their order.
pub comes_first-documented : (cc : String) (a b : Server) → comes_first cc a b ≡ documented cc a b
unfolding comes_first
comes_first-documented cc a b = ground arith

code-IsWeakOrder : IsWeakOrder (λ (a b : Server). text_before a.code b.code)
code-IsWeakOrder = record {
  asym = λ a b h. text_before-asym a.code b.code h;
  trans = λ a b c h i. text_before_trans a.code b.code c.code h i;
}

pub documented-IsWeakOrder : (cc : String) → IsWeakOrder (documented cc)
documented-IsWeakOrder cc =
    lex-IsWeakOrder (by_flag (λ s. not (at_capacity s))) _ (by_flag-IsWeakOrder _) (
      lex-IsWeakOrder (by_number (λ s. s.priority)) _ (by_number-IsWeakOrder _) (
        lex-IsWeakOrder (by_flag (λ s. not (cc =? "") && equal_fold s.country_code cc)) _
          (by_flag-IsWeakOrder _)
          (lex-IsWeakOrder (by_number (λ s. s.live_peers)) _ (by_number-IsWeakOrder _)
            code-IsWeakOrder)))

-- The sorted list is a rearrangement of the servers in which none comes before its left neighbour,
-- and none comes before the first.
pub sort_servers-sorted :
    (list : List Server) (country : String) (best : Server) (rest : List Server)
    → sort_servers list country ≡ best ∷ rest
    → Perm (best ∷ rest) list
      × IsOrdered (documented (trim_space country)) (best ∷ rest)
      × All (λ s. documented (trim_space country) s best ≡ false) rest
unfolding sort_servers
sort_servers-sorted list country best rest e = (
  rw e at (sort_by-perm (comes_first cc) list),
  ordered,
  IsOrdered-head (documented cc) weak.trans best rest ordered,
)
  where
    cc : String
    cc = trim_space country

    weak : IsWeakOrder (documented cc)
    weak = documented-IsWeakOrder cc

    same : comes_first cc ≡ documented cc
    same = fun_ext (λ a. fun_ext (comes_first-documented cc a))

    ordered : IsOrdered (documented cc) (best ∷ rest)
    ordered =
        subst (IsOrdered (documented cc)) (sym (ap (λ f. sort_by f list) same) ∙ e)
          (IsOrdered-sort_by (documented cc) weak.asym list)
