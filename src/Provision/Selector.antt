-- ===== src/Provision/Selector.antt =====
-- server/internal/provision/selector.go: which servers a request tries, best first.
pub mod Order
pub mod Candidates
use proxify_vpn.Base.{
  Bool, List, String, false, if◌then◌else◌, leb, ltb, not, true, ◌&&◌, ◌==◌, ◌=?◌, ◌∷◌,
}
use proxify_vpn.Base.Effects.{Call, attempt, fail, succeed, ◌>>=◌}
use proxify_vpn.Base.Rows.{rows_where}
use proxify_vpn.Base.Sorting.{is_empty, sort_by}
use proxify_vpn.Base.Text.{equal_fold, text_before, to_lower, trim_space}
use proxify_vpn.Errors.{Result, err, no_server, ok, sentinel}
use proxify_vpn.Model.{Server, is_in_service}
use proxify_vpn.Provision.Storer.{Storer}

unfoldable pub at_capacity : Server → Bool
at_capacity s = ltb 0 s.capacity_peers && leb s.capacity_peers s.live_peers

abbrev pub differ : Bool → Bool → Bool
differ true b = not b
differ false b = b

-- The `less` function of `sortServers`; `cc` is the trimmed country in capitals, so that it is empty
-- exactly when the caller's country is not known.
unfoldable pub comes_first : String → Server → Server → Bool
comes_first cc a b =
    if differ (at_capacity a) (at_capacity b)
    then not (at_capacity a)
    else (if not (a.priority == b.priority)
        then ltb a.priority b.priority
        else (if not (cc =? "")
              && differ (equal_fold a.country_code cc) (equal_fold b.country_code cc)
            then equal_fold a.country_code cc
            else (if not (a.live_peers == b.live_peers)
                then ltb a.live_peers b.live_peers
                else text_before a.code b.code)))

-- `sortServers`. `EqualFold` makes the source's `ToUpper` of the country needless, so it is left out.
unfoldable pub sort_servers : List Server → String → List Server
sort_servers list client_country = sort_by (comes_first (trim_space client_country)) list

pub record Request : Type 0 where
  pub user_id : String
  pub device_id : String
  pub server_code : String
  pub client_country : String

module _ {S : Type 0} (st : Storer S) where
  abbrev pub is_other : Server → Server → Bool
  is_other chosen v = not (v.id =? chosen.id)

  abbrev pub put_first : Request → List Server → Result Server → Call S (List Server)
  put_first req in_use (err e) = fail (sentinel no_server)
  put_first req in_use (ok chosen) =
      if not (is_in_service chosen.status)
      then fail (sentinel no_server)
      else succeed (chosen ∷ sort_servers (rows_where (is_other chosen) in_use) req.client_country)

  abbrev pub best_of : Request → List Server → Call S (List Server)
  best_of req in_use =
      if is_empty in_use
      then fail (sentinel no_server)
      else succeed (sort_servers in_use req.client_country)

  abbrev pub wanted_code : Request → String
  wanted_code req = trim_space (to_lower req.server_code)

  -- `candidates`: the requested server and the others behind it as a failover, or all of them.
  unfoldable pub candidates : Request → Call S (List Server)
  candidates req = do
    in_use ← st.servers true
    if not (wanted_code req =? "") && not (wanted_code req =? "auto")
        then attempt (st.server_by_code (wanted_code req)) (put_first req in_use)
        else best_of req in_use
