-- ===== src/Accounts/Control/Priority.antt =====
-- The configuration that decides is one of the highest priority among those that match.
use mathlib.Core.List.{Mem}
use sman_server.Base.{
  All-weaken, All-Mem, ◌≤◌, ◌≡◌, ◌≢◌, refl, String, true, Option, none, some, List, [], ◌∷◌, arith,
  All, nat_eq, sort_desc-IsDescending, sort_desc-All, All-of_sort_desc, IsDescending,
  All-of_select_where, All-select_where,
}
use sman_server.Accounts.Types.{Account, ActionType, ControlConfig}
use sman_server.Accounts.Rejects.{RejectResult, reject, blacklist_hit}
use sman_server.Accounts.Store.Tables.{AccountDb, Env}
use sman_server.Accounts.Store.Controls.{config_matches, get_matching_configs}
use sman_server.Accounts.Control.{check, check_top, type_name}

module _ (env : Env) (a : Account) (action : ActionType) (scene : Option String)
    (s : AccountDb) where
  abbrev Applies : ControlConfig → Type 0
  Applies c = config_matches (some (type_name a.type)) action scene c ≡ true

  All-whitelists :
      (cs : List ControlConfig)
      → All (λ (c : ControlConfig). c.is_whitelist ≢ 0) cs
      → check_top env a cs s ≡ (none, s)
  unfolding check_top
  All-whitelists [] h = refl
  All-whitelists (c ∷ cs) h = ground arith

  -- With every applying configuration a whitelist, or none that applies, the action is allowed and
  -- the database is left alone.
  pub whitelists-check :
      All (λ c. Applies c → c.is_whitelist ≢ 0) s.control_configs
      → check env a action scene s ≡ (none, s)
  unfolding check get_matching_configs
  whitelists-check h =
      All-whitelists _ (sort_desc-All _ _ _ (All-select_where _ _ s.control_configs h))

  top_of_refused :
      (Q : ControlConfig → Type 0) (cs : List ControlConfig) {r : RejectResult}
      → (check_top env a cs s).0 ≡ some r
      → All Q cs
      → IsDescending (λ (c : ControlConfig). c.priority) cs
      → (c : ControlConfig) × Q c
        × (r ≡ reject "B003" (some (blacklist_hit c.name)))
        × (c.is_whitelist ≡ 0)
        × All (λ (d : ControlConfig). d.priority ≤ c.priority) cs
  unfolding check_top
  top_of_refused Q [] e q d = cc
  top_of_refused Q (c ∷ cs) e q d = (c, q.0, ground arith, ground arith, (omega arith, d.0))

  -- A refused action is refused with B003 and the name of one of the stored configurations, which is
  -- a blacklist, applies to the action, and has a priority that no applying configuration exceeds.
  pub refused-check :
      {r : RejectResult}
      → (check env a action scene s).0 ≡ some r
      → (c : ControlConfig) × (Mem c s.control_configs × Applies c)
        × (r ≡ reject "B003" (some (blacklist_hit c.name)))
        × (c.is_whitelist ≡ 0)
        × All (λ d. Applies d → d.priority ≤ c.priority) s.control_configs
  unfolding check get_matching_configs
  refused-check e =
      let rows = s.control_configs in
      let here =
        All-weaken _ (λ d. Applies d → Mem d rows × Applies d) rows (λ d m t. (m, t))
          (All-Mem rows) in
      let (c, row, named, black, top) =
        top_of_refused (λ d. Mem d rows × Applies d) _ e
          (sort_desc-All _ _ _ (All-select_where _ _ rows here)) (sort_desc-IsDescending _ _) in
      (c, row, named, black, All-of_select_where _ _ rows (All-of_sort_desc _ _ _ top))
