-- ===== src/Palette/Build/Allowed.antt =====
-- The palette and the roles: frontend/src/shell/palette/paletteModel.ts.
use rmm_rxf_sys_de.Base.{
  ℕ, ◌≡◌, refl, Bool, true, false, ◌&&◌, Option, none, some, List, [], ◌∷◌, map, filter, All,
  All-filter, All-map, All-append, Bool-cases, inl, inr, length, ltb, compare, if◌then◌else◌,
  str_eq,
}
use rmm_rxf_sys_de.Base.Sort.{sort-All}
use rmm_rxf_sys_de.Base.Text.{Collator}
use rmm_rxf_sys_de.Fleet.Types.{Device}
use rmm_rxf_sys_de.Fleet.People.{Role, admin, techniker, viewer}
use rmm_rxf_sys_de.Fleet.Status.{is_agent}
use rmm_rxf_sys_de.Nav.{PageId, visible_groups, visible_tabs}
use rmm_rxf_sys_de.Palette.Score.{Texts, DeviceEntry}
use rmm_rxf_sys_de.Palette.Rank.{DeviceHit}
use rmm_rxf_sys_de.Palette.Model.{
  ActionId, enroll, theme, QuickTab, remote, patches, jobs, PaletteOption, action, page, device,
  quick, PaletteGroup, Command, is_operator, is_admin, actions_for, pages_for, quick_targets,
  Ranked, rank_commands, ranked,
}
use rmm_rxf_sys_de.Palette.Build.{
  action_option, page_option, device_option, quick_option, behind, recent_option, insert_quick,
  placed_or, with_quick_targets, recent_options, entry_of, start_groups, found_groups,
  build_palette,
}

-- The scripts are for operators, the audit log and the administration for administrators.
abbrev pub may_open : Role → PageId → Bool
may_open role PageId.scripts = is_operator role
may_open role PageId.audit = is_admin role
may_open role PageId.admin = is_admin role
may_open role _ = true

-- The terminal and the jobs are for operators, and all three tabs need an agent.
abbrev pub may_jump : Role → Device → QuickTab → Bool
may_jump role d remote = is_operator role && is_agent d
may_jump role d jobs = is_operator role && is_agent d
may_jump role d patches = is_agent d

abbrev pub may_choose : Role → PaletteOption → Bool
may_choose role (action key enroll label) = is_operator role
may_choose role (action key theme label) = true
may_choose role (page key p label) = may_open role p
may_choose role (device key d show_id tag) = true
may_choose role (quick key d q label) = may_jump role d q

abbrev pub IsAllowed : Role → PaletteOption → Type 0
IsAllowed role o = may_choose role o ≡ true

actions-All : (role : Role) → All (λ a. IsAllowed role (action_option a)) (actions_for role)
actions-All admin = (refl, (refl, tt))
actions-All techniker = (refl, (refl, tt))
actions-All viewer = (refl, tt)

pages-All : (role : Role) → All (λ p. IsAllowed role (page_option p)) (pages_for role)
unfolding visible_groups
pages-All admin = (refl, (refl, (refl, (refl, (refl, (refl, (refl, (refl, (refl, (refl, tt))))))))))
pages-All techniker = (refl, (refl, (refl, (refl, (refl, (refl, (refl, (refl, tt))))))))
pages-All viewer = (refl, (refl, (refl, (refl, (refl, (refl, (refl, tt)))))))

quick-All :
    (role : Role) (d : Device) → All (λ q. IsAllowed role (quick_option d q)) (quick_targets d role)
unfolding quick_targets visible_tabs
quick-All admin d = elim (Bool-cases (is_agent d)) [
  | inl agent ↦ rw (agent) (agent, (agent, (agent, tt)))
  | inr none_here ↦ rw (none_here) tt
]
quick-All techniker d = elim (Bool-cases (is_agent d)) [
  | inl agent ↦ rw (agent) (agent, (agent, (agent, tt)))
  | inr none_here ↦ rw (none_here) tt
]
quick-All viewer d = elim (Bool-cases (is_agent d)) [
  | inl agent ↦ rw (agent) (agent, tt)
  | inr none_here ↦ rw (none_here) tt
]

module _ {T : Type 0} (P : Command T → Type 0) (texts : Texts)
    (query : Prim.Native.String.String) where
  rank_commands-All :
      (cs : List (Command T))
      → All P cs
      → All (λ (r : Ranked T). P r.cmd) (rank_commands texts query cs)
  unfolding rank_commands
  rank_commands-All cs h =
      sort-All (λ (a b : Ranked T). compare b.score a.score) (λ (r : Ranked T). P r.cmd)
        (filter (λ (r : Ranked T). ltb 0 r.score) (map (ranked texts query) cs))
        (All-filter (λ (r : Ranked T). P r.cmd) (λ (r : Ranked T). ltb 0 r.score)
          (map (ranked texts query) cs)
          (All-map (λ (r : Ranked T). P r.cmd) (ranked texts query) cs h))

-- What `insert_quick` gives holds allowed options only.
abbrev Allowed : Role → Option (List PaletteOption) → Type 0
Allowed role none = Unit
Allowed role (some os) = All (IsAllowed role) os

behind-Allowed :
    (role : Role) (o : PaletteOption) (rest : Option (List PaletteOption))
    → IsAllowed role o
    → Allowed role rest
    → Allowed role (behind o rest)
behind-Allowed role o none h r = tt
behind-Allowed role o (some os) h r = (h, r)

insert_quick-Allowed :
    (role : Role) (os : List PaletteOption)
    → All (IsAllowed role) os
    → Allowed role (insert_quick role os)
unfolding insert_quick
insert_quick-Allowed role [] h = tt
insert_quick-Allowed role (device key d show_id tag ∷ os) h = (
  h.0,
  All-append (IsAllowed role) (map (quick_option d) (quick_targets d role)) os
      (All-map (IsAllowed role) (quick_option d) (quick_targets d role) (quick-All role d)) h.1,
)
insert_quick-Allowed role (action key a label ∷ os) h =
    behind-Allowed role (action key a label) (insert_quick role os) h.0
      (insert_quick-Allowed role os h.1)
insert_quick-Allowed role (page key p label ∷ os) h =
    behind-Allowed role (page key p label) (insert_quick role os) h.0
      (insert_quick-Allowed role os h.1)
insert_quick-Allowed role (quick key d q label ∷ os) h =
    behind-Allowed role (quick key d q label) (insert_quick role os) h.0
      (insert_quick-Allowed role os h.1)

abbrev pub GroupIsAllowed : Role → PaletteGroup → Type 0
GroupIsAllowed role g = All (IsAllowed role) g.options

placed_or-All :
    (role : Role) (g : PaletteGroup) (options : Option (List PaletteOption))
    (groups placed : List PaletteGroup)
    → GroupIsAllowed role g
    → Allowed role options
    → All (GroupIsAllowed role) groups
    → All (GroupIsAllowed role) placed
    → All (GroupIsAllowed role) (placed_or g options groups placed)
placed_or-All role g none groups placed hg ho h hp = (hg, hp)
placed_or-All role g (some os) groups placed hg ho h hp = (ho, h)

with_quick_targets-All :
    (role : Role) (groups : List PaletteGroup)
    → All (GroupIsAllowed role) groups
    → All (GroupIsAllowed role) (with_quick_targets role groups)
unfolding with_quick_targets
with_quick_targets-All role [] h = tt
with_quick_targets-All role (g ∷ groups) h =
    placed_or-All role g (insert_quick role g.options) groups (with_quick_targets role groups) h.0
      (insert_quick-Allowed role g.options h.0) h.1 (with_quick_targets-All role groups h.1)

recent_option-All : (role : Role) (e : Option DeviceEntry) → All (IsAllowed role) (recent_option e)
recent_option-All role none = tt
recent_option-All role (some e) = (refl, tt)

recent_options-All :
    (role : Role) (index : List DeviceEntry) (ids : List ℕ)
    → All (IsAllowed role) (recent_options index ids)
unfolding recent_options
recent_options-All role index [] = tt
recent_options-All role index (id ∷ ids) =
    All-append (IsAllowed role) (recent_option (entry_of id index)) (recent_options index ids)
      (recent_option-All role (entry_of id index)) (recent_options-All role index ids)

module _ (texts : Texts) (collator : Collator) (query : Prim.Native.String.String)
    (index : List DeviceEntry) (last : List ℕ) (role : Role) where
  start_groups-All : All (GroupIsAllowed role) (start_groups texts collator query index last role)
  unfolding start_groups
  start_groups-All = (
    recent_options-All role index last,
    (
      All-map (IsAllowed role) action_option (actions_for role) (actions-All role),
      (All-map (IsAllowed role) page_option (pages_for role) (pages-All role), tt),
    ),
  )

  hits-All : (hits : List DeviceHit) → All (λ h. IsAllowed role (device_option h.entry h.tag)) hits
  hits-All [] = tt
  hits-All (h ∷ hits) = (refl, hits-All hits)

  found_groups-All : All (GroupIsAllowed role) (found_groups texts collator query index last role)
  unfolding found_groups
  found_groups-All =
      All-map (GroupIsAllowed role) (λ (r : ℕ × PaletteGroup). r.1) _
        (sort-All (λ (a b : ℕ × PaletteGroup). compare b.0 a.0)
          (λ (r : ℕ × PaletteGroup). GroupIsAllowed role r.1) _
          (
            All-map (IsAllowed role) (λ (r : Ranked ActionId). action_option r.cmd) _
                (rank_commands-All (λ a. IsAllowed role (action_option a)) texts query
                  (actions_for role) (actions-All role)),
            (
              All-map (IsAllowed role) (λ (r : Ranked PageId). page_option r.cmd) _
                  (rank_commands-All (λ p. IsAllowed role (page_option p)) texts query
                    (pages_for role) (pages-All role)),
              (
                All-map (IsAllowed role) (λ (h : DeviceHit). device_option h.entry h.tag) _
                    (hits-All _),
                tt,
              ),
            ),
          ))

  groups-All :
      (blank : Bool)
      → All (GroupIsAllowed role) (
          if blank
          then start_groups texts collator query index last role
          else found_groups texts collator query index last role)
  groups-All true = start_groups-All
  groups-All false = found_groups-All

  -- Whatever the query is, the palette offers a role only what the role may open: the scripts and
  -- the enrolment are for operators, the audit log and the administration for administrators, the
  -- terminal and the jobs of a device for operators and only where the device has an agent.
  pub build_palette-IsAllowed :
      All (GroupIsAllowed role) (build_palette texts collator query index last role).groups
  unfolding build_palette
  build_palette-IsAllowed = with_quick_targets-All role _ (
      All-filter (GroupIsAllowed role) (λ g. ltb 0 (length g.options)) _
        (groups-All (str_eq (texts.trim (texts.normalize query)) "")))
